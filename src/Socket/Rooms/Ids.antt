-- ===== src/Socket/Rooms/Ids.antt =====
-- Room identifiers: ROOM_ID_PATTERN against a description of its language.
use mathlib.Core.Bool.{and-eq-true_iff}
use nestjs_vibe_engine.Prelude.{
  ℕ, ◌≤◌, String, ◌≡◌, refl, ◌↔◌, ◌⊎◌, inl, inr, Bool, true, false, ◌||◌, List, [], ◌∷◌, ◌++◌,
  arith, all,
}
use nestjs_vibe_engine.Js.Text.{codes}
use nestjs_vibe_engine.Socket.Rooms.{is_word_char, is_room_name, matches_prefix, is_valid_room_id}

abbrev pub IsWordChar : ℕ → Type 0
IsWordChar c =
    ((b'a' ≤ c) × (c ≤ b'z'))
    ⊎ ((b'A' ≤ c) × (c ≤ b'Z'))
    ⊎ ((b'0' ≤ c) × (c ≤ b'9'))
    ⊎ (c ≡ b'_')
    ⊎ (c ≡ b'-')

abbrev pub AllWordChars : List ℕ → Type 0
AllWordChars [] = Unit
AllWordChars (c ∷ cs) = IsWordChar c × AllWordChars cs

-- A text with this prefix, a colon, and a name of one or more word characters.
pub record IsRoomWith (prefix : String) (room_id : String) : Type 0 where
  pub first : ℕ
  pub rest : List ℕ
  pub first_word : IsWordChar first
  pub rest_words : AllWordChars rest
  pub spelled : codes room_id ≡ codes prefix ++ b':' ∷ first ∷ rest

IsWordChar-iff : (c : ℕ) → (is_word_char c ≡ true) ↔ IsWordChar c
unfolding is_word_char
IsWordChar-iff c = (λ h. ground arith, λ h. ground arith)

AllWordChars-iff : (cs : List ℕ) → (all is_word_char cs ≡ true) ↔ AllWordChars cs
AllWordChars-iff [] = (λ h. tt, λ h. refl)
AllWordChars-iff (c ∷ cs) = (
  λ h.
      let (x, y) = (and-eq-true_iff _ _).0 h in ((IsWordChar-iff c).0 x, (AllWordChars-iff cs).0 y),
  λ h. (and-eq-true_iff _ _).1 ((IsWordChar-iff c).1 h.0, (AllWordChars-iff cs).1 h.1),
)

matches_sound :
    (ps cs : List ℕ)
    → matches_prefix ps cs ≡ true
    → (c : ℕ) × (rest : List ℕ) × IsWordChar c × AllWordChars rest × (cs ≡ ps ++ b':' ∷ c ∷ rest)
unfolding matches_prefix is_room_name
matches_sound [] (x ∷ c ∷ rest) h = (
  c,
  rest,
  (IsWordChar-iff c).0 (ground arith),
  (AllWordChars-iff rest).0 (ground arith),
  ground arith,
)
matches_sound [] (x ∷ []) h = absurd (ground arith)
matches_sound [] [] h = absurd (ground arith)
matches_sound (p ∷ ps) [] h = absurd (ground arith)
matches_sound (p ∷ ps) (x ∷ cs) h =
    let (c, rest, w, ws, e) = matches_sound ps cs (ground arith) in (c, rest, w, ws, ground arith)

matches_complete :
    (ps : List ℕ) (c : ℕ) (rest : List ℕ)
    → IsWordChar c
    → AllWordChars rest
    → matches_prefix ps (ps ++ b':' ∷ c ∷ rest) ≡ true
unfolding matches_prefix is_room_name
matches_complete [] c rest w ws =
    ground (arith, (IsWordChar-iff c).1 w, (AllWordChars-iff rest).1 ws)
matches_complete (p ∷ ps) c rest w ws = ground (arith, matches_complete ps c rest w ws)

IsRoomWith-iff :
    (prefix room_id : String)
    → (matches_prefix (codes prefix) (codes room_id) ≡ true) ↔ IsRoomWith prefix room_id
IsRoomWith-iff prefix room_id = (
  λ h.
      let (c, rest, w, ws, e) = matches_sound (codes prefix) (codes room_id) h in
      record { first = c; rest = rest; first_word = w; rest_words = ws; spelled = e },
  λ r. rw r.spelled (matches_complete (codes prefix) r.first r.rest r.first_word r.rest_words),
)

any_of_four :
    {a b c d : Bool} {A B C D : Type 0}
    → (a ≡ true) ↔ A
    → (b ≡ true) ↔ B
    → (c ≡ true) ↔ C
    → (d ≡ true) ↔ D
    → ((a || (b || (c || (d || false)))) ≡ true) ↔ (A ⊎ B ⊎ C ⊎ D)
any_of_four {a} {b} {c} {d} f g h k = (to a b c d f g h k, from a b c d f g h k)
  where
    to :
        (a b c d : Bool) {A B C D : Type 0}
        → (a ≡ true) ↔ A
        → (b ≡ true) ↔ B
        → (c ≡ true) ↔ C
        → (d ≡ true) ↔ D
        → (a || (b || (c || (d || false)))) ≡ true
        → A ⊎ B ⊎ C ⊎ D
    to true b c d f g h k e = inl (f.0 refl)
    to false true c d f g h k e = inr (inl (g.0 refl))
    to false false true d f g h k e = inr (inr (inl (h.0 refl)))
    to false false false true f g h k e = inr (inr (inr (k.0 refl)))
    to false false false false f g h k e = absurd (ground arith)

    from :
        (a b c d : Bool) {A B C D : Type 0}
        → (a ≡ true) ↔ A
        → (b ≡ true) ↔ B
        → (c ≡ true) ↔ C
        → (d ≡ true) ↔ D
        → A ⊎ B ⊎ C ⊎ D
        → (a || (b || (c || (d || false)))) ≡ true
    from a b c d f g h k (inl x) = rw (f.1 x)
    from a b c d f g h k (inr (inl x)) = ground (arith, g.1 x)
    from a b c d f g h k (inr (inr (inl x))) = ground (arith, h.1 x)
    from a b c d f g h k (inr (inr (inr x))) = ground (arith, k.1 x)

-- A room identifier is valid exactly when it is group, channel, user or broadcast, then a colon and
-- one or more letters, digits, underscores or dashes, with nothing before or after.
pub is_valid_room_id_iff :
    (room_id : String)
    → (is_valid_room_id room_id ≡ true) ↔ (
        IsRoomWith "group" room_id
        ⊎ IsRoomWith "channel" room_id
        ⊎ IsRoomWith "user" room_id
        ⊎ IsRoomWith "broadcast" room_id)
unfolding is_valid_room_id
is_valid_room_id_iff room_id =
    any_of_four (IsRoomWith-iff "group" room_id) (IsRoomWith-iff "channel" room_id)
      (IsRoomWith-iff "user" room_id) (IsRoomWith-iff "broadcast" room_id)
