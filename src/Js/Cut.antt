-- ===== src/Js/Cut.antt =====
-- A text at the first place of a character: indexOf with the two slices around it.
use Prim.Native.Char.{Char, code}
use text.Mathlib.TextLemmas.{cons-append, nil-append}
use nestjs_vibe_engine.Prelude.{
  ℕ, String, ◌≡◌, refl, ap, ◌∙◌, Bool, true, false, not, ◌&&◌, Option, none, some, nat_eq, arith,
  nat_eq_iff, [], ◌∷◌,
}
use nestjs_vibe_engine.Js.Text.{◌⧺◌, split}

unfoldable pub all_codes : (ℕ → Bool) → String → Bool
all_codes p String.[] = true
all_codes p (String.◌∷◌ c s) = p (code c) && all_codes p s

abbrev pub lacks : Char → ℕ → Bool
lacks c n = not (nat_eq n (code c))

abbrev in_front : Char → Option (String × String) → Option (String × String)
in_front c none = none
in_front c (some (s, t)) = some (String.◌∷◌ c s, t)

-- What is in front of the first `c`, and what is behind it.
unfoldable pub cut : Char → String → Option (String × String)
cut c String.[] = none
cut c (String.◌∷◌ d s) = elim (nat_eq (code d) (code c)) [
  | true ↦ some ("", s)
  | false ↦ in_front d (cut c s)
]

pub cut-append :
    (c : Char) (s t : String)
    → all_codes (lacks c) s ≡ true
    → cut c (s ⧺ String.◌∷◌ c t) ≡ some (s, t)
unfolding cut all_codes
cut-append c String.[] t h =
    ap (cut c) (nil-append (String.◌∷◌ c t)) ∙ rw ((nat_eq_iff (code c) (code c)).1 refl, cut) refl
cut-append c (String.◌∷◌ d s) t h =
    let other : nat_eq (code d) (code c) ≡ false = ground (arith, h) in
    ap (cut c) (cons-append d s (String.◌∷◌ c t))
    ∙ rw (other, cut) (ap (in_front d) (cut-append c s t (ground (arith, h))))

pub all_codes-append :
    (p : ℕ → Bool) (s t : String)
    → all_codes p s ≡ true
    → all_codes p t ≡ true
    → all_codes p (s ⧺ t) ≡ true
unfolding all_codes
all_codes-append p String.[] t h k = ap (all_codes p) (nil-append t) ∙ k
all_codes-append p (String.◌∷◌ c s) t h k =
    let rest = all_codes-append p s t (ground (arith, h)) k in
    ap (all_codes p) (cons-append c s t) ∙ ground (arith, h, rest)

pub cut_at :
    (c : Char) (s t : String)
    → all_codes (lacks c) s ≡ true
    → cut c (s ⧺ (String.◌∷◌ c "" ⧺ t)) ≡ some (s, t)
cut_at c s t h =
    ap (λ u. cut c (s ⧺ u)) (cons-append c "" t ∙ ap (String.◌∷◌ c) (nil-append t))
    ∙ cut-append c s t h

pub split-nil : (c : Char) (s : String) → all_codes (lacks c) s ≡ true → split c s ≡ s ∷ []
unfolding split all_codes
split-nil c String.[] h = refl
split-nil c (String.◌∷◌ d s) h =
    let rest = split-nil c s (ground (arith, h)) in
    let other : nat_eq (code c) (code d) ≡ false =
      ground (arith, h, nat_eq_iff (code c) (code d), nat_eq_iff (code d) (code c)) in
    rw other (rw rest refl)

pub split-append :
    (c : Char) (s t : String)
    → all_codes (lacks c) s ≡ true
    → split c (s ⧺ (String.◌∷◌ c "" ⧺ t)) ≡ s ∷ split c t
unfolding split all_codes
split-append c String.[] t h =
    ap (split c)
      (nil-append (String.◌∷◌ c "" ⧺ t) ∙ cons-append c "" t ∙ ap (String.◌∷◌ c) (nil-append t))
    ∙ rw ((nat_eq_iff (code c) (code c)).1 refl, split) refl
split-append c (String.◌∷◌ d s) t h =
    let rest = split-append c s t (ground (arith, h)) in
    let other : nat_eq (code c) (code d) ≡ false =
      ground (arith, h, nat_eq_iff (code c) (code d), nat_eq_iff (code d) (code c)) in
    ap (split c) (cons-append d s (String.◌∷◌ c "" ⧺ t)) ∙ rw (other, split) (rw rest refl)
