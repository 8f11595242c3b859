-- ===== src/Utils/Bounds.antt =====
-- How long a masked text is, and what it keeps of the text.
use nestjs_vibe_engine.Prelude.{
  ℕ, zero, suc, ◌+◌, ◌-◌, ◌*◌, ◌≤◌, ◌<◌, ◌≡◌, refl, ap, List, [], ◌∷◌, ◌++◌, leb, length,
  length-append, if◌then◌else◌, Bool-cases, inl, inr, arith, Bool, true, ◌/◌, subst, sym, ◌∙◌,
}
use nestjs_vibe_engine.Utils.{
  take, drop, stars, min_of, mask_sensitive_data, generate_secure_random_string, matches,
  uuid_v4_regex, is_valid_uuid,
}

length-take : (n : ℕ) (s : List ℕ) → n ≤ length s → length (take n s) ≡ n
length-take zero s h = refl
length-take (suc n) [] h = absurd (omega (arith, h))
length-take (suc n) (c ∷ s) h = ap suc (length-take n s (omega (arith, h)))

length-drop : (n : ℕ) (s : List ℕ) → length (drop n s) ≡ length s - n
length-drop zero s = omega arith
length-drop (suc n) [] = omega arith
length-drop (suc n) (c ∷ s) = let h = length-drop n s in omega (arith, h)

length-stars : (n : ℕ) → length (stars n) ≡ n
length-stars zero = refl
length-stars (suc n) = ap suc (length-stars n)

length-mask :
    (value : List ℕ) (n : ℕ)
    → length (mask_sensitive_data value n) ≡ (
        if leb (length value) (n * 2)
        then length value
        else n * 2 + min_of (length value - n * 2) 10)
unfolding mask_sensitive_data
length-mask value n = elim (Bool-cases (leb (length value) (n * 2))) [
  | inl e ↦ rw e (length-stars (length value))
  | inr e ↦
      let hidden = min_of (length value - n * 2) 10 in
      let end = drop (length value - n) value in
      let a = length-append (take n value) (stars hidden ++ end) in
      let b = length-append (stars hidden) end in
      let c = length-take n value (ground (arith, e)) in
      let d = length-drop (length value - n) value in
      let f = length-stars hidden in
      let long : n * 2 < length value = ground (arith, e) in
      rw e (omega (arith, a, b, c, d, f, long))
]

take-append : (a b : List ℕ) → take (length a) (a ++ b) ≡ a
take-append [] b = refl
take-append (c ∷ a) b = ap (λ s. c ∷ s) (take-append a b)

drop-append : (a b : List ℕ) (k m : ℕ) → m ≡ length a + k → drop m (a ++ b) ≡ drop k b
drop-append [] b k m h = ap (λ i. drop i b) (omega (arith, h))
drop-append (c ∷ a) b k zero h = absurd (omega (arith, h))
drop-append (c ∷ a) b k (suc m) h = drop-append a b k m (omega (arith, h))

drop-length : (s : List ℕ) → drop (length s) s ≡ []
drop-length [] = refl
drop-length (c ∷ s) = drop-length s

drop_all : (s : List ℕ) (k : ℕ) → k ≡ length s → drop k s ≡ []
drop_all s k h = rw h (drop-length s)

-- How many characters are shown at either end.
abbrev shown : List ℕ → ℕ → ℕ
shown value visible_chars = if leb (length value) (visible_chars * 2) then 0 else visible_chars

-- Texts of one length that agree in what is shown are masked alike.
mask_alike :
    (value other : List ℕ) (n : ℕ)
    → length other ≡ length value
    → take (shown value n) other ≡ take (shown value n) value
    → drop (length value - shown value n) other ≡ drop (length value - shown value n) value
    → mask_sensitive_data other n ≡ mask_sensitive_data value n
unfolding mask_sensitive_data
mask_alike value other n same front back = elim (Bool-cases (leb (length value) (n * 2))) [
  | inl e ↦ rw (same, e) refl
  | inr e ↦
      let long : shown value n ≡ n = rw e refl in
      let front' : take n other ≡ take n value =
        subst (λ k. take k other ≡ take k value) long front in
      let back' : drop (length value - n) other ≡ drop (length value - n) value =
        subst (λ k. drop (length value - k) other ≡ drop (length value - k) value) long back in
      rw (same, front', back') refl
]

-- The first characters that are shown are the first of the text.
take-mask :
    (value : List ℕ) (n : ℕ)
    → take (shown value n) (mask_sensitive_data value n) ≡ take (shown value n) value
unfolding mask_sensitive_data
take-mask value n = elim (Bool-cases (leb (length value) (n * 2))) [
  | inl e ↦ rw e refl
  | inr e ↦
      let rest = stars (min_of (length value - n * 2) 10) ++ drop (length value - n) value in
      let h : length (take n value) ≡ n = length-take n value (ground (arith, e)) in
      rw e (
        subst (λ k. take k (take n value ++ rest) ≡ take n value) h
          (take-append (take n value) rest))
]

-- The last ones are the last of the text.
drop-mask :
    (value : List ℕ) (n : ℕ)
    → drop (length (mask_sensitive_data value n) - shown value n) (mask_sensitive_data value n)
      ≡ drop (length value - shown value n) value
unfolding mask_sensitive_data
drop-mask value n = elim (Bool-cases (leb (length value) (n * 2))) [
  | inl e ↦
      let h = length-stars (length value) in
      let a : drop (length (stars (length value)) - 0) (stars (length value)) ≡ [] =
        drop_all (stars (length value)) _ (omega arith) in
      let b : drop (length value - 0) value ≡ [] = drop_all value _ (omega arith) in
      rw e (a ∙ sym b)
  | inr e ↦
      let hidden = min_of (length value - n * 2) 10 in
      let end = drop (length value - n) value in
      let mask = take n value ++ (stars hidden ++ end) in
      let a = length-append (take n value) (stars hidden ++ end) in
      let b = length-append (stars hidden) end in
      let c = length-take n value (ground (arith, e)) in
      let d = length-drop (length value - n) value in
      let f = length-stars hidden in
      let long : n * 2 < length value = ground (arith, e) in
      rw e (
        drop-append (take n value) (stars hidden ++ end) hidden (length mask - n)
          (omega (arith, a, b, c, d, f, long))
        ∙ drop-append (stars hidden) end 0 hidden (omega (arith, f)))
]

-- A masked text has as many characters as the text, but no more than twice the number of characters to
-- show and ten. At either end it has that number of characters of the text, or none if the text is no
-- longer than twice that number; and it tells nothing else: every other text of that length with these
-- at its ends is masked alike.
pub mask_sensitive_data_hides :
    (value other : List ℕ) (visible_chars : ℕ)
    → length other ≡ length value
    → take (shown value visible_chars) other ≡ take (shown value visible_chars) value
    → drop (length value - shown value visible_chars) other
      ≡ drop (length value - shown value visible_chars) value
    → (mask_sensitive_data other visible_chars ≡ mask_sensitive_data value visible_chars)
      × (length (mask_sensitive_data value visible_chars)
          ≡ min_of (length value) (visible_chars * 2 + 10))
      × (take (shown value visible_chars) (mask_sensitive_data value visible_chars)
          ≡ take (shown value visible_chars) value)
      × (drop
            (length (mask_sensitive_data value visible_chars) - shown value visible_chars)
            (mask_sensitive_data value visible_chars)
          ≡ drop (length value - shown value visible_chars) value)
mask_sensitive_data_hides value other n same front back =
    let h = length-mask value n in
    (
      mask_alike value other n same front back,
      ground (arith, h),
      take-mask value n,
      drop-mask value n,
    )

-- The random text has the length that was asked for, odd or even, if each byte has two digits.
length-generate_secure_random_string :
    (random_hex : ℕ → List ℕ) (n : ℕ)
    → ((m : ℕ) → length (random_hex m) ≡ m * 2)
    → length (generate_secure_random_string random_hex n) ≡ n
unfolding generate_secure_random_string
length-generate_secure_random_string random_hex n two_each =
    let h = two_each ((n + 1) / 2) in length-take n (random_hex ((n + 1) / 2)) (omega (arith, h))

length-matches : (ps : List (ℕ → Bool)) (s : List ℕ) → matches ps s ≡ true → length s ≡ length ps
length-matches [] [] h = refl
length-matches [] (c ∷ s) h = ground (arith, h)
length-matches (p ∷ ps) [] h = ground (arith, h)
length-matches (p ∷ ps) (c ∷ s) h = ap suc (length-matches ps s (ground (arith, h)))

-- A text that is taken for a UUID has 36 characters.
is_valid_uuid-length : (uuid : List ℕ) → is_valid_uuid uuid ≡ true → length uuid ≡ 36
unfolding is_valid_uuid uuid_v4_regex
is_valid_uuid-length uuid h = length-matches uuid_v4_regex uuid h
