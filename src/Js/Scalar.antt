-- ===== src/Js/Scalar.antt =====
-- Unicode scalar values: which numbers are the codes of characters.
use Prim.Native.Char.{Char, code, char, IsScalar, IsLt}
use Prim.Native.Nat.{compare, Ordering}
use nestjs_vibe_engine.Prelude.{
  arith, ap, Bool-cases, ℕ, ◌≡◌, refl, ◌⊎◌, inl, inr, Bool, true, false, ◌&&◌, ◌||◌, Option, none,
  some, ltb,
}

-- A number is the code of a character if it is no half of a surrogate pair and at most U+10FFFF.
unfoldable pub is_scalar : ℕ → Bool
is_scalar n = ltb n 55296 || (ltb 57343 n && ltb n 1114112)

abbrev is_lt : Ordering → Bool
is_lt o = elim o [ Ordering.lt ↦ true | _ ↦ false ]

abbrev BothLt : Ordering → Ordering → Type 0
BothLt Ordering.lt q = IsLt q
BothLt Ordering.eq q = ⊥
BothLt Ordering.gt q = ⊥

-- What `IsScalar` computes to, by its three comparisons.
abbrev Scalar : Ordering → Ordering → Ordering → Type 0
Scalar Ordering.lt p q = Unit
Scalar Ordering.eq p q = BothLt p q
Scalar Ordering.gt p q = BothLt p q

BothLt-of_test : (p q : Ordering) → (is_lt p && is_lt q) ≡ true → BothLt p q
BothLt-of_test Ordering.lt Ordering.lt h = tt
BothLt-of_test Ordering.lt Ordering.eq h = absurd (ground arith)
BothLt-of_test Ordering.lt Ordering.gt h = absurd (ground arith)
BothLt-of_test Ordering.eq q h = absurd (ground arith)
BothLt-of_test Ordering.gt q h = absurd (ground arith)

Scalar-of_test : (o p q : Ordering) → (is_lt o || (is_lt p && is_lt q)) ≡ true → Scalar o p q
Scalar-of_test Ordering.lt p q h = tt
Scalar-of_test Ordering.eq p q h = BothLt-of_test p q h
Scalar-of_test Ordering.gt p q h = BothLt-of_test p q h

pub scalar : (n : ℕ) → is_scalar n ≡ true → IsScalar n
unfolding is_scalar
scalar n h = Scalar-of_test (compare n 55296) (compare 57343 n) (compare n 1114112) h

test-of_BothLt : (p q : Ordering) → BothLt p q → (is_lt p && is_lt q) ≡ true
test-of_BothLt Ordering.lt Ordering.lt h = refl
test-of_BothLt Ordering.lt Ordering.eq h = absurd h
test-of_BothLt Ordering.lt Ordering.gt h = absurd h
test-of_BothLt Ordering.eq q h = absurd h
test-of_BothLt Ordering.gt q h = absurd h

test-of_Scalar : (o p q : Ordering) → Scalar o p q → (is_lt o || (is_lt p && is_lt q)) ≡ true
test-of_Scalar Ordering.lt p q h = refl
test-of_Scalar Ordering.eq p q h = test-of_BothLt p q h
test-of_Scalar Ordering.gt p q h = test-of_BothLt p q h

pub is_scalar_code : (c : Char) → is_scalar (code c) ≡ true
unfolding is_scalar
is_scalar_code (char n p) = test-of_Scalar (compare n 55296) (compare 57343 n) (compare n 1114112) p

BothLt-unique : (p q : Ordering) → (x y : BothLt p q) → x ≡ y
BothLt-unique Ordering.lt Ordering.lt x y = refl
BothLt-unique Ordering.lt Ordering.eq x y = absurd x
BothLt-unique Ordering.lt Ordering.gt x y = absurd x
BothLt-unique Ordering.eq q x y = absurd x
BothLt-unique Ordering.gt q x y = absurd x

Scalar-unique : (o p q : Ordering) → (x y : Scalar o p q) → x ≡ y
Scalar-unique Ordering.lt p q x y = refl
Scalar-unique Ordering.eq p q x y = BothLt-unique p q x y
Scalar-unique Ordering.gt p q x y = BothLt-unique p q x y

char-eq : (n : ℕ) → (p q : IsScalar n) → char n p ≡ char n q
char-eq n p q =
    ap (char n) (Scalar-unique (compare n 55296) (compare 57343 n) (compare n 1114112) p q)

abbrev char_if : (n : ℕ) → (is_scalar n ≡ true) ⊎ (is_scalar n ≡ false) → Option Char
char_if n (inl e) = some (char n (scalar n e))
char_if n (inr e) = none

-- String.fromCodePoint(n), where it is a character.
unfoldable pub to_char : ℕ → Option Char
to_char n = char_if n (Bool-cases (is_scalar n))

char_if_lem :
    (n : ℕ) (p : IsScalar n) (d : (is_scalar n ≡ true) ⊎ (is_scalar n ≡ false))
    → char_if n d ≡ some (char n p)
char_if_lem n p (inl e) = ap some (char-eq n (scalar n e) p)
char_if_lem n p (inr e) = let h = is_scalar_code (char n p) in absurd (ground (arith, e, h))

pub to_char-code : (c : Char) → to_char (code c) ≡ some c
unfolding to_char
to_char-code (char n p) = char_if_lem n p (Bool-cases (is_scalar n))
