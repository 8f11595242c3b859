-- ===== src/Utils.antt =====
-- maskSensitiveData, generateSecureRandomString, isValidUuid and parseBoolean of src/common/utils.ts. A text is the list of its UTF-16 code units.
pub mod Bounds
mod Tests
use nestjs_vibe_engine.Prelude.{
  ℕ, zero, suc, ◌+◌, ◌-◌, ◌*◌, ◌/◌, List, [], ◌∷◌, ◌++◌, leb, length, if◌then◌else◌, Bool, true,
  false, ◌&&◌, ◌||◌, nat_eq, Option, none, some,
}

-- text.substring(0, n)
abbrev pub take : ℕ → List ℕ → List ℕ
take zero s = []
take (suc n) [] = []
take (suc n) (c ∷ s) = c ∷ take n s

-- text.substring(n)
abbrev pub drop : ℕ → List ℕ → List ℕ
drop zero s = s
drop (suc n) [] = []
drop (suc n) (c ∷ s) = drop n s

-- '*'.repeat(n)
abbrev pub stars : ℕ → List ℕ
stars zero = []
stars (suc n) = b'*' ∷ stars n

-- Math.min
abbrev pub min_of : ℕ → ℕ → ℕ
min_of a b = if leb a b then a else b

unfoldable pub mask_sensitive_data : List ℕ → ℕ → List ℕ
mask_sensitive_data value visible_chars =
    if leb (length value) (visible_chars * 2)
    then stars (length value)
    else take visible_chars value
      ++ (stars (min_of (length value - visible_chars * 2) 10)
          ++ drop (length value - visible_chars) value)

-- `random_hex n` is the hexadecimal text of n random bytes.
unfoldable pub generate_secure_random_string : (ℕ → List ℕ) → ℕ → List ℕ
generate_secure_random_string random_hex length = take length (random_hex ((length + 1) / 2))

-- One test for each code unit, from the first to the last.
abbrev pub matches : List (ℕ → Bool) → List ℕ → Bool
matches [] [] = true
matches [] (c ∷ s) = false
matches (p ∷ ps) [] = false
matches (p ∷ ps) (c ∷ s) = p c && matches ps s

abbrev pub between : ℕ → ℕ → ℕ → Bool
between low high c = leb low c && leb c high

-- A letter, given by its code unit, in either case.
abbrev pub letter : ℕ → ℕ → Bool
letter small c = nat_eq c small || nat_eq c (small - 32)

-- [0-9a-f] in either case
abbrev pub is_hex : ℕ → Bool
is_hex c = between b'0' b'9' c || between b'a' b'f' c || between b'A' b'F' c

-- [89ab] in either case
abbrev pub is_variant : ℕ → Bool
is_variant c = between b'8' b'9' c || letter b'a' c || letter b'b' c

abbrev pub hexes : ℕ → List (ℕ → Bool)
hexes zero = []
hexes (suc n) = is_hex ∷ hexes n

unfoldable pub uuid_v4_regex : List (ℕ → Bool)
uuid_v4_regex =
    hexes 8
    ++ (nat_eq b'-'
        ∷ (hexes 4
            ++ (nat_eq b'-'
                ∷ (nat_eq b'4'
                    ∷ (hexes 3
                        ++ (nat_eq b'-' ∷ (is_variant ∷ (hexes 3 ++ (nat_eq b'-' ∷ hexes 12)))))))))

unfoldable pub is_valid_uuid : List ℕ → Bool
is_valid_uuid uuid = matches uuid_v4_regex uuid

-- value.toLowerCase() === 'true'
abbrev pub is_true_text : List ℕ → Bool
is_true_text = matches (letter b't' ∷ letter b'r' ∷ letter b'u' ∷ letter b'e' ∷ [])

unfoldable pub parse_boolean : Option (List ℕ) → Bool → Bool
parse_boolean none default_value = default_value
parse_boolean (some []) default_value = default_value
parse_boolean (some (c ∷ s)) default_value =
    is_true_text (c ∷ s) || matches (nat_eq b'1' ∷ []) (c ∷ s)
