-- ===== src/Js/Uri.antt =====
-- `encodeURIComponent` and `decodeURIComponent`. A text is a sequence of Unicode scalar values, so
-- encoding never throws; decoding answers none where it throws a URIError.
pub mod Decoding
use Prim.Native.Char.{Char, code, char, IsScalar, IsLt}
use Prim.Native.Nat.{compare, Ordering}
use Prim.Native.String.{char_at}
use nestjs_vibe_engine.Prelude.{
  zero, suc, ℕ, ◌+◌, ◌*◌, ◌-◌, ◌/◌, ◌%◌, String, ◌≡◌, refl, ◌⊎◌, inl, inr, Bool, true, false, ◌&&◌,
  ◌||◌, Option, none, some, List, [], ◌∷◌, ltb, leb, nat_eq, if◌then◌else◌, any,
}
use nestjs_vibe_engine.Js.Scalar.{to_char}
use nestjs_vibe_engine.Js.Text.{codes, ◌⧺◌}

abbrev is_letter_or_digit : ℕ → Bool
is_letter_or_digit n = (leb 48 n && leb n 57) || (leb 65 n && leb n 90) || (leb 97 n && leb n 122)

-- The characters that are left as they are.
unfoldable pub is_unreserved : ℕ → Bool
is_unreserved n = is_letter_or_digit n || any (nat_eq n) (codes "-_.!~*'()")

-- The bytes of a character in UTF-8.
unfoldable pub utf8 : ℕ → List ℕ
utf8 n =
    if ltb n 128
    then n ∷ []
    else if ltb n 2048
    then (192 + n / 64) ∷ (128 + n % 64) ∷ []
    else if ltb n 65536
    then (224 + n / 4096) ∷ (128 + n / 64 % 64) ∷ (128 + n % 64) ∷ []
    else (240 + n / 262144) ∷ (128 + n / 4096 % 64) ∷ (128 + n / 64 % 64) ∷ (128 + n % 64) ∷ []

unfoldable pub percent : ℕ → String
percent b = String.◌∷◌ "%" (
    String.◌∷◌ (char_at "0123456789ABCDEF" (b / 16))
      (String.◌∷◌ (char_at "0123456789ABCDEF" (b % 16)) ""))

unfoldable pub percent_all : List ℕ → String
percent_all [] = ""
percent_all (b ∷ bs) = percent b ⧺ percent_all bs

unfoldable pub encode_char : Char → String
encode_char c = if is_unreserved (code c) then String.◌∷◌ c "" else percent_all (utf8 (code c))

unfoldable pub encode_uri_component : String → String
encode_uri_component String.[] = ""
encode_uri_component (String.◌∷◌ c s) = encode_char c ⧺ encode_uri_component s

-- A percent-encoded text as it is read: characters that stand for themselves, and bytes.
pub data Piece : Type 0 where
  plain : Char → Piece
  byte : ℕ → Piece

-- Where in `%XX` the reader stands.
pub data Reader : Type 0 where
  outside after_percent : Reader
  after_digit : ℕ → Reader

unfoldable pub hex_value : ℕ → Option ℕ
hex_value n =
    if leb 48 n && leb n 57
    then some (n - 48)
    else if leb 65 n && leb n 70
    then some (n - 55)
    else if leb 97 n && leb n 102
    then some (n - 87)
    else none

abbrev pub add_piece : Piece → Option (List Piece) → Option (List Piece)
add_piece p none = none
add_piece p (some ps) = some (p ∷ ps)

unfoldable pub pieces : Reader → String → Option (List Piece)
pieces outside String.[] = some []
pieces after_percent String.[] = none
pieces (after_digit h) String.[] = none
pieces outside (String.◌∷◌ c s) = elim (nat_eq (code c) b'%') [
  | true ↦ pieces after_percent s
  | false ↦ add_piece (plain c) (pieces outside s)
]
pieces after_percent (String.◌∷◌ c s) = elim (hex_value (code c)) [
  | none ↦ none
  | some h ↦ pieces (after_digit h) s
]
pieces (after_digit h) (String.◌∷◌ c s) = elim (hex_value (code c)) [
  | none ↦ none
  | some l ↦ add_piece (byte (16 * h + l)) (pieces outside s)
]

-- What the first byte of a character's UTF-8 says: the bytes that follow, its bits, and the least
-- code that is written in this length.
pub record Lead : Type 0 where
  pub more : ℕ
  pub bits : ℕ
  pub least : ℕ

unfoldable pub lead : ℕ → Option Lead
lead b =
    if ltb b 128
    then some (record { more = 0; bits = b; least = 0 })
    else if leb 192 b && ltb b 224
    then some (record { more = 1; bits = b - 192; least = 128 })
    else if leb 224 b && ltb b 240
    then some (record { more = 2; bits = b - 224; least = 2048 })
    else if leb 240 b && ltb b 248
    then some (record { more = 3; bits = b - 240; least = 65536 })
    else none

abbrev pub add_char : Option Char → Option String → Option String
add_char none s = none
add_char (some c) none = none
add_char (some c) (some s) = some (String.◌∷◌ c s)

-- `more` bytes of a character are still to come.
unfoldable pub from_pieces : ℕ → ℕ → ℕ → List Piece → Option String
from_pieces zero bits least [] = some ""
from_pieces (suc more) bits least [] = none
from_pieces zero bits least (plain c ∷ ps) = add_char (some c) (from_pieces 0 0 0 ps)
from_pieces (suc more) bits least (plain c ∷ ps) = none
from_pieces zero bits least (byte b ∷ ps) = elim (lead b) [
  | none ↦ none
  | some l ↦ elim l.more [
    | zero ↦ add_char (to_char l.bits) (from_pieces 0 0 0 ps)
    | suc m ↦ from_pieces (suc m) l.bits l.least ps
  ]
]
from_pieces (suc more) bits least (byte b ∷ ps) = elim (leb 128 b && ltb b 192) [
  | false ↦ none
  | true ↦ elim more [
    | zero ↦ elim (leb least (bits * 64 + (b - 128))) [
      | false ↦ none
      | true ↦ add_char (to_char (bits * 64 + (b - 128))) (from_pieces 0 0 0 ps)
    ]
    | suc m ↦ from_pieces (suc m) (bits * 64 + (b - 128)) least ps
  ]
]

abbrev pub decode_pieces : Option (List Piece) → Option String
decode_pieces none = none
decode_pieces (some ps) = from_pieces 0 0 0 ps

unfoldable pub decode_uri_component : String → Option String
decode_uri_component s = decode_pieces (pieces outside s)
