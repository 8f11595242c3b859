-- ===== src/Js/Uri/Decoding.antt =====
-- Decoding what `encodeURIComponent` writes.
use Prim.Native.Char.{Char, code}
use Prim.Native.String.{char_at}
use text.Mathlib.TextLemmas.{append_assoc, cons-append, nil-append}
use nestjs_vibe_engine.Prelude.{
  arith, zero, suc, ap, ◌∙◌, ℕ, ◌+◌, ◌*◌, ◌-◌, ◌/◌, ◌%◌, ◌<◌, String, ◌≡◌, refl, Bool, true, false,
  Bool-cases, inl, inr, ◌&&◌, Option, none, some, List, [], ◌∷◌, ltb, leb, nat_eq, if◌then◌else◌,
  subst, nat_eq_iff, ◌≤◌,
}
use nestjs_vibe_engine.Js.Scalar.{to_char, to_char-code, is_scalar, is_scalar_code}
use nestjs_vibe_engine.Js.Text.{◌⧺◌}
use nestjs_vibe_engine.Js.Uri.{
  is_unreserved, utf8, percent, percent_all, encode_char, encode_uri_component, Piece, plain, byte,
  outside, hex_value, add_piece, pieces, lead, add_char, from_pieces, decode_pieces,
  decode_uri_component,
}

pub hex_value-digit : (d : ℕ) → d < 16 → hex_value (code (char_at "0123456789ABCDEF" d)) ≡ some d
unfolding hex_value
hex_value-digit zero h = refl
hex_value-digit (suc zero) h = refl
hex_value-digit (suc (suc zero)) h = refl
hex_value-digit (suc (suc (suc zero))) h = refl
hex_value-digit (suc (suc (suc (suc zero)))) h = refl
hex_value-digit (suc (suc (suc (suc (suc zero))))) h = refl
hex_value-digit (suc (suc (suc (suc (suc (suc zero)))))) h = refl
hex_value-digit (suc (suc (suc (suc (suc (suc (suc zero))))))) h = refl
hex_value-digit (suc (suc (suc (suc (suc (suc (suc (suc zero)))))))) h = refl
hex_value-digit (suc (suc (suc (suc (suc (suc (suc (suc (suc zero))))))))) h = refl
hex_value-digit (suc (suc (suc (suc (suc (suc (suc (suc (suc (suc zero)))))))))) h = refl
hex_value-digit (suc (suc (suc (suc (suc (suc (suc (suc (suc (suc (suc zero))))))))))) h = refl
hex_value-digit (suc (suc (suc (suc (suc (suc (suc (suc (suc (suc (suc (suc zero)))))))))))) h =
    refl
hex_value-digit (suc (suc (suc (suc (suc (suc (suc (suc (suc (suc (suc (suc (suc zero)))))))))))))
      h =
    refl
hex_value-digit
      (suc (suc (suc (suc (suc (suc (suc (suc (suc (suc (suc (suc (suc (suc zero)))))))))))))) h =
    refl
hex_value-digit
      (suc (suc (suc (suc (suc (suc (suc (suc (suc (suc (suc (suc (suc (suc (suc zero)))))))))))))))
      h =
    refl
hex_value-digit
      (suc
        (suc (suc (suc (suc (suc (suc (suc (suc (suc (suc (suc (suc (suc (suc (suc d))))))))))))))))
      h =
    absurd (omega (arith, h))

three-append :
    (a b c : Char) (t : String)
    → String.◌∷◌ a (String.◌∷◌ b (String.◌∷◌ c "")) ⧺ t
      ≡ String.◌∷◌ a (String.◌∷◌ b (String.◌∷◌ c t))
three-append a b c t =
    cons-append a (String.◌∷◌ b (String.◌∷◌ c "")) t
    ∙ ap (String.◌∷◌ a) (
        cons-append b (String.◌∷◌ c "") t
        ∙ ap (String.◌∷◌ b) (cons-append c "" t ∙ ap (String.◌∷◌ c) (nil-append t)))

pieces-percent :
    (b : ℕ) (t : String)
    → b < 256
    → pieces outside (percent b ⧺ t) ≡ add_piece (byte b) (pieces outside t)
unfolding pieces percent
pieces-percent b t h =
    ap (pieces outside) (
      three-append "%" (char_at "0123456789ABCDEF" (b / 16)) (char_at "0123456789ABCDEF" (b % 16))
        t)
    ∙ rw (hex_value-digit (b / 16) (omega (arith, h)), pieces)
        (rw (hex_value-digit (b % 16) (omega (arith, h)), pieces)
          (ap (λ n. add_piece (byte n) (pieces outside t)) (omega arith)))

abbrev add_bytes : List ℕ → Option (List Piece) → Option (List Piece)
add_bytes [] ps = ps
add_bytes (b ∷ bs) ps = add_piece (byte b) (add_bytes bs ps)

abbrev pub all_bytes : List ℕ → Bool
all_bytes [] = true
all_bytes (b ∷ bs) = ltb b 256 && all_bytes bs

pieces-percent_all :
    (bs : List ℕ) (t : String)
    → all_bytes bs ≡ true
    → pieces outside (percent_all bs ⧺ t) ≡ add_bytes bs (pieces outside t)
unfolding percent_all
pieces-percent_all [] t h = ap (pieces outside) (nil-append t)
pieces-percent_all (b ∷ bs) t h =
    ap (pieces outside) (append_assoc (percent b) (percent_all bs) t)
    ∙ pieces-percent b (percent_all bs ⧺ t) (ground (arith, h))
    ∙ ap (add_piece (byte b)) (pieces-percent_all bs t (ground (arith, h)))

pub below_max : (c : Char) → code c < 1114112
unfolding is_scalar
below_max c = let h = is_scalar_code c in ground (arith, h)

pub utf8_bytes : (n : ℕ) → n < 1114112 → all_bytes (utf8 n) ≡ true
unfolding utf8
utf8_bytes n h = ground (arith, h)

-- The characters that stand for themselves are no percent signs.
unreserved_percent : (n : ℕ) → is_unreserved n ≡ true → nat_eq n b'%' ≡ false
unfolding is_unreserved
unreserved_percent n h = elim (Bool-cases (nat_eq n b'%')) [
  | inl e ↦
      let bad : is_unreserved 37 ≡ true =
        subst (λ k. is_unreserved k ≡ true) ((nat_eq_iff n b'%').0 e) h in
      absurd (ground (arith, bad))
  | inr e ↦ e
]

abbrev char_pieces : Char → Option (List Piece) → Option (List Piece)
char_pieces c ps =
    if is_unreserved (code c) then add_piece (plain c) ps else add_bytes (utf8 (code c)) ps

pieces-encode_char :
    (c : Char) (t : String) → pieces outside (encode_char c ⧺ t) ≡ char_pieces c (pieces outside t)
unfolding encode_char pieces
pieces-encode_char c t = elim (Bool-cases (is_unreserved (code c))) [
  | inl e ↦ rw e (
      ap (pieces outside) (cons-append c "" t ∙ ap (String.◌∷◌ c) (nil-append t))
      ∙ rw (unreserved_percent (code c) e, pieces) refl)
  | inr e ↦ rw e (pieces-percent_all (utf8 (code c)) t (utf8_bytes (code c) (below_max c)))
]

lead_piece :
    (b : ℕ) (ps : List Piece) (more bits least : ℕ)
    → lead b ≡ some (record { more = suc more; bits = bits; least = least })
    → from_pieces 0 0 0 (byte b ∷ ps) ≡ from_pieces (suc more) bits least ps
unfolding from_pieces
lead_piece b ps more bits least e = rw (e, from_pieces) refl

follows : (b : ℕ) → b < 64 → (leb 128 (128 + b) && ltb (128 + b) 192) ≡ true
follows b h = ground (arith, h)

low_bits : (b : ℕ) → 128 + b - 128 ≡ b
low_bits b = omega arith

follow_piece :
    (b bits least : ℕ) (ps : List Piece) (more : ℕ)
    → b < 64
    → from_pieces (suc (suc more)) bits least (byte (128 + b) ∷ ps)
      ≡ from_pieces (suc more) (bits * 64 + b) least ps
unfolding from_pieces
follow_piece b bits least ps more h = rw (follows b h, from_pieces) (rw (low_bits b) refl)

last_piece :
    (b bits least n : ℕ) (ps : List Piece)
    → b < 64
    → n ≡ bits * 64 + b
    → leb least n ≡ true
    → from_pieces 1 bits least (byte (128 + b) ∷ ps) ≡ add_char (to_char n) (from_pieces 0 0 0 ps)
unfolding from_pieces
last_piece b bits least n ps h e above =
    let whole : bits * 64 + (128 + b - 128) ≡ n = omega (arith, e) in
    let enough : leb least (bits * 64 + (128 + b - 128)) ≡ true = rw whole above in
    rw (follows b h, from_pieces)
      (rw enough (ap (λ k. add_char (to_char k) (from_pieces 0 0 0 ps)) whole))

lead_1 : (n : ℕ) → n < 128 → lead n ≡ some (record { more = 0; bits = n; least = 0 })
unfolding lead
lead_1 n h = ground (arith, h)

from_pieces-utf8_1 :
    (n : ℕ) (ps : List Piece)
    → n < 128
    → from_pieces 0 0 0 (byte n ∷ ps) ≡ add_char (to_char n) (from_pieces 0 0 0 ps)
unfolding from_pieces
from_pieces-utf8_1 n ps h =
    let e : lead n ≡ some (record { more = 0; bits = n; least = 0 }) = lead_1 n h in
    rw (e, from_pieces) refl

lead_2 : (b : ℕ) → b < 32 → lead (192 + b) ≡ some (record { more = 1; bits = b; least = 128 })
unfolding lead
lead_2 b h = ground (arith, h)

lead_3 : (b : ℕ) → b < 16 → lead (224 + b) ≡ some (record { more = 2; bits = b; least = 2048 })
unfolding lead
lead_3 b h = ground (arith, h)

lead_4 : (b : ℕ) → b < 8 → lead (240 + b) ≡ some (record { more = 3; bits = b; least = 65536 })
unfolding lead
lead_4 b h = ground (arith, h)

abbrev byte_pieces : List ℕ → List Piece → List Piece
byte_pieces [] ps = ps
byte_pieces (b ∷ bs) ps = byte b ∷ byte_pieces bs ps

from_pieces-utf8_2 :
    (n : ℕ) (ps : List Piece)
    → 128 ≤ n
    → n < 2048
    → from_pieces 0 0 0 (byte (192 + n / 64) ∷ byte (128 + n % 64) ∷ ps)
      ≡ add_char (to_char n) (from_pieces 0 0 0 ps)
from_pieces-utf8_2 n ps low h =
    lead_piece (192 + n / 64) (byte (128 + n % 64) ∷ ps) 0 (n / 64) 128
      (lead_2 (n / 64) (omega (arith, h)))
    ∙ last_piece (n % 64) (n / 64) 128 n ps (omega arith) (omega arith) (ground (arith, low))

from_pieces-utf8_3 :
    (n : ℕ) (ps : List Piece)
    → 2048 ≤ n
    → n < 65536
    → from_pieces 0 0 0
        (byte (224 + n / 4096) ∷ byte (128 + n / 64 % 64) ∷ byte (128 + n % 64) ∷ ps)
      ≡ add_char (to_char n) (from_pieces 0 0 0 ps)
from_pieces-utf8_3 n ps low h =
    lead_piece (224 + n / 4096) (byte (128 + n / 64 % 64) ∷ byte (128 + n % 64) ∷ ps) 1 (n / 4096)
      2048 (lead_3 (n / 4096) (omega (arith, h)))
    ∙ follow_piece (n / 64 % 64) (n / 4096) 2048 (byte (128 + n % 64) ∷ ps) 0 (omega arith)
    ∙ last_piece (n % 64) (n / 4096 * 64 + n / 64 % 64) 2048 n ps (omega arith) (omega arith)
        (ground (arith, low))

from_pieces-utf8_4 :
    (n : ℕ) (ps : List Piece)
    → 65536 ≤ n
    → n < 1114112
    → from_pieces 0 0 0 (
        byte (240 + n / 262144)
        ∷ byte (128 + n / 4096 % 64)
        ∷ byte (128 + n / 64 % 64)
        ∷ byte (128 + n % 64)
        ∷ ps)
      ≡ add_char (to_char n) (from_pieces 0 0 0 ps)
from_pieces-utf8_4 n ps low h =
    lead_piece (240 + n / 262144)
      (byte (128 + n / 4096 % 64) ∷ byte (128 + n / 64 % 64) ∷ byte (128 + n % 64) ∷ ps) 2
      (n / 262144) 65536 (lead_4 (n / 262144) (omega (arith, h)))
    ∙ follow_piece (n / 4096 % 64) (n / 262144) 65536
        (byte (128 + n / 64 % 64) ∷ byte (128 + n % 64) ∷ ps) 1 (omega arith)
    ∙ follow_piece (n / 64 % 64) (n / 262144 * 64 + n / 4096 % 64) 65536 (byte (128 + n % 64) ∷ ps)
        0 (omega arith)
    ∙ last_piece (n % 64) ((n / 262144 * 64 + n / 4096 % 64) * 64 + n / 64 % 64) 65536 n ps
        (omega arith) (omega arith) (ground (arith, low))

from_pieces-utf8 :
    (n : ℕ) (ps : List Piece)
    → n < 1114112
    → from_pieces 0 0 0 (byte_pieces (utf8 n) ps) ≡ add_char (to_char n) (from_pieces 0 0 0 ps)
unfolding utf8
from_pieces-utf8 n ps h = elim (Bool-cases (ltb n 128)) [
  | inl e ↦ rw e (from_pieces-utf8_1 n ps (ground (arith, e)))
  | inr e ↦ elim (Bool-cases (ltb n 2048)) [
    | inl e2 ↦ rw e (rw e2 (from_pieces-utf8_2 n ps (ground (arith, e)) (ground (arith, e2))))
    | inr e2 ↦ elim (Bool-cases (ltb n 65536)) [
      | inl e3 ↦
          rw e (rw e2 (rw e3 (from_pieces-utf8_3 n ps (ground (arith, e2)) (ground (arith, e3)))))
      | inr e3 ↦ rw e (rw e2 (rw e3 (from_pieces-utf8_4 n ps (ground (arith, e3)) h)))
    ]
  ]
]

add_bytes-none : (bs : List ℕ) → add_bytes bs none ≡ none
add_bytes-none [] = refl
add_bytes-none (b ∷ bs) = ap (add_piece (byte b)) (add_bytes-none bs)

add_bytes-some : (bs : List ℕ) (ps : List Piece) → add_bytes bs (some ps) ≡ some (byte_pieces bs ps)
add_bytes-some [] ps = refl
add_bytes-some (b ∷ bs) ps = ap (add_piece (byte b)) (add_bytes-some bs ps)

-- What decoding does with the pieces of one character in front of others.
decode-char_pieces :
    (c : Char) (o : Option (List Piece))
    → decode_pieces (char_pieces c o) ≡ add_char (some c) (decode_pieces o)
unfolding from_pieces
decode-char_pieces c none = elim (Bool-cases (is_unreserved (code c))) [
  | inl e ↦ rw e refl
  | inr e ↦ rw e (ap decode_pieces (add_bytes-none (utf8 (code c))))
]
decode-char_pieces c (some ps) = elim (Bool-cases (is_unreserved (code c))) [
  | inl e ↦ rw e refl
  | inr e ↦ rw e (
      ap decode_pieces (add_bytes-some (utf8 (code c)) ps)
      ∙ from_pieces-utf8 (code c) ps (below_max c)
      ∙ ap (λ o. add_char o (from_pieces 0 0 0 ps)) (to_char-code c))
]

-- Decoding what is encoded gives the text back.
pub decode-encode_uri_component :
    (s : String) → decode_uri_component (encode_uri_component s) ≡ some s
unfolding decode_uri_component encode_uri_component pieces from_pieces
decode-encode_uri_component String.[] = refl
decode-encode_uri_component (String.◌∷◌ c s) =
    ap decode_pieces (pieces-encode_char c (encode_uri_component s))
    ∙ decode-char_pieces c (pieces outside (encode_uri_component s))
    ∙ ap (add_char (some c)) (decode-encode_uri_component s)
