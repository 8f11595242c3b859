-- ===== src/Setup/DatabaseUrl/RoundTrip.antt =====
-- What parseDatabaseUrl reads back from buildDatabaseUrl.
use Prim.Native.Char.{Char, code}
use Prim.Native.String.{char_at}
use text.Mathlib.TextLemmas.{cons-append, nil-append}
use nestjs_vibe_engine.Prelude.{
  ℕ, String, ◌≡◌, refl, ap, ◌∙◌, subst, true, false, some, nat_eq, arith, nat_eq_iff, ◌==◌,
  ne→eq-false, ◌≢◌, Bool-cases, inl, inr, List, [], ◌∷◌, ◌%◌, ◌/◌, ◌<◌,
}
use nestjs_vibe_engine.Js.Text.{◌⧺◌, strip_prefix}
use nestjs_vibe_engine.Js.Cut.{all_codes, lacks, cut_at, all_codes-append}
use nestjs_vibe_engine.Js.Uri.{
  encode_uri_component, encode_char, percent, percent_all, utf8, is_unreserved, hex_value,
}
use nestjs_vibe_engine.Js.Uri.Decoding.{
  decode-encode_uri_component, hex_value-digit, utf8_bytes, below_max, all_bytes,
}
use nestjs_vibe_engine.Setup.DatabaseUrl.{
  DbFields, build_database_url, parse_database_url, match_database_url, checked_groups, is_digit,
  on_the_line,
}

strip_prefix-append : (p s : String) → strip_prefix p (p ⧺ s) ≡ some s
unfolding strip_prefix
strip_prefix-append String.[] s = ap (strip_prefix "") (nil-append s)
strip_prefix-append (String.◌∷◌ c p) s =
    ap (strip_prefix (String.◌∷◌ c p)) (cons-append c p s)
    ∙ rw ((nat_eq_iff (code c) (code c)).1 refl, strip_prefix) (strip_prefix-append p s)

-- No hexadecimal digit is the character that ends the password.
hex_lacks : (d : ℕ) → d < 16 → lacks "@" (code (char_at "0123456789ABCDEF" d)) ≡ true
unfolding hex_value
hex_lacks d h = elim (Bool-cases (nat_eq (code (char_at "0123456789ABCDEF" d)) 64)) [
  | inl e ↦
      let same = (nat_eq_iff (code (char_at "0123456789ABCDEF" d)) 64).0 e in
      let bad : hex_value 64 ≡ some d =
        subst (λ n. hex_value n ≡ some d) same (hex_value-digit d h) in
      absurd (ground (arith, bad))
  | inr e ↦ ground (arith, e)
]

percent-lacks : (b : ℕ) → b < 256 → all_codes (lacks "@") (percent b) ≡ true
unfolding percent all_codes
percent-lacks b h =
    rw (hex_lacks (b / 16) (omega (arith, h))) (rw (hex_lacks (b % 16) (omega (arith, h))) refl)

percent_all-lacks :
    (bs : List ℕ) → all_bytes bs ≡ true → all_codes (lacks "@") (percent_all bs) ≡ true
unfolding percent_all all_codes
percent_all-lacks [] h = refl
percent_all-lacks (b ∷ bs) h =
    all_codes-append (lacks "@") (percent b) (percent_all bs) (percent-lacks b (ground (arith, h)))
      (percent_all-lacks bs (ground (arith, h)))

unreserved_lacks : (n : ℕ) → is_unreserved n ≡ true → lacks "@" n ≡ true
unfolding is_unreserved
unreserved_lacks n h = elim (Bool-cases (nat_eq n 64)) [
  | inl e ↦
      let bad : is_unreserved 64 ≡ true =
        subst (λ k. is_unreserved k ≡ true) ((nat_eq_iff n 64).0 e) h in
      absurd (ground (arith, bad))
  | inr e ↦ ground (arith, e)
]

encode_char-lacks : (c : Char) → all_codes (lacks "@") (encode_char c) ≡ true
unfolding encode_char all_codes
encode_char-lacks c = elim (Bool-cases (is_unreserved (code c))) [
  | inl e ↦ rw e (let h = unreserved_lacks (code c) e in ground (arith, h))
  | inr e ↦ rw e (percent_all-lacks (utf8 (code c)) (utf8_bytes (code c) (below_max c)))
]

encode_lacks : (s : String) → all_codes (lacks "@") (encode_uri_component s) ≡ true
unfolding encode_uri_component all_codes
encode_lacks String.[] = refl
encode_lacks (String.◌∷◌ c s) =
    all_codes-append (lacks "@") (encode_char c) (encode_uri_component s) (encode_char-lacks c)
      (encode_lacks s)

not_empty : (s : String) → s ≢ "" → (s == "") ≡ false
not_empty s h = ne→eq-false s "" h

digits_no_slash : (s : String) → all_codes is_digit s ≡ true → all_codes (lacks "/") s ≡ true
unfolding all_codes
digits_no_slash String.[] h = refl
digits_no_slash (String.◌∷◌ c s) h =
    let rest = digits_no_slash s (ground (arith, h)) in ground (arith, h, rest)

-- The fields that a URL can carry. The password is free.
pub record UrlFields (f : DbFields) : Type 0 where
  pub host_given : f.host ≢ ""
  pub host_plain : all_codes (lacks ":") f.host ≡ true
  pub port_given : f.port ≢ ""
  pub port_digits : all_codes is_digit f.port ≡ true
  pub user_given : f.user ≢ ""
  pub user_plain : all_codes (lacks ":") f.user ≡ true
  pub name_given : f.db_name ≢ ""
  pub name_line : all_codes on_the_line f.db_name ≡ true

abbrev encoded : DbFields → DbFields
encoded f = record f { password = encode_uri_component f.password }

checked_encoded : (f : DbFields) → UrlFields f → checked_groups (encoded f) ≡ some (encoded f)
checked_encoded f ok_fields = rw (not_empty f.user ok_fields.user_given) (
    rw (not_empty f.host ok_fields.host_given) (
      rw (not_empty f.port ok_fields.port_given) (
        rw (not_empty f.db_name ok_fields.name_given)
          (rw ok_fields.port_digits (rw ok_fields.name_line refl)))))

match-build_database_url :
    (f : DbFields)
    → UrlFields f
    → match_database_url (build_database_url f.host f.port f.user f.password f.db_name)
      ≡ some (encoded f)
unfolding match_database_url build_database_url
match-build_database_url f ok_fields =
    let tail3 = f.port ⧺ ("/" ⧺ f.db_name) in
    let tail2 = f.host ⧺ (":" ⧺ tail3) in
    let tail1 = encode_uri_component f.password ⧺ ("@" ⧺ tail2) in
    rw (strip_prefix-append "mysql://" (f.user ⧺ (":" ⧺ tail1)), match_database_url)
      (rw (cut_at ":" f.user tail1 ok_fields.user_plain) (
        rw (cut_at "@" (encode_uri_component f.password) tail2 (encode_lacks f.password)) (
          rw (cut_at ":" f.host tail3 ok_fields.host_plain) (
            rw (cut_at "/" f.port f.db_name (digits_no_slash f.port ok_fields.port_digits))
              (checked_encoded f ok_fields)))))

-- Parsing a URL that was built gives the fields back, when host, port, user and name are not empty,
-- host and user have no colon, the port is made of digits and the name of one line. The password is
-- any text.
pub parse-build_database_url :
    (f : DbFields)
    → UrlFields f
    → parse_database_url (build_database_url f.host f.port f.user f.password f.db_name) ≡ some f
unfolding parse_database_url
parse-build_database_url f ok_fields =
    rw (match-build_database_url f ok_fields, parse_database_url)
      (rw (decode-encode_uri_component f.password) refl)
