-- ===== src/Encryption/Tests.antt =====
-- Tests of the encryption service over a library whose cipher replaces one text by digits.
use nestjs_vibe_engine.Prelude.{
  String, ◌≡◌, refl, sym, ap, ◌∙◌, Bool, true, Option, none, some, ◌==◌, if◌then◌else◌, Bool-cases,
  inl, inr, arith, eq_iff,
}
use nestjs_vibe_engine.Js.Cut
use nestjs_vibe_engine.Js.Cut.{all_codes, lacks}
use nestjs_vibe_engine.Encryption.{Crypto, CryptoLaws, encrypt, decrypt}
use nestjs_vibe_engine.Encryption.RoundTrip.{decrypt-encrypt}

abbrev cipher : String → Option (String × Unit {0})
cipher plain = if plain == "ann@example.com" then some ("6a1f", tt) else none

abbrev decipher : String → Option String
decipher encrypted = if encrypted == "6a1f" then some "ann@example.com" else none

abbrev crypto : Crypto (Unit {0})
crypto = record {
  buffer_of = λ t. tt;
  to_hex = λ b. "00ff";
  from_hex = λ t. tt;
  cipher = λ key iv plain. cipher plain;
  decipher = λ key iv auth_tag encrypted. decipher encrypted;
  sha256_hex = λ t. "00ff";
}

abbrev digits_of : Option (String × Unit {0}) → Bool
digits_of none = true
digits_of (some (encrypted, tag)) = all_codes (lacks ":") encrypted

cipher_digits : (plain : String) → digits_of (cipher plain) ≡ true
unfolding Cut.all_codes
cipher_digits plain = elim (Bool-cases (plain == "ann@example.com")) [
  | inl e ↦ rw e refl
  | inr e ↦ rw e refl
]

abbrev deciphered : Option (String × Unit {0}) → Option String
deciphered none = none
deciphered (some (encrypted, tag)) = decipher encrypted

decipher-cipher :
    (plain encrypted : String) (tag : Unit {0})
    → cipher plain ≡ some (encrypted, tag)
    → decipher encrypted ≡ some plain
decipher-cipher plain encrypted tag e = elim (Bool-cases (plain == "ann@example.com")) [
  | inl h ↦ ap deciphered (sym e) ∙ rw h (ap some (sym ((eq_iff plain "ann@example.com").0 h)))
  | inr h ↦ let absent : none ≡ some (encrypted, tag) = rw h at e in absurd (ground (arith, absent))
]

crypto_laws : CryptoLaws crypto
unfolding Cut.all_codes
crypto_laws = record {
  from_hex-to_hex = λ b. refl;
  to_hex_digits = λ b. refl;
  cipher_digits = λ key iv plain encrypted tag e. ap digits_of (sym e) ∙ cipher_digits plain;
  decipher-cipher = λ key iv plain encrypted tag e. decipher-cipher plain encrypted tag e;
}

sealed : encrypt crypto (some "secret") tt "ann@example.com" ≡ some "00ff:00ff:6a1f"
unfolding encrypt
sealed = refl

decrypt-encrypt_example : decrypt crypto (some "secret") "00ff:00ff:6a1f" ≡ some "ann@example.com"
decrypt-encrypt_example =
    decrypt-encrypt crypto crypto_laws (some "secret") tt "ann@example.com" "00ff:00ff:6a1f" sealed
