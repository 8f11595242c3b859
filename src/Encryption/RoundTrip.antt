-- ===== src/Encryption/RoundTrip.antt =====
-- Decryption of what was encrypted under the same key.
use nestjs_vibe_engine.Prelude.{String, ◌≡◌, refl, ap, ◌∙◌, sym, Option, none, some, [], ◌∷◌, arith}
use nestjs_vibe_engine.Js.Text.{◌⧺◌, split}
use nestjs_vibe_engine.Js.Cut.{split-nil, split-append}
use nestjs_vibe_engine.Encryption.{Crypto, CryptoLaws, key, framed, encrypt, decrypt_parts, decrypt}

module _ {B : Type 0} (crypto : Crypto B) (laws : CryptoLaws crypto)
    (encryption_key : Option String) where
  split-framed :
      (iv auth_tag : B) (plain encrypted : String)
      → crypto.cipher (key crypto encryption_key) iv plain ≡ some (encrypted, auth_tag)
      → split ":" (crypto.to_hex iv ⧺ (":" ⧺ (crypto.to_hex auth_tag ⧺ (":" ⧺ encrypted))))
        ≡ crypto.to_hex iv ∷ crypto.to_hex auth_tag ∷ encrypted ∷ []
  split-framed iv auth_tag plain encrypted e =
      split-append ":" (crypto.to_hex iv) (crypto.to_hex auth_tag ⧺ (":" ⧺ encrypted))
        (laws.to_hex_digits iv)
      ∙ ap (λ l. crypto.to_hex iv ∷ l)
          (split-append ":" (crypto.to_hex auth_tag) encrypted (laws.to_hex_digits auth_tag)
            ∙ ap (λ l. crypto.to_hex auth_tag ∷ l)
                (split-nil ":" encrypted (laws.cipher_digits _ iv plain encrypted auth_tag e)))

  abbrev decrypt_sealed : Option String → Option String
  decrypt_sealed none = none
  decrypt_sealed (some cipher_text) = decrypt crypto encryption_key cipher_text

  decrypt-framed :
      (iv : B) (plain_text : String) (sealed : Option (String × B)) (cipher_text : String)
      → crypto.cipher (key crypto encryption_key) iv plain_text ≡ sealed
      → framed crypto encryption_key iv sealed ≡ some cipher_text
      → decrypt crypto encryption_key cipher_text ≡ some plain_text
  unfolding decrypt
  decrypt-framed iv plain_text none cipher_text h e = absurd (ground (arith, e))
  decrypt-framed iv plain_text (some (encrypted, auth_tag)) cipher_text h e =
      ap decrypt_sealed (sym e)
      ∙ ap (decrypt_parts crypto encryption_key) (split-framed iv auth_tag plain_text encrypted h)
      ∙ rw (laws.from_hex-to_hex iv, decrypt_parts)
          (rw (laws.from_hex-to_hex auth_tag)
            (laws.decipher-cipher (key crypto encryption_key) iv plain_text encrypted auth_tag h))

  -- A text that is encrypted, with any random IV, is given back by decryption with the same setting.
  pub decrypt-encrypt :
      (iv : B) (plain_text cipher_text : String)
      → encrypt crypto encryption_key iv plain_text ≡ some cipher_text
      → decrypt crypto encryption_key cipher_text ≡ some plain_text
  unfolding encrypt
  decrypt-encrypt iv plain_text cipher_text e =
      decrypt-framed iv plain_text (crypto.cipher (key crypto encryption_key) iv plain_text)
        cipher_text refl e
