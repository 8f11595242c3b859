-- ===== src/Encryption.antt =====
-- src/core/encryption/encryption.service.ts over Node's crypto library, which is a parameter: `B` is
-- what buffers are. A key has no character beyond U+FFFF, so that characters are code units.
pub mod RoundTrip
mod Tests
use nestjs_vibe_engine.Prelude.{ℕ, zero, suc, String, ◌≡◌, true, Option, none, some, List, [], ◌∷◌}
use nestjs_vibe_engine.Js.Text.{◌⧺◌, split}
use nestjs_vibe_engine.Js.Cut.{all_codes, lacks}

-- AES-256-GCM, and what is used of buffers; none where the library throws.
pub record Crypto (B : Type 0) : Type 0 where
  pub buffer_of : String → B
  pub to_hex : B → String
  pub from_hex : String → B
  -- the cipher's text in hexadecimal digits, and the authentication tag
  pub cipher : (key iv : B) → String → Option (String × B)
  pub decipher : (key iv auth_tag : B) → String → Option String
  -- the SHA-256 of a text in hexadecimal digits
  pub sha256_hex : String → String

-- Documented behaviour: hexadecimal digits give a buffer back and have no colon, and a decipher with
-- the same key, IV and tag undoes a cipher.
pub record CryptoLaws {B : Type 0} (crypto : Crypto B) : Type 0 where
  pub from_hex-to_hex : (b : B) → crypto.from_hex (crypto.to_hex b) ≡ b
  pub to_hex_digits : (b : B) → all_codes (lacks ":") (crypto.to_hex b) ≡ true
  pub cipher_digits :
      (key iv : B) (plain encrypted : String) (auth_tag : B)
      → crypto.cipher key iv plain ≡ some (encrypted, auth_tag)
      → all_codes (lacks ":") encrypted ≡ true
  pub decipher-cipher :
      (key iv : B) (plain encrypted : String) (auth_tag : B)
      → crypto.cipher key iv plain ≡ some (encrypted, auth_tag)
      → crypto.decipher key iv auth_tag encrypted ≡ some plain

-- s.padEnd(n, '0').slice(0, n)
unfoldable pub pad_key : ℕ → String → String
pad_key zero s = ""
pad_key (suc n) String.[] = String.◌∷◌ "0" (pad_key n "")
pad_key (suc n) (String.◌∷◌ c s) = String.◌∷◌ c (pad_key n s)

-- configService.get('ENCRYPTION_KEY') || ''
abbrev pub key_text : Option String → String
key_text none = ""
key_text (some s) = s

module _ {B : Type 0} (crypto : Crypto B) (encryption_key : Option String) where
  unfoldable pub key : B
  key = crypto.buffer_of (pad_key 32 (key_text encryption_key))

  abbrev pub framed : B → Option (String × B) → Option String
  framed iv none = none
  framed iv (some (encrypted, auth_tag)) =
      some (crypto.to_hex iv ⧺ (":" ⧺ (crypto.to_hex auth_tag ⧺ (":" ⧺ encrypted))))

  -- `iv` is what crypto.randomBytes(16) gives.
  unfoldable pub encrypt : B → String → Option String
  encrypt iv plain_text = framed iv (crypto.cipher key iv plain_text)

  -- A part that is missing is undefined, which the library refuses.
  abbrev pub decrypt_parts : List String → Option String
  decrypt_parts (iv_hex ∷ auth_tag_hex ∷ encrypted ∷ rest) =
      crypto.decipher key (crypto.from_hex iv_hex) (crypto.from_hex auth_tag_hex) encrypted
  decrypt_parts (iv_hex ∷ auth_tag_hex ∷ []) = none
  decrypt_parts (iv_hex ∷ []) = none
  decrypt_parts [] = none

  unfoldable pub decrypt : String → Option String
  decrypt cipher_text = decrypt_parts (split ":" cipher_text)

  unfoldable pub hash_for_search : String → String
  hash_for_search plain_text = crypto.sha256_hex plain_text
