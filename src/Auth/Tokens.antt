-- ===== src/Auth/Tokens.antt =====
-- src/auth/auth.service.ts: the constants and `generateTokens`; src/common/utils.ts:
-- `constantTimeCompare`. `timingSafeEqual` on texts of one length is their equality.
use Prim.Native.String.{count}
use nestjs_vibe_engine.Prelude.{ℕ, String, Bool, false, [], ◌∷◌, ◌==◌, nat_eq, if◌then◌else◌}
use nestjs_vibe_engine.Auth.Deps.{Claims, Deps}

abbrev pub access_token_expires_in_seconds : ℕ
access_token_expires_in_seconds = 3600

abbrev pub refresh_token_expires_in_seconds : ℕ
refresh_token_expires_in_seconds = 2592000

abbrev pub user_info_cache_ttl : ℕ
user_info_cache_ttl = 3600

unfoldable pub constant_time_compare : String → String → Bool
constant_time_compare a b = if nat_eq (count a) (count b) then a == b else false

pub record GeneratedTokens : Type 0 where
  pub access_token : String
  pub refresh_token : String
  pub token_id : String

abbrev pub access_claims : String → String → Claims
access_claims user_id session_id = ("userId", user_id) ∷ ("sessionId", session_id) ∷ []

abbrev pub refresh_claims : String → String → String → Claims
refresh_claims user_id session_id token_id =
    ("userId", user_id) ∷ ("sessionId", session_id) ∷ ("tokenId", token_id) ∷ []

-- `token_id` is what `generateSecureRandomString(32)` gives, `now` the time of signing.
unfoldable pub generate_tokens :
    {D C : Type 0} (deps : Deps D C) → ℕ → String → String → String → GeneratedTokens
generate_tokens deps now token_id user_id session_id = record {
  access_token =
      deps.jwt.sign now (access_claims user_id session_id) access_token_expires_in_seconds;
  refresh_token =
      deps.jwt.sign now (refresh_claims user_id session_id token_id)
        refresh_token_expires_in_seconds;
  token_id = token_id;
}
