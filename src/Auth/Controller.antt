-- ===== src/Auth/Controller.antt =====
-- src/auth/auth.controller.ts behind its guards: src/common/guards/jwt-auth.guard.ts with
-- src/auth/strategies/jwt.strategy.ts, src/auth/strategies/google.strategy.ts and
-- src/auth/guards/token-validation.guard.ts. An answer is its body; log output is left out.
pub mod Guarded
use nestjs_vibe_engine.Prelude.{
  ℕ, String, Bool, true, false, Option, none, some, List, [], ◌∷◌, ◌==◌, if◌then◌else◌,
}
use nestjs_vibe_engine.Js.Map
use nestjs_vibe_engine.Js.Text.{before}
use nestjs_vibe_engine.Exec.{Exec, World, pure, throw, http, failure, ◌>>=◌}
use nestjs_vibe_engine.Auth.Deps.{Claims, Jwt, Deps}
use nestjs_vibe_engine.Auth.Service.{
  GoogleProfile, Tokens, AuthResponse, SessionInfo, LogoutResponse, handle_google_login,
  text_or_empty,
}
use nestjs_vibe_engine.Auth.Service as Service
use nestjs_vibe_engine.Http.TokenGuard.{RequestUser, can_activate}

-- ExtractJwt.fromAuthHeaderAsBearerToken of passport-jwt, on the header Authorization.
abbrev pub BearerOf : Type 0
BearerOf = Option String → Option String

-- A claim that is missing is undefined, which the guards treat as they treat an empty text.
unfoldable pub validate_payload : Claims → RequestUser
validate_payload payload = record {
  user_id = text_or_empty (Map.get payload "userId");
  session_id = text_or_empty (Map.get payload "sessionId");
}

-- The value of `verified` in an entry of `emails`.
pub data Verified : Type 0 where
  flag : Bool → Verified
  text : String → Verified
  missing : Verified

pub record ProfileEmail : Type 0 where
  pub value : String
  pub verified : Verified

-- What is read of the profile of passport-google-oauth20; none: undefined.
pub record PassportProfile : Type 0 where
  pub id : String
  pub display_name : String
  pub emails : Option (List ProfileEmail)
  pub photos : Option (List String)

-- The fields of GoogleProfile that AuthService reads, and the two that it does not.
pub record CheckedProfile : Type 0 where
  pub profile : GoogleProfile
  pub email_verified : Bool
  pub access_token : String

abbrev pub is_verified : Verified → Bool
is_verified (flag b) = b
is_verified (text t) = t == "true"
is_verified missing = false

abbrev pub first_photo : Option (List String) → Option String
first_photo none = none
first_photo (some []) = none
first_photo (some (url ∷ urls)) = some url

-- profile.displayName || emails[0].value.split('@')[0]
abbrev pub name_or_local_part : String → String → String
name_or_local_part display_name email =
    if display_name == "" then before "@" email else display_name

abbrev pub checked_profile : String → PassportProfile → ProfileEmail → CheckedProfile
checked_profile access_token profile email = record {
  profile = record {
    google_id = profile.id;
    email = email.value;
    name = name_or_local_part profile.display_name email.value;
    picture = first_photo profile.photos;
  };
  email_verified = is_verified email.verified;
  access_token = access_token;
}

abbrev pub no_email : {S A : Type 0} → Exec S A
no_email = throw (failure "Google profile does not contain email")

abbrev pub validate_emails :
    {S : Type 0} → String → PassportProfile → Option (List ProfileEmail) → Exec S CheckedProfile
validate_emails access_token profile none = no_email
validate_emails access_token profile (some []) = no_email
validate_emails access_token profile (some (email ∷ emails)) =
    pure (checked_profile access_token profile email)

-- What `done` is called with.
unfoldable pub validate_google : {S : Type 0} → String → PassportProfile → Exec S CheckedProfile
validate_google access_token profile = validate_emails access_token profile profile.emails

abbrev pub or_false : Option Bool → Bool
or_false none = false
or_false (some b) = b

module _ {S : Type 0} where
  abbrev pub verified_user : Option Claims → Exec S RequestUser
  verified_user none = throw (http 401 "Unauthorized")
  verified_user (some payload) = pure (validate_payload payload)

module _ {D C : Type 0} (deps : Deps D C) where
  -- passport-jwt verifies the bearer token with `jwt.secret`, as JwtService does.
  abbrev pub verified_token : ℕ → Option String → Exec (World D C) RequestUser
  verified_token now none = throw (http 401 "Unauthorized")
  verified_token now (some token) = verified_user (deps.jwt.verify now token)

module _ {D C : Type 0} (bearer_of : BearerOf) (deps : Deps D C) where
  unfoldable pub jwt_auth_guard : ℕ → Option String → Exec (World D C) RequestUser
  jwt_auth_guard now header = verified_token deps now (bearer_of header)

  -- @UseGuards(JwtAuthGuard, TokenValidationGuard): what `req.user` is behind them.
  unfoldable pub guards : ℕ → Option String → Exec (World D C) SessionInfo
  guards now header = jwt_auth_guard now header >>= λ user. can_activate deps now (some user)

  unfoldable pub logout : ℕ → Option String → Option Bool → Exec (World D C) LogoutResponse
  logout now header all_devices = guards now header >>= λ user.
      Service.logout deps user.user_id user.session_id (or_false all_devices)

module _ {D C : Type 0} (deps : Deps D C) where
  unfoldable pub google_callback :
      ℕ → String → String → PassportProfile → Exec (World D C) AuthResponse
  google_callback now token_id access_token profile =
      validate_google access_token profile >>= λ checked.
      handle_google_login deps now token_id checked.profile

  unfoldable pub refresh_tokens : ℕ → String → String → Exec (World D C) Tokens
  refresh_tokens now token_id refresh_token = Service.refresh_tokens deps now token_id refresh_token
