-- ===== src/Auth/Tests/Memory/Endpoints.antt =====
-- Requests to the endpoints of src/auth/auth.controller.ts at concrete inputs.
use nestjs_vibe_engine.Prelude.{String, ◌≡◌, refl, Option, none, some, true, [], ◌∷◌, arith}
use nestjs_vibe_engine.Js.Map
use nestjs_vibe_engine.Js.Map.{TextMap}
use nestjs_vibe_engine.Js.Text.{◌⧺◌, key, strip_prefix, before}
use nestjs_vibe_engine.Exec.{World, ok, err, http}
use nestjs_vibe_engine.Auth.Tokens.{generate_tokens}
use nestjs_vibe_engine.Auth.Sessions.{
  is_session_invalidated_in_cache, get_cached_user_info, cache_user_info, invalidate_single_session,
  mark_session_invalid_in_cache, clear_cached_user_info,
}
use nestjs_vibe_engine.Auth.Service.{SessionInfo, validate_session, validate_in_db, validate_owned}
use nestjs_vibe_engine.Auth.Service as Service
use nestjs_vibe_engine.Auth.Controller.{
  BearerOf, PassportProfile, text, validate_google, validate_payload, jwt_auth_guard, guards,
  logout,
}
use nestjs_vibe_engine.Auth.Controller.Guarded.{
  HasFixedClaims, header_refused_after_logout, refresh_token_as_bearer,
}
use nestjs_vibe_engine.Http.TokenGuard.{can_activate}
use nestjs_vibe_engine.Auth.Tests.Memory.{Table, prisma, prisma_laws, sessions, unary}
use nestjs_vibe_engine.Auth.Tests.Memory.Cases.{deps, deps_uncached, session}
use nestjs_vibe_engine.Auth.Tests.Library.{cache, jwt, jwt_laws}

abbrev bearer_of : BearerOf
bearer_of none = none
bearer_of (some header) = strip_prefix "Bearer " header

abbrev header : Option String
header = some ("Bearer " ⧺ (generate_tokens deps 1000 "n" "ann" "x").access_token)

abbrev refresh_header : Option String
refresh_header = some ("Bearer " ⧺ (generate_tokens deps 1000 "n" "ann" "x").refresh_token)

abbrev two_sessions : World Table (TextMap String)
two_sessions = record { db = session ∷ session ∷ []; cache = [] }

logged_out :
    (logout bearer_of deps_uncached 5000 header none two_sessions).0
    ≡ ok (record { message = "Session has been invalidated"; sessions_invalidated = 1 })
unfolding logout guards jwt_auth_guard can_activate validate_payload validate_session validate_in_db
    validate_owned is_session_invalidated_in_cache get_cached_user_info cache_user_info
    invalidate_single_session mark_session_invalid_in_cache clear_cached_user_info Service.logout
    prisma jwt cache generate_tokens strip_prefix Map.get Map.set Map.delete key
logged_out = refl

fixed_claims : HasFixedClaims deps_uncached
unfolding jwt
fixed_claims t t' token c c' p q = cc

header_refused_after_logout_example :
    (message : String) × ((guards bearer_of deps_uncached 9000 header
        (logout bearer_of deps_uncached 5000 header none two_sessions).1).0
      ≡ err (http 401 message))
header_refused_after_logout_example =
    header_refused_after_logout bearer_of deps_uncached refl prisma_laws fixed_claims 5000 9000
      header none two_sessions (logout bearer_of deps_uncached 5000 header none two_sessions).1
      (record { message = "Session has been invalidated"; sessions_invalidated = 1 }) refl
      logged_out (λ id s row inactive. rw row inactive)

refresh_header_read :
    bearer_of refresh_header ≡ some (generate_tokens deps 1000 "n" "ann" "x").refresh_token
unfolding generate_tokens jwt strip_prefix
refresh_header_read = refl

row_there : prisma_laws.sessions two_sessions.db "x" ≡ some (record session { id = "x" })
unfolding prisma_laws sessions unary
row_there = refl

refresh_token_as_bearer_example :
    (info : SessionInfo) × ((guards bearer_of deps_uncached 1900000 refresh_header two_sessions).0
      ≡ ok info)
    × (info.user_id ≡ "ann")
    × (info.session_id ≡ "x")
unfolding generate_tokens
refresh_token_as_bearer_example =
    refresh_token_as_bearer bearer_of deps_uncached refl prisma_laws jwt_laws 1000 1900000 "n" "ann"
      "x" refresh_header two_sessions (record session { id = "x" }) refresh_header_read
      (omega arith) refl row_there refl (omega arith)

abbrev ann_profile : PassportProfile
ann_profile = record {
  id = "g-ann";
  display_name = "";
  emails = some (record { value = "ann@example.org"; verified = text "true" } ∷ []);
  photos = some [];
}

ann_validated : validate_google "t" ann_profile two_sessions ≡ (
  ok (record {
    profile = record {
      google_id = "g-ann";
      email = "ann@example.org";
      name = "ann";
      picture = none;
    };
    email_verified = true;
    access_token = "t";
  }),
  two_sessions,
)
unfolding validate_google before
ann_validated = refl
