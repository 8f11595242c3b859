-- ===== src/Auth/Tests/Memory/Cases.antt =====
-- One user and one session at concrete inputs, and what src/auth/auth.service.ts makes of them.
use nestjs_vibe_engine.Prelude.{
  ◌≤◌, String, ◌≡◌, ◌≢◌, refl, ◌↔◌, eq_iff, ◌==◌, true, false, ◌&&◌, none, some, [], ◌∷◌, arith,
}
use nestjs_vibe_engine.Js.Map
use nestjs_vibe_engine.Js.Map.{TextMap}
use nestjs_vibe_engine.Exec.{World, ok, err, http}
use nestjs_vibe_engine.Auth.Deps.{UserSession, Deps}
use nestjs_vibe_engine.Auth.Deps.Laws.{is_active}
use nestjs_vibe_engine.Auth.Tokens.{constant_time_compare, generate_tokens, refresh_claims}
use nestjs_vibe_engine.Auth.Sessions.Effects.{is_active_of}
use nestjs_vibe_engine.Auth.Service.{
  GoogleProfile, AuthResponse, Tokens, SessionInfo, refresh_tokens, refresh_session,
  handle_google_login, validate_session, logout, find_or_create_user,
}
use nestjs_vibe_engine.Auth.Service.Refresh.{IsAdmitted}
use nestjs_vibe_engine.Auth.Service.Rotation.{reuse_detected, next_refresh_succeeds}
use nestjs_vibe_engine.Auth.Service.Concurrent.{pair, concurrent_refreshes}
use nestjs_vibe_engine.Auth.Service.Logout.{logout_all, logout_single}
use nestjs_vibe_engine.Auth.Service.Validate.{validate_uncached}
use nestjs_vibe_engine.Auth.Service.Login.{login_limits}
use nestjs_vibe_engine.Auth.Tests.Memory.{Table, prisma, prisma_laws, sessions, ann, unary}
use nestjs_vibe_engine.Auth.Tests.Library.{cache, jwt, jwt_laws, json}
use nestjs_vibe_engine.Js.Text.{trim, trim_start, trim_end, is_space, strip_prefix, split}
use nestjs_vibe_engine.Socket.AuthAdapter
use nestjs_vibe_engine.Socket.AuthGuard
use nestjs_vibe_engine.Socket.AuthAdapter.{authenticate, accepted, rejected, claim}
use nestjs_vibe_engine.Socket.AuthGuard.{allowed, token_of_parts}
use nestjs_vibe_engine.Socket.Admission.{checks_disagree}

abbrev pub deps : Deps Table (TextMap String)
deps = record {
  prisma = prisma;
  cache = some cache;
  jwt = jwt;
  json = json;
  sha256_hash = λ s. s;
  max_devices_per_user = 1;
}

abbrev pub deps_uncached : Deps Table (TextMap String)
deps_uncached = record deps { cache = none }

abbrev pub old_token : String
old_token = jwt.sign 1000 (refresh_claims "ann" "" "old") 2592000

abbrev pub session : UserSession
session = record {
  id = "";
  user_id = "ann";
  refresh_token = old_token;
  is_valid = true;
  deleted_at = none;
  expires_at = 2000000;
}

abbrev world : World Table (TextMap String)
world = record { db = session ∷ []; cache = [] }

admitted : IsAdmitted deps prisma_laws 5000 old_token "ann" "" session world
unfolding prisma_laws sessions unary jwt Map.get
admitted = record {
  payload = refresh_claims "ann" "" "old";
  verified = jwt_laws.verify_sign 1000 5000 (refresh_claims "ann" "" "old") 2592000 (omega arith);
  of_user = refl;
  of_session = refl;
  row = refl;
  valid = refl;
  unexpired = refl;
}

same_hash : constant_time_compare (deps.sha256_hash old_token) session.refresh_token ≡ true
unfolding constant_time_compare jwt
same_hash = refl

again : deps.jwt.verify 7000 old_token ≡ deps.jwt.verify 5000 old_token
unfolding jwt
again = refl

new_token_differs :
    deps.sha256_hash old_token
    ≢ deps.sha256_hash (generate_tokens deps 5000 "a" "ann" "").refresh_token
unfolding generate_tokens jwt
new_token_differs e =
    cc ((eq_iff old_token (generate_tokens deps 5000 "a" "ann" "").refresh_token).1 e)

reuse_detected_example :
    (refresh_tokens deps 7000 "b" old_token (refresh_tokens deps 5000 "a" old_token world).1).0
    ≡ err (http 401 "Token reuse detected. All sessions have been invalidated for security.")
reuse_detected_example =
    (reuse_detected deps prisma_laws 5000 7000 "a" "b" old_token "ann" "" session world admitted
      same_hash again refl new_token_differs).0

concurrent_tokens_differ :
    deps.sha256_hash (generate_tokens deps 5000 "a" "ann" "").refresh_token
    ≢ deps.sha256_hash (generate_tokens deps 5001 "b" "ann" "").refresh_token
unfolding generate_tokens jwt
concurrent_tokens_differ e = cc (
    (eq_iff (generate_tokens deps 5000 "a" "ann" "").refresh_token
        (generate_tokens deps 5001 "b" "ann" "").refresh_token).1
      e)

concurrent_refreshes_example :
    (refresh_tokens deps 7000 "c"
      (pair deps prisma_laws 5000 "a" "ann" session).refresh_token
      (refresh_session deps 5001 "b" "ann" old_token
        (some session)
        (refresh_session deps 5000 "a" "ann" old_token (some session) world).1).1).0
    ≡ err (http 401 "Token reuse detected. All sessions have been invalidated for security.")
concurrent_refreshes_example =
    (concurrent_refreshes deps prisma_laws jwt_laws 5000 5001 7000 "a" "b" "c" old_token "ann"
      session world admitted same_hash refl refl (omega arith) concurrent_tokens_differ).2

next_refresh_succeeds_example :
    (r r' : Tokens) × ((refresh_tokens deps 5000 "a" old_token world).0 ≡ ok r)
    × ((refresh_tokens deps 7000 "b" r.refresh_token
          (refresh_tokens deps 5000 "a" old_token world).1).0
        ≡ ok r')
next_refresh_succeeds_example =
    next_refresh_succeeds deps prisma_laws jwt_laws 5000 7000 "a" "b" old_token "ann" "" session
      world admitted same_hash (omega arith) (omega arith)

logout_all_example :
    is_active_of "ann" (prisma_laws.sessions (logout deps "ann" "" true world).1.db "") ≡ false
logout_all_example = (logout_all deps prisma_laws "ann" "" world).1 "ann" ""

logout_single_example :
    prisma_laws.sessions (logout deps "ann" "" false world).1.db ""
    ≡ some (record session { is_valid = false })
unfolding prisma_laws sessions unary
logout_single_example = (logout_single deps prisma_laws "ann" "" world).1 ""

validate_uncached_example :
    ((info : SessionInfo) × ((validate_session deps_uncached 5000 "ann" "" world).0
        ≡ ok (some info)))
    ↔ ((s : UserSession) × (prisma_laws.sessions world.db "" ≡ some s)
        × ((s.user_id == "ann" && is_active s) ≡ true)
        × (5000 ≤ s.expires_at))
validate_uncached_example = validate_uncached deps_uncached refl prisma_laws 5000 "ann" "" world

abbrev profile : GoogleProfile
profile = record {
  google_id = "g-ann";
  email = "ann@example.org";
  name = "Ann";
  picture = some "p";
}

known : find_or_create_user deps profile world ≡ (ok (ann, false), world)
unfolding find_or_create_user prisma
known = refl

login_limits_example :
    (r : AuthResponse) × ((handle_google_login deps 1000 "n" profile world).0 ≡ ok r)
    × (r.user_id ≡ "ann")
    × (r.is_new_user ≡ false)
login_limits_example =
    (login_limits deps prisma_laws 1000 "n" profile ann false world world known).0

abbrev access_token : String
access_token = (generate_tokens deps 1000 "n" "ann" "s1").access_token

adapter_reads_it : AuthAdapter.extract_token access_token ≡ access_token
unfolding AuthAdapter.extract_token generate_tokens jwt trim trim_start trim_end is_space
    strip_prefix
adapter_reads_it = refl

guard_reads_it : AuthGuard.extract_token access_token ≡ some access_token
unfolding AuthGuard.extract_token generate_tokens jwt split token_of_parts
guard_reads_it = refl

not_empty : (access_token == "") ≡ false
unfolding generate_tokens jwt
not_empty = refl

checks_disagree_example :
    (AuthGuard.can_activate jwt 5000 (some access_token) ≡ allowed "ann" "s1")
    × (authenticate jwt 5000 (some access_token) ≡ rejected "AUTH_001" "Invalid token payload")
checks_disagree_example =
    checks_disagree deps jwt_laws 1000 5000 "n" "ann" "s1" access_token adapter_reads_it
      guard_reads_it not_empty not_empty refl refl (omega arith)
