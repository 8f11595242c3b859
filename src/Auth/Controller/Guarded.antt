-- ===== src/Auth/Controller/Guarded.antt =====
-- What the guards of src/auth/auth.controller.ts admit, before and after a logout.
use nestjs_vibe_engine.Prelude.{
  ℕ, ◌+◌, ◌/◌, ◌<◌, ◌≤◌, String, ◌≡◌, refl, sym, ap, ◌∙◌, subst, Bool, true, false, ◌||◌, ◌&&◌,
  eq_refl, Option, none, some, ◌==◌, Option-cases, inl, inr, ◌⊎◌,
}
use nestjs_vibe_engine.Js.Map
use nestjs_vibe_engine.Exec.{World, Result, Exception, ok, err, http, >>=-eq-ok, continue}
use nestjs_vibe_engine.Auth.Deps.{Claims, Deps, UserSession}
use nestjs_vibe_engine.Auth.Deps.Laws.{PrismaLaws, JwtLaws, is_active, apply_update}
use nestjs_vibe_engine.Auth.Tokens.{
  generate_tokens, refresh_claims, refresh_token_expires_in_seconds,
}
use nestjs_vibe_engine.Auth.Service.{SessionInfo, LogoutResponse, text_or_empty}
use nestjs_vibe_engine.Auth.Service as Service
use nestjs_vibe_engine.Auth.Service.Logout.{logout_single}
use nestjs_vibe_engine.Auth.Service.Validate.{
  validate_session-session, validate_closed, validate_open, is_open,
}
use nestjs_vibe_engine.Auth.Sessions.{invalidated}
use nestjs_vibe_engine.Http.TokenGuard.{RequestUser, can_activate, can_activate-eq-ok, admit}
use nestjs_vibe_engine.Auth.Controller.{
  BearerOf, validate_payload, verified_user, verified_token, jwt_auth_guard, guards, logout,
  or_false,
}

verified_user-eq-ok :
    {S : Type 0} (claims : Option Claims) (w : S) (user : RequestUser)
    → (verified_user claims w).0 ≡ ok user
    → (payload : Claims) × (claims ≡ some payload) × (user ≡ validate_payload payload)
verified_user-eq-ok none w user h = absurd (cc)
verified_user-eq-ok (some payload) w user h = (payload, refl, cc)

refused_not_ok {ℓ} : {A : Type ℓ} {r : Result A} {e : Exception} {a : A} → r ≡ err e → r ≡ ok a → ⊥
refused_not_ok p q = cc

module _ {D C : Type 0} (deps : Deps D C) where
  -- A token that the JWT guard admits has the claims that it was verified with.
  verified_token-eq-ok :
      (now : ℕ) (given : Option String) (w : World D C) (user : RequestUser)
      → (verified_token deps now given w).0 ≡ ok user
      → (token : String) × (payload : Claims) × (given ≡ some token)
        × (deps.jwt.verify now token ≡ some payload)
        × (user ≡ validate_payload payload)
  verified_token-eq-ok now none w user h = absurd (cc)
  verified_token-eq-ok now (some token) w user h =
      let (payload, verified, same) = verified_user-eq-ok (deps.jwt.verify now token) w user h in
      (token, payload, refl, verified, same)

  -- With claims that were admitted once, the JWT guard admits the same user or refuses the token.
  verified_again :
      (later : ℕ) (token : String) (payload : Claims) (w : World D C)
      → ((again : Claims) → deps.jwt.verify later token ≡ some again → again ≡ payload)
      → (verified_token deps later (some token) w ≡ (err (http 401 "Unauthorized"), w))
        ⊎ (verified_token deps later (some token) w ≡ (ok (validate_payload payload), w))
  verified_again later token payload w same = elim (Option-cases (deps.jwt.verify later token)) [
    | inl e ↦ inl (rw e refl)
    | inr (again, e) ↦ inr (rw e (rw (same again e) refl))
  ]

  -- The guard refuses a session whose row is not open.
  closed_refused :
      (absent : deps.cache ≡ none) (laws : PrismaLaws deps.prisma) (later : ℕ) (user : RequestUser)
      (w : World D C)
      → (user.user_id == "" || user.session_id == "") ≡ false
      → is_open (laws.sessions w.db user.session_id) ≡ false
      → (can_activate deps later (some user) w).0 ≡ err (http 401 "Session has been invalidated")
  unfolding can_activate
  closed_refused absent laws later user w given h = rw given (
      ap (λ r. (continue r.0 (admit deps) r.1).0)
        (validate_closed deps absent laws later user.user_id user.session_id w h))

  -- A logout that was answered has found the row and made it invalid.
  logout_closes :
      (laws : PrismaLaws deps.prisma) (u session_id : String) (w : World D C)
      (answer : LogoutResponse)
      → (Service.logout deps u session_id false w).0 ≡ ok answer
      → (s : UserSession) × (laws.sessions
            (Service.logout deps u session_id false w).1.db
            session_id
          ≡ some s)
        × (is_active s ≡ false)
  logout_closes laws u session_id w answer h = elim (Option-cases (laws.sessions w.db session_id)) [
    | inl e ↦ absurd (refused_not_ok (rw e at (logout_single deps laws u session_id w).0) h)
    | inr (s, e) ↦ (
      apply_update invalidated s,
      (logout_single deps laws u session_id w).1 session_id ∙ rw (eq_refl session_id, e) refl,
      refl,
    )
  ]

-- The claims of a token do not depend on the time at which it is verified.
abbrev pub HasFixedClaims : {D C : Type 0} → Deps D C → Type 0
HasFixedClaims deps =
    (t t' : ℕ) (token : String) (c c' : Claims)
    → deps.jwt.verify t token ≡ some c
    → deps.jwt.verify t' token ≡ some c'
    → c' ≡ c

module _ {D C : Type 0} (bearer_of : BearerOf) (deps : Deps D C) where
  guards_refuse :
      (later : ℕ) (header : Option String) (w : World D C) (token : String) (payload : Claims)
      → bearer_of header ≡ some token
      → ((again : Claims) → deps.jwt.verify later token ≡ some again → again ≡ payload)
      → (can_activate deps later (some (validate_payload payload)) w).0
        ≡ err (http 401 "Session has been invalidated")
      → (message : String) × ((guards bearer_of deps later header w).0 ≡ err (http 401 message))
  unfolding guards jwt_auth_guard
  guards_refuse later header w token payload given fixed refused =
      elim (verified_again deps later token payload w fixed) [
        | inl e ↦ ("Unauthorized", rw given (rw e refl))
        | inr e ↦ ("Session has been invalidated", rw given (rw e refused))
      ]

  -- As the program is started, without a cache: once a request to log out from the current device is
  -- answered, the guards refuse every later request with the same header with status 401, in every
  -- world in which no session has become active again that was inactive behind the logout.
  pub header_refused_after_logout :
      (absent : deps.cache ≡ none) (laws : PrismaLaws deps.prisma)
      → HasFixedClaims deps
      → (now later : ℕ) (header : Option String) (all_devices : Option Bool) (w w' : World D C)
        (answer : LogoutResponse)
      → or_false all_devices ≡ false
      → (logout bearer_of deps now header all_devices w).0 ≡ ok answer
      → ((id : String) (s : UserSession)
          → laws.sessions (logout bearer_of deps now header all_devices w).1.db id ≡ some s
          → is_active s ≡ false
          → is_open (laws.sessions w'.db id) ≡ false)
      → (message : String) × ((guards bearer_of deps later header w').0 ≡ err (http 401 message))
  unfolding logout guards jwt_auth_guard
  header_refused_after_logout absent laws fixed now later header all_devices w w' answer single h
        stay_closed =
      let (info, g, run, done) =
        >>=-eq-ok (guards bearer_of deps now header)
          (λ user. Service.logout deps user.user_id user.session_id (or_false all_devices)) w answer
          h in
      let (user, admitted, _, activated) =
        >>=-eq-ok (jwt_auth_guard bearer_of deps now header)
          (λ user. can_activate deps now (some user)) w info g in
      let (token, payload, given, verified, same) =
        verified_token-eq-ok deps now (bearer_of header) w user admitted in
      let (given_both, accepted) = can_activate-eq-ok deps now user _ info activated in
      let session =
        validate_session-session deps absent laws now user.user_id user.session_id _ info
          accepted in
      let w1 = (guards bearer_of deps now header w).1 in
      let called =
        ap (λ id. Service.logout deps info.user_id id (or_false all_devices) w1) session
        ∙ ap (λ b. Service.logout deps info.user_id user.session_id b w1) single in
      let (s, row, inactive) =
        logout_closes deps laws info.user_id user.session_id w1 answer
          (ap (λ r. r.0) (sym called) ∙ done) in
      let refused = closed_refused deps absent laws later user w' given_both (
        stay_closed user.session_id s
          (ap (λ r. laws.sessions r.1.db user.session_id) (run ∙ called) ∙ row) inactive) in
      guards_refuse later header w' token payload given
        (λ again e. fixed now later token payload again verified e)
        (subst
          (λ (u : RequestUser).
            (can_activate deps later (some u) w').0 ≡ err (http 401 "Session has been invalidated"))
          same refused)

  -- A refresh token opens what an access token is for: without a cache, until the second that is thirty
  -- days after its signature, the guards admit a header with the refresh token of a pair as the pair's
  -- user and session, neither of them empty, while the session's row is the user's, active and not
  -- expired.
  pub refresh_token_as_bearer :
      (absent : deps.cache ≡ none) (laws : PrismaLaws deps.prisma) (jwt_laws : JwtLaws deps.jwt)
      (now later : ℕ) (token_id user_id session_id : String) (header : Option String)
      (w : World D C) (s : UserSession)
      → bearer_of header ≡ some (generate_tokens deps now token_id user_id session_id).refresh_token
      → later / 1000 < now / 1000 + refresh_token_expires_in_seconds
      → (user_id == "" || session_id == "") ≡ false
      → laws.sessions w.db session_id ≡ some s
      → (s.user_id == user_id && is_active s) ≡ true
      → later ≤ s.expires_at
      → (info : SessionInfo) × ((guards bearer_of deps later header w).0 ≡ ok info)
        × (info.user_id ≡ user_id)
        × (info.session_id ≡ session_id)
  unfolding guards jwt_auth_guard generate_tokens validate_payload Map.get can_activate
  refresh_token_as_bearer absent laws jwt_laws now later token_id user_id session_id header w s
        given intime both row own live =
      let (info, accepted, of_user, of_session) =
        validate_open deps absent laws later user_id session_id w s row own live in
      (
        info,
        rw given (
            rw
              (jwt_laws.verify_sign now later (refresh_claims user_id session_id token_id)
                refresh_token_expires_in_seconds intime)
              (rw both (rw accepted refl))),
        of_user,
        of_session,
      )
