-- ===== src/Socket/Admission.antt =====
-- The tokens of src/auth/auth.service.ts at the two checks of sockets.
use nestjs_vibe_engine.Prelude.{
  ℕ, ◌+◌, ◌/◌, ◌<◌, String, ◌≡◌, refl, false, some, ◌==◌, ◌↔◌, arith, Bool-cases, Option-cases, inl,
  inr,
}
use nestjs_vibe_engine.Js.Map
use nestjs_vibe_engine.Auth.Deps.{Deps, Jwt, Claims}
use nestjs_vibe_engine.Auth.Deps.Laws.{JwtLaws}
use nestjs_vibe_engine.Auth.Tokens.{generate_tokens, access_claims, access_token_expires_in_seconds}
use nestjs_vibe_engine.Socket.AuthAdapter
use nestjs_vibe_engine.Socket.AuthAdapter.{authenticate, check_claims, claim, accepted, rejected}
use nestjs_vibe_engine.Socket.AuthGuard
use nestjs_vibe_engine.Socket.AuthGuard.{can_activate, verify_token, check_payload, allowed}

-- The two checks disagree on the access tokens that the service issues: until the second that is an
-- hour after the signature the guard
-- accepts such a token as its user's and its session's, while the adapter rejects it with AUTH_001,
-- because the service writes `userId` and the adapter reads `sub`.
pub checks_disagree :
    {D C : Type 0} (deps : Deps D C) (laws : JwtLaws deps.jwt) (now later : ℕ)
    (token_id user_id session_id raw : String)
    → AuthAdapter.extract_token raw
      ≡ (generate_tokens deps now token_id user_id session_id).access_token
    → AuthGuard.extract_token raw
      ≡ some (generate_tokens deps now token_id user_id session_id).access_token
    → ((generate_tokens deps now token_id user_id session_id).access_token == "") ≡ false
    → (raw == "") ≡ false
    → (user_id == "") ≡ false
    → (session_id == "") ≡ false
    → later / 1000 < now / 1000 + access_token_expires_in_seconds
    → (can_activate deps.jwt later (some raw) ≡ allowed user_id session_id)
      × (authenticate deps.jwt later (some raw) ≡ rejected "AUTH_001" "Invalid token payload")
unfolding generate_tokens can_activate verify_token check_payload authenticate check_claims claim
    Map.get
checks_disagree deps laws now later token_id user_id session_id raw a g t r u s intime =
    let verified =
      laws.verify_sign now later (access_claims user_id session_id) access_token_expires_in_seconds
        intime in
    (rw r (rw g (rw t (rw verified (ground (arith, u, s))))), rw r (rw a (rw verified refl)))

-- The adapter accepts a handshake as a user's and a session's exactly if it has a token that is not
-- empty and verifies, and whose claims `sub` and `sessionId` are these two and not empty.
pub authenticate-accepted_iff :
    (jwt : Jwt) (now : ℕ) (raw user_id session_id : String)
    → (authenticate jwt now (some raw) ≡ accepted user_id session_id) ↔ (
        ((raw == "") ≡ false)
        × (payload : Claims) × (jwt.verify now (AuthAdapter.extract_token raw) ≡ some payload)
        × (claim payload "sub" ≡ some user_id)
        × (claim payload "sessionId" ≡ some session_id))
unfolding authenticate check_claims
authenticate-accepted_iff jwt now raw user_id session_id = (
  λ h. elim (Bool-cases (raw == "")) [
    | inl e ↦ absurd (ground (arith, e))
    | inr e ↦ elim (Option-cases (jwt.verify now (AuthAdapter.extract_token raw))) [
      | inl v ↦ absurd (ground (arith, e, v))
      | inr (payload, v) ↦ (e, payload, v, ground (arith, e, v), ground (arith, e, v))
    ]
  ],
  λ h.
      let (e, payload, v, sub, session) = h in
      rw e (rw v (rw (sub, check_claims) (rw session refl))),
)
