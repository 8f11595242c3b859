-- ===== src/Auth/Service/Rotation.antt =====
-- `refreshTokens`: the rotation of refresh tokens and the detection of reuse.
use nestjs_vibe_engine.Prelude.{
  ℕ, ◌+◌, ◌/◌, ◌≤◌, ◌<◌, String, ◌≡◌, ◌≢◌, refl, ◌∙◌, ap, true, false, not, ◌&&◌, some, ltb, ◌==◌,
  arith,
}
use nestjs_vibe_engine.Js.Map
use nestjs_vibe_engine.Exec.{World, ok, err, http}
use nestjs_vibe_engine.Auth.Deps.{UserSession, Deps}
use nestjs_vibe_engine.Auth.Deps.Laws.{PrismaLaws, JwtLaws}
use nestjs_vibe_engine.Auth.Tokens.{
  generate_tokens, constant_time_compare, refresh_token_expires_in_seconds,
}
use nestjs_vibe_engine.Auth.Sessions.Effects.{is_active_of, is_active_of-closed}
use nestjs_vibe_engine.Auth.Service.{Tokens, refresh_tokens}
use nestjs_vibe_engine.Auth.Tokens.{refresh_claims}
use nestjs_vibe_engine.Auth.Service.Refresh.{
  IsAdmitted, rotated, rotate-mismatch, admitted_runs, accepted, IsAdmitted-again, compare-ne,
  compare_refl,
}

module _ {D C : Type 0} (deps : Deps D C) (laws : PrismaLaws deps.prisma) where
  -- Reuse of a refresh token. The first refresh with a token is accepted; a second one with the same
  -- token, still in time and with a hash other than the new token's, is refused as reuse, and after
  -- it no session of the token's user is active, while those of other users are active as before.
  pub reuse_detected :
      (now later : ℕ) (token_id token_id' token u session_id : String) (s : UserSession)
      (w : World D C)
      → IsAdmitted deps laws now token u session_id s w
      → constant_time_compare (deps.sha256_hash token) s.refresh_token ≡ true
      → deps.jwt.verify later token ≡ deps.jwt.verify now token
      → ltb s.expires_at later ≡ false
      → deps.sha256_hash token
        ≢ deps.sha256_hash (generate_tokens deps now token_id u s.id).refresh_token
      → let w' = (refresh_tokens deps now token_id token w).1 in
        let (answer, w'') = refresh_tokens deps later token_id' token w' in
        (answer
          ≡ err (http 401 "Token reuse detected. All sessions have been invalidated for security."))
        × ((v j : String)
            → is_active_of v (laws.sessions w''.db j)
              ≡ (not (u == v) && is_active_of v (laws.sessions w'.db j)))
  reuse_detected now later token_id token_id' token u session_id s w a same again intime differ =
      let b =
        IsAdmitted-again deps laws now later token_id token token u session_id s w a.payload a same
          (again ∙ a.verified) a.of_user a.of_session intime in
      let (refused, after) =
        rotate-mismatch deps laws later token_id' u token (rotated deps laws now token_id u s)
          (refresh_tokens deps now token_id token w).1 (compare-ne _ _ differ) in
      rw
        (admitted_runs deps laws later token_id' token u session_id
          (rotated deps laws now token_id u s) (refresh_tokens deps now token_id token w).1 b)
        (
          refused,
          λ v j. rw (after j) (
              is_active_of-closed u v
                (laws.sessions (refresh_tokens deps now token_id token w).1.db j)),
        )

  -- The chain of refreshes: the refresh token that one refresh hands out is accepted by the next, as
  -- long as neither the token's thirty days, in whole seconds, nor the session's time is over.
  pub next_refresh_succeeds :
      (jwt_laws : JwtLaws deps.jwt) (now later : ℕ) (token_id token_id' token u session_id : String)
      (s : UserSession) (w : World D C)
      → IsAdmitted deps laws now token u session_id s w
      → constant_time_compare (deps.sha256_hash token) s.refresh_token ≡ true
      → later / 1000 < now / 1000 + refresh_token_expires_in_seconds
      → later ≤ s.expires_at
      → (r r' : Tokens) × ((refresh_tokens deps now token_id token w).0 ≡ ok r)
        × ((refresh_tokens deps later token_id' r.refresh_token
              (refresh_tokens deps now token_id token w).1).0
            ≡ ok r')
  unfolding generate_tokens Map.get
  next_refresh_succeeds jwt_laws now later token_id token_id' token u session_id s w a same intime
        open_session =
      let new = generate_tokens deps now token_id u s.id in
      let (first, _) = accepted deps laws now token_id token u session_id s w a same in
      let b =
        IsAdmitted-again deps laws now later token_id token new.refresh_token u session_id s w
          (refresh_claims u s.id token_id) a same
          (jwt_laws.verify_sign now later (refresh_claims u s.id token_id)
            refresh_token_expires_in_seconds intime)
          refl (ap some (laws.sessions_id w.db session_id s a.row)) (ground arith) in
      let (second, _) =
        accepted deps laws later token_id' new.refresh_token u session_id
          (rotated deps laws now token_id u s) (refresh_tokens deps now token_id token w).1 b
          (compare_refl _) in
      (_, _, first, second)
