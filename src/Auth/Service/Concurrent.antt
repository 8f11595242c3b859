-- ===== src/Auth/Service/Concurrent.antt =====
-- `refreshTokens` for two requests with the same token, which both read the session before either of
-- them writes it. `refresh_session` is what a request does behind that reading.
use nestjs_vibe_engine.Prelude.{
  ℕ, ◌+◌, ◌/◌, ◌<◌, String, ◌≡◌, ◌≢◌, refl, ◌∙◌, ap, true, false, some, ltb, eq_refl, arith,
}
use nestjs_vibe_engine.Js.Map
use nestjs_vibe_engine.Exec.{World, ok, err, http}
use nestjs_vibe_engine.Auth.Deps.{UserSession, Deps}
use nestjs_vibe_engine.Auth.Deps.Laws.{PrismaLaws, JwtLaws}
use nestjs_vibe_engine.Auth.Tokens.{
  generate_tokens, constant_time_compare, refresh_claims, refresh_token_expires_in_seconds,
}
use nestjs_vibe_engine.Auth.Sessions.Effects.{is_active_of, is_active_of-closed}
use nestjs_vibe_engine.Auth.Service.{Tokens, refresh_tokens, refresh_session, rotate}
use nestjs_vibe_engine.Auth.Service.Refresh.{
  IsAdmitted, rotated, rotate-match_row, rotate-mismatch, admitted_runs, compare-ne,
}

module _ {D C : Type 0} (deps : Deps D C) (laws : PrismaLaws deps.prisma) where
  refresh_session-rotates :
      (now : ℕ) (token_id u token : String) (s : UserSession) (w : World D C)
      → ltb s.expires_at now ≡ false
      → refresh_session deps now token_id u token (some s) w ≡ rotate deps now token_id u token s w
  unfolding refresh_session
  refresh_session-rotates now token_id u token s w intime = ground (arith, intime)

  abbrev pub pair : ℕ → String → String → UserSession → Tokens
  pair now token_id u s = record {
    access_token = (generate_tokens deps now token_id u s.id).access_token;
    refresh_token = (generate_tokens deps now token_id u s.id).refresh_token;
    access_expires_in = 3600;
    refresh_expires_in = 2592000;
  }

  -- One of the requests, on a table whose row may have changed since it read the session.
  stale_refresh :
      (now : ℕ) (token_id u token : String) (s row : UserSession) (w : World D C)
      → constant_time_compare (deps.sha256_hash token) s.refresh_token ≡ true
      → ltb s.expires_at now ≡ false
      → laws.sessions w.db s.id ≡ some row
      → ((refresh_session deps now token_id u token (some s) w).0 ≡ ok (pair now token_id u s))
        × (laws.sessions (refresh_session deps now token_id u token (some s) w).1.db s.id
            ≡ some (record row {
              refresh_token =
                  deps.sha256_hash (generate_tokens deps now token_id u s.id).refresh_token;
            }))
  stale_refresh now token_id u token s row w same intime there =
      let (answer, after) = rotate-match_row deps laws now token_id u token s row w same there in
      rw (refresh_session-rotates now token_id u token s w intime)
        (answer, after s.id ∙ rw (eq_refl s.id) refl)

  -- Two requests with the same refresh token that both read the session before either writes it are
  -- both answered with new tokens. The refresh token of the first answer is then refused as reuse,
  -- while it is in time, in whole seconds, and if its hash is not that of the second one's, and no session of the user is active any more.
  pub concurrent_refreshes :
      (jwt_laws : JwtLaws deps.jwt) (now later last : ℕ) (id1 id2 id3 token u : String)
      (s : UserSession) (w : World D C)
      → IsAdmitted deps laws now token u s.id s w
      → constant_time_compare (deps.sha256_hash token) s.refresh_token ≡ true
      → ltb s.expires_at later ≡ false
      → ltb s.expires_at last ≡ false
      → last / 1000 < now / 1000 + refresh_token_expires_in_seconds
      → deps.sha256_hash (generate_tokens deps now id1 u s.id).refresh_token
        ≢ deps.sha256_hash (generate_tokens deps later id2 u s.id).refresh_token
      → let (first, w1) = refresh_session deps now id1 u token (some s) w in
        let (second, w2) = refresh_session deps later id2 u token (some s) w1 in
        let (third, w3) = refresh_tokens deps last id3 (pair now id1 u s).refresh_token w2 in
        (first ≡ ok (pair now id1 u s))
        × (second ≡ ok (pair later id2 u s))
        × (third
            ≡ err
                (http 401 "Token reuse detected. All sessions have been invalidated for security."))
        × ((j : String) → is_active_of u (laws.sessions w3.db j) ≡ false)
  unfolding generate_tokens Map.get
  concurrent_refreshes jwt_laws now later last id1 id2 id3 token u s w a same intime intime' alive
        differ =
      let (answer1, row1) = stale_refresh now id1 u token s s w same a.unexpired a.row in
      let w1 = (refresh_session deps now id1 u token (some s) w).1 in
      let (answer2, row2) =
        stale_refresh later id2 u token s (rotated deps laws now id1 u s) w1 same intime row1 in
      let w2 = (refresh_session deps later id2 u token (some s) w1).1 in
      let kept : UserSession = record s {
        refresh_token = deps.sha256_hash (generate_tokens deps later id2 u s.id).refresh_token;
      } in
      let b : IsAdmitted deps laws last (pair now id1 u s).refresh_token u s.id kept w2 = record {
        payload = refresh_claims u s.id id1;
        verified =
            jwt_laws.verify_sign now last (refresh_claims u s.id id1)
              refresh_token_expires_in_seconds alive;
        of_user = refl;
        of_session = refl;
        row = row2;
        valid = a.valid;
        unexpired = intime';
      } in
      let (refused, after) =
        rotate-mismatch deps laws last id3 u (pair now id1 u s).refresh_token kept w2
          (compare-ne _ _ differ) in
      (
        answer1,
        answer2,
        ap (λ p. p.0)
              (admitted_runs deps laws last id3 (pair now id1 u s).refresh_token u s.id kept w2 b)
            ∙ refused,
        λ j.
            ap (λ p. is_active_of u (laws.sessions p.1.db j))
              (admitted_runs deps laws last id3 (pair now id1 u s).refresh_token u s.id kept w2 b)
            ∙ rw (after j) (is_active_of-closed u u (laws.sessions w2.db j) ∙ rw (eq_refl u) refl),
      )
