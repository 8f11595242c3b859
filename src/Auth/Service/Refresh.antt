-- ===== src/Auth/Service/Refresh.antt =====
-- `refreshTokens`, step by step: when a request reaches `rotate`, and what `rotate` does.
use nestjs_vibe_engine.Prelude.{
  ℕ, String, ◌≡◌, ◌≢◌, refl, ◌∙◌, ap, true, false, not, ◌&&◌, Option, none, some, ltb,
  if◌then◌else◌, ◌==◌, eq_iff, eq_refl, ne→eq-false, arith, is_some,
}
use nestjs_vibe_engine.Js.Map
use nestjs_vibe_engine.Exec.{World, ok, err, http, ◌>>=◌}
use nestjs_vibe_engine.Auth.Deps.{UserSession, SessionUpdate, Deps, Claims}
use nestjs_vibe_engine.Auth.Deps.Laws.{PrismaLaws, visible}
use nestjs_vibe_engine.Auth.Tokens.{generate_tokens, constant_time_compare}
use nestjs_vibe_engine.Auth.Sessions.Effects.{closed, invalidate_all_user_sessions-db}
use nestjs_vibe_engine.Auth.Service.{
  refresh_tokens, refresh_claimed, refresh_session, rotate, still_valid, require_claim,
}

pub compare-ne : (a b : String) → a ≢ b → constant_time_compare a b ≡ false
unfolding constant_time_compare
compare-ne a b h = ground (arith, ne→eq-false a b h)

pub compare_refl : (a : String) → constant_time_compare a a ≡ true
unfolding constant_time_compare
compare_refl a = ground (arith, eq_refl a)

-- The service tests again what the middleware has put into the query.
still_valid-visible : (row : Option UserSession) → still_valid (visible row) ≡ still_valid row
still_valid-visible none = refl
still_valid-visible (some s) = ground arith

module _ {D C : Type 0} (deps : Deps D C) (laws : PrismaLaws deps.prisma) where
  -- The two outcomes of `rotate`. The row may have changed since the session `s` was read.
  pub rotate-match_row :
      (now : ℕ) (token_id u token : String) (s row : UserSession) (w : World D C)
      → constant_time_compare (deps.sha256_hash token) s.refresh_token ≡ true
      → laws.sessions w.db s.id ≡ some row
      → let new = generate_tokens deps now token_id u s.id in
        ((rotate deps now token_id u token s w).0
          ≡ ok (record {
            access_token = new.access_token;
            refresh_token = new.refresh_token;
            access_expires_in = 3600;
            refresh_expires_in = 2592000;
          }))
        × ((j : String)
            → laws.sessions (rotate deps now token_id u token s w).1.db j ≡ (
                if s.id == j
                then some (record row { refresh_token = deps.sha256_hash new.refresh_token })
                else laws.sessions w.db j))
  unfolding rotate
  rotate-match_row now token_id u token s row w same there =
      let change : SessionUpdate = record {
        refresh_token =
            some (deps.sha256_hash (generate_tokens deps now token_id u s.id).refresh_token);
        is_valid = none;
        updated_at = some now;
      } in
      rw (same, laws.update_session w.db s.id change, there)
        (
          refl,
          λ j.
              ground (arith, laws.sessions-update_session w.db s.id change j, eq_iff s.id j, there),
        )

  pub rotate-mismatch :
      (now : ℕ) (token_id u token : String) (s : UserSession) (w : World D C)
      → constant_time_compare (deps.sha256_hash token) s.refresh_token ≡ false
      → ((rotate deps now token_id u token s w).0
          ≡ err (http 401 "Token reuse detected. All sessions have been invalidated for security."))
        × ((j : String)
            → laws.sessions (rotate deps now token_id u token s w).1.db j
              ≡ closed u (laws.sessions w.db j))
  unfolding rotate
  rotate-mismatch now token_id u token s w differ =
      let (done, after) = invalidate_all_user_sessions-db deps laws u w in
      rw (differ, done) (refl, after)

  -- Everything that a request rests on before `rotate`: the token verifies, its session is there,
  -- valid and not expired.
  pub record IsAdmitted (now : ℕ) (token u session_id : String) (s : UserSession) (w : World D C)
      : Type 0 where
    pub payload : Claims
    pub verified : deps.jwt.verify now token ≡ some payload
    pub of_user : Map.get payload "userId" ≡ some u
    pub of_session : Map.get payload "sessionId" ≡ some session_id
    pub row : laws.sessions w.db session_id ≡ some s
    pub valid : (s.is_valid && not (is_some s.deleted_at)) ≡ true
    pub unexpired : ltb s.expires_at now ≡ false

  pub claimed_runs :
      (now : ℕ) (token_id token u session_id : String) (payload : Claims) (w : World D C)
      → Map.get payload "userId" ≡ some u
      → Map.get payload "sessionId" ≡ some session_id
      → refresh_claimed deps now token_id token payload w
        ≡ refresh_session deps now token_id u token (still_valid (laws.sessions w.db session_id)) w
  unfolding refresh_claimed
  claimed_runs now token_id token u session_id payload w e f =
      rw (e, require_claim)
        (rw (f, require_claim)
          (rw (laws.find_session w.db session_id, ◌>>=◌)
            (rw (still_valid-visible (laws.sessions w.db session_id)) refl)))

  pub admitted_runs :
      (now : ℕ) (token_id token u session_id : String) (s : UserSession) (w : World D C)
      → IsAdmitted now token u session_id s w
      → refresh_tokens deps now token_id token w ≡ rotate deps now token_id u token s w
  unfolding refresh_tokens refresh_session
  admitted_runs now token_id token u session_id s w a =
      rw (a.verified, refresh_tokens)
        (claimed_runs now token_id token u session_id a.payload w a.of_user a.of_session
          ∙ rw (a.row) (ground (arith, a.valid, a.unexpired)))

  -- The row that a successful refresh leaves.
  abbrev pub rotated : ℕ → String → String → UserSession → UserSession
  rotated now token_id u s = record s {
    refresh_token = deps.sha256_hash (generate_tokens deps now token_id u s.id).refresh_token;
  }

  -- A refresh with the token of the session's stored hash succeeds; it hands out the new pair, stores
  -- the hash of the new refresh token in that session, and changes no other session.
  pub accepted :
      (now : ℕ) (token_id token u session_id : String) (s : UserSession) (w : World D C)
      → IsAdmitted now token u session_id s w
      → constant_time_compare (deps.sha256_hash token) s.refresh_token ≡ true
      → let new = generate_tokens deps now token_id u s.id in
        ((refresh_tokens deps now token_id token w).0
          ≡ ok (record {
            access_token = new.access_token;
            refresh_token = new.refresh_token;
            access_expires_in = 3600;
            refresh_expires_in = 2592000;
          }))
        × ((j : String)
            → laws.sessions (refresh_tokens deps now token_id token w).1.db j
              ≡ (if s.id == j then some (rotated now token_id u s) else laws.sessions w.db j))
  accepted now token_id token u session_id s w a same =
      rw (admitted_runs now token_id token u session_id s w a) (
        rotate-match_row now token_id u token s s w same
          (ap (laws.sessions w.db) (laws.sessions_id w.db session_id s a.row) ∙ a.row))

  -- The session is admitted again after it, for any token of its claims that verifies in time.
  pub IsAdmitted-again :
      (now later : ℕ) (token_id token next u session_id : String) (s : UserSession) (w : World D C)
      (payload : Claims)
      → IsAdmitted now token u session_id s w
      → constant_time_compare (deps.sha256_hash token) s.refresh_token ≡ true
      → deps.jwt.verify later next ≡ some payload
      → Map.get payload "userId" ≡ some u
      → Map.get payload "sessionId" ≡ some session_id
      → ltb s.expires_at later ≡ false
      → IsAdmitted later next u session_id
          (rotated now token_id u s)
          (refresh_tokens deps now token_id token w).1
  IsAdmitted-again now later token_id token next u session_id s w payload a same verified cu cs
        intime =
      record {
        payload = payload;
        verified = verified;
        of_user = cu;
        of_session = cs;
        row =
            (accepted now token_id token u session_id s w a same).1 session_id
            ∙ rw (laws.sessions_id w.db session_id s a.row) (rw (eq_refl session_id) refl);
        valid = a.valid;
        unexpired = intime;
      }
