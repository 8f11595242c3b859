-- ===== src/Http/TokenGuard.antt =====
-- src/auth/guards/token-validation.guard.ts, behind src/auth/strategies/jwt.strategy.ts, which hands
-- on `userId` and `sessionId` of the token.
use nestjs_vibe_engine.Prelude.{
  ℕ, String, ◌≡◌, ap, ◌∙◌, false, Bool-cases, inl, inr, arith, true, false, Option, none, some,
  is_some, ◌==◌, if◌then◌else◌, ◌||◌,
}
use nestjs_vibe_engine.Exec.{Exec, World, err, ok, >>=-eq-ok, http, pure, throw, continue, ◌>>=◌}
use nestjs_vibe_engine.Auth.Deps.{Deps, Cache}
use nestjs_vibe_engine.Auth.Deps.Laws.{PrismaLaws, CacheLaws}
use nestjs_vibe_engine.Auth.Service.{SessionInfo, validate_session, logout}
use nestjs_vibe_engine.Auth.Service.Validate.{validate_after_logout}

-- request.user, as the strategy sets it
pub record RequestUser : Type 0 where
  pub user_id : String
  pub session_id : String

module _ {D C : Type 0} (deps : Deps D C) where
  abbrev pub admit : Option SessionInfo → Exec (World D C) SessionInfo
  admit none = throw (http 401 "Session has been invalidated")
  admit (some session) = pure session

  -- The answer is what `request.user` becomes.
  unfoldable pub can_activate : ℕ → Option RequestUser → Exec (World D C) SessionInfo
  can_activate now none = throw (http 401 "Invalid authentication credentials")
  can_activate now (some user) =
      if user.user_id == "" || user.session_id == ""
      then throw (http 401 "Invalid authentication credentials")
      else (validate_session deps now user.user_id user.session_id >>= admit)

  admit-eq-ok :
      (found : Option SessionInfo) (w : World D C) (info : SessionInfo)
      → (admit found w).0 ≡ ok info
      → found ≡ some info
  admit-eq-ok none w info h = cc
  admit-eq-ok (some session) w info h = cc

  -- A request that the guard admits names a user and a session, which `validateSession` accepts.
  pub can_activate-eq-ok :
      (now : ℕ) (user : RequestUser) (w : World D C) (info : SessionInfo)
      → (can_activate now (some user) w).0 ≡ ok info
      → ((user.user_id == "" || user.session_id == "") ≡ false)
        × ((validate_session deps now user.user_id user.session_id w).0 ≡ ok (some info))
  unfolding can_activate
  can_activate-eq-ok now user w info h =
      elim (Bool-cases (user.user_id == "" || user.session_id == "")) [
        | inl e ↦ absurd (ground arith)
        | inr e ↦
            let (found, answer, _, admitted) =
              >>=-eq-ok (validate_session deps now user.user_id user.session_id) admit w info
                (rw e at h) in
            (e, answer ∙ ap ok (admit-eq-ok found _ info admitted))
      ]

  module _ (cache : Cache C) (here : deps.cache ≡ some cache) (laws : CacheLaws cache) where
    -- With a cache that answers, a request with a session that has just been logged out gets 401,
    -- whatever user its token names.
    pub can_activate_after_logout :
        (prisma_laws : PrismaLaws deps.prisma) (now : ℕ) (u v session_id : String) (w : World D C)
        → is_some (prisma_laws.sessions w.db session_id) ≡ true
        → (v == "" || session_id == "") ≡ false
        → (can_activate now
            (some (record { user_id = v; session_id = session_id }))
            (logout deps u session_id false w).1).0
          ≡ err (http 401 "Session has been invalidated")
    unfolding can_activate
    can_activate_after_logout prisma_laws now u v session_id w found given = rw given (
        ap (λ r. (continue r.0 admit r.1).0)
          (validate_after_logout deps cache here laws prisma_laws now u v session_id w found))
