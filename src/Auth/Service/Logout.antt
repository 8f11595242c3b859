-- ===== src/Auth/Service/Logout.antt =====
-- `logout` and `validateSession`: what a logout does to the sessions, and what a session is worth
-- afterwards.
use nestjs_vibe_engine.Prelude.{
  String, ◌≡◌, refl, true, false, not, ◌&&◌, if◌then◌else◌, ◌==◌, Bool-cases, inl, inr, is_some,
  length,
}
use nestjs_vibe_engine.Exec.{World, ok, err, failure}
use nestjs_vibe_engine.Auth.Deps.{Deps, active_of}
use nestjs_vibe_engine.Auth.Deps.Laws.{PrismaLaws, update_row}
use nestjs_vibe_engine.Auth.Sessions.{
  invalidated, invalidate_all_user_sessions, invalidate_single_session,
}
use nestjs_vibe_engine.Auth.Sessions.Effects.{
  is_active_of, is_active_of-closed, invalidate_all_user_sessions-db, invalidate_single_session-db,
  clear-db,
}
use nestjs_vibe_engine.Auth.Service.{logout}

module _ {D C : Type 0} (deps : Deps D C) (laws : PrismaLaws deps.prisma) where
  -- A logout from all devices succeeds whether or not the cache answers: it reports the number of the
  -- user's active sessions, leaves none of them active, and those of other users as active as before.
  pub logout_all :
      (u session_id : String) (w : World D C)
      → ((logout deps u session_id true w).0
          ≡ ok (record {
            message = "All sessions have been invalidated";
            sessions_invalidated = length (laws.rows w.db (active_of u));
          }))
        × ((v j : String)
            → is_active_of v (laws.sessions (logout deps u session_id true w).1.db j)
              ≡ (not (u == v) && is_active_of v (laws.sessions w.db j)))
  unfolding logout
  logout_all u session_id w =
      let (done, after) = invalidate_all_user_sessions-db deps laws u w in
      let (cleared, same) = clear-db deps u (invalidate_all_user_sessions deps u w).1 in
      rw done (
        rw cleared
          (refl, λ v j. rw same (rw (after j) (is_active_of-closed u v (laws.sessions w.db j)))))

  -- A logout from one session makes that session's row invalid and keeps its other columns, of those that
  -- the service reads, and every other row as it was, whether or not the cache answers. If there is no such row the call fails.
  pub logout_single :
      (u session_id : String) (w : World D C)
      → ((logout deps u session_id false w).0 ≡ (
          if is_some (laws.sessions w.db session_id)
          then ok (record { message = "Session has been invalidated"; sessions_invalidated = 1 })
          else err (failure "Record to update not found.")))
        × ((j : String)
            → laws.sessions (logout deps u session_id false w).1.db j ≡ (
                if session_id == j
                then update_row invalidated (laws.sessions w.db j)
                else laws.sessions w.db j))
  unfolding logout
  logout_single u session_id w =
      let (done, after) = invalidate_single_session-db deps laws session_id w in
      let (cleared, same) = clear-db deps u (invalidate_single_session deps session_id w).1 in
      elim (Bool-cases (is_some (laws.sessions w.db session_id))) [
        | inr e ↦ rw (done, e) (refl, after)
        | inl e ↦ rw (done, e) (rw cleared (refl, λ j. rw same (after j)))
      ]
