-- ===== src/Auth/Service/Login.antt =====
-- `handleGoogleLogin`: the new session, the limit on devices, and the first refresh.
use nestjs_vibe_engine.Prelude.{
  ℕ, ◌+◌, ◌*◌, String, ◌≡◌, refl, sym, ◌∙◌, ap, Bool, true, false, not, ◌&&◌, ◌||◌, Option, none,
  some, ltb, leb, if◌then◌else◌, ◌==◌, eq_iff, eq_refl, arith, length,
}
use nestjs_vibe_engine.Js.Map
use nestjs_vibe_engine.Exec.{World, ok}
use nestjs_vibe_engine.Auth.Deps.{UserSession, User, NewSession, SessionUpdate, Deps, active_of}
use nestjs_vibe_engine.Auth.Deps.Laws.{PrismaLaws, update_row}
use nestjs_vibe_engine.Auth.Tokens.{generate_tokens, refresh_token_expires_in_seconds}
use nestjs_vibe_engine.Auth.Sessions.{create_session, invalidate_existing_sessions}
use nestjs_vibe_engine.Auth.Sessions.Effects.{
  closed, is_active_of, is_active_of-closed, invalidate_existing_sessions-db, cache_user_info-db,
}
use nestjs_vibe_engine.Auth.Service.{
  GoogleProfile, AuthResponse, Tokens, find_or_create_user, handle_google_login,
}

-- A row after a login: the new one, or one from before that may have been closed.
limits_row :
    (is_new full : Bool) (u v : String) (new row : Option UserSession)
    → is_active_of v new ≡ (u == v)
    → (is_new ≡ true → row ≡ none)
    → is_active_of v (if is_new then new else if full then closed u row else row)
      ≡ (if u == v then is_new || (not full && is_active_of v row) else is_active_of v row)
limits_row true full u v new row h none_before = rw (h, none_before refl) (ground arith)
limits_row false true u v new row h none_before = rw (is_active_of-closed u v row) (ground arith)
limits_row false false u v new row h none_before = ground arith

module _ {D C : Type 0} (deps : Deps D C) (laws : PrismaLaws deps.prisma) where
  -- The row that `createSession` asks for.
  abbrev requested : ℕ → String → NewSession
  requested now user_id = record {
    user_id = user_id;
    refresh_token = "";
    is_valid = true;
    expires_at = now + refresh_token_expires_in_seconds * 1000;
  }

  abbrev before : String → World D C → World D C
  before user_id w = (invalidate_existing_sessions deps user_id w).1

  -- The session row of a login of the user from the world `w`.
  abbrev pub new_session : ℕ → String → World D C → UserSession
  new_session now user_id w = laws.created (before user_id w).db (requested now user_id)

  -- The limit on devices is set and reached.
  abbrev pub is_full : String → World D C → Bool
  is_full user_id w =
      ltb 0 deps.max_devices_per_user
      && leb deps.max_devices_per_user (length (laws.rows w.db (active_of user_id)))

  module _ (now : ℕ) (token_id : String) (profile : GoogleProfile) (user : User) (is_new : Bool)
      (w w' : World D C)
      (known : find_or_create_user deps profile w ≡ (ok (user, is_new), w')) where
    abbrev session : UserSession
    session = new_session now user.id w'

    abbrev stored : SessionUpdate
    stored = record {
      refresh_token =
          some
            (deps.sha256_hash (generate_tokens deps now token_id user.id session.id).refresh_token);
      is_valid = none;
      updated_at = none;
    }

    -- The login succeeds with tokens for the new session, and each row afterwards.
    login-db :
        ((r : AuthResponse) × ((handle_google_login deps now token_id profile w).0 ≡ ok r)
          × (r.user_id ≡ user.id)
          × (r.is_new_user ≡ is_new)
          × (r.tokens.refresh_token
              ≡ (generate_tokens deps now token_id user.id session.id).refresh_token))
        × ((j : String)
            → laws.sessions (handle_google_login deps now token_id profile w).1.db j ≡ (
                if session.id == j
                then update_row stored (some session)
                else if is_full user.id w'
                then closed user.id (laws.sessions w'.db j)
                else laws.sessions w'.db j))
    unfolding handle_google_login create_session
    login-db =
        let (limited, rows) = invalidate_existing_sessions-db deps laws user.id w' in
        let db2 : D =
          (deps.prisma.create_session (requested now user.id) (before user.id w').db).1 in
        let w3 : World D C = record (before user.id w') {
          db = (deps.prisma.update_session session.id stored db2).1;
        } in
        let (cached, same) =
          cache_user_info-db deps user.id
            (record {
              id = user.id;
              email = user.email;
              name = user.name;
              picture = user.picture;
              session_id = session.id;
            })
            w3 in
        let here : laws.sessions db2 session.id ≡ some session =
          laws.sessions-create_session (before user.id w').db (requested now user.id) session.id
          ∙ rw (eq_refl session.id) refl in
        rw known (
          rw limited (
            rw (laws.create_session (before user.id w').db (requested now user.id)) (
              rw (laws.update_session db2 session.id stored) (
                rw here (
                  rw cached (
                    (_, refl, refl, refl, refl),
                    λ j. rw same (
                        laws.sessions-update_session db2 session.id stored j
                        ∙ ground (
                          arith,
                          here,
                          rows j,
                          eq_iff session.id j,
                          laws.sessions-create_session (before user.id w').db
                              (requested now user.id) j,
                        )),
                  ))))))

    -- The new row is active for its user alone.
    created-active :
        (v : String) → is_active_of v (update_row stored (some session)) ≡ (user.id == v)
    created-active v =
        let (_, of_user, valid, kept, _) =
          laws.created_row (before user.id w').db (requested now user.id) in
        ground (arith, of_user, valid, kept)

    -- No row had the new session's id before.
    fresh : laws.sessions w'.db session.id ≡ none
    fresh =
        let (absent, _, _, _, _) =
          laws.created_row (before user.id w').db (requested now user.id) in
        closed-none (is_full user.id w') (laws.sessions w'.db session.id)
          (sym ((invalidate_existing_sessions-db deps laws user.id w').1 session.id) ∙ absent)
      where
        closed-none :
            (b : Bool) (row : Option UserSession)
            → (if b then closed user.id row else row) ≡ none
            → row ≡ none
        closed-none b none e = refl
        closed-none b (some s) e = absurd (ground arith)

    -- A login succeeds once its user is found or created. Afterwards the user's active sessions are
    -- the new one and, only if the limit on devices is off or was not reached, those from before;
    -- the sessions of other users are active as before.
    pub login_limits :
        ((r : AuthResponse) × ((handle_google_login deps now token_id profile w).0 ≡ ok r)
          × (r.user_id ≡ user.id)
          × (r.is_new_user ≡ is_new))
        × ((v j : String)
            → is_active_of v
                (laws.sessions (handle_google_login deps now token_id profile w).1.db j)
              ≡ (if user.id == v
                  then (new_session now user.id w').id == j
                    || (not (is_full user.id w') && is_active_of v (laws.sessions w'.db j))
                  else is_active_of v (laws.sessions w'.db j)))
    login_limits =
        let ((r, done, of_user, is_new_user, _), after) = login-db in
        (
          (r, done, of_user, is_new_user),
          λ v j.
              ap (is_active_of v) (after j)
              ∙ limits_row (session.id == j) (is_full user.id w') user.id v
                  (update_row stored (some session)) (laws.sessions w'.db j) (created-active v)
                  (λ same. ap (laws.sessions w'.db) (sym ((eq_iff session.id j).0 same)) ∙ fresh),
        )
