-- ===== src/Auth/Sessions/Effects.antt =====
-- What the private methods of AuthService do to the database. A cache that fails, or that is not
-- there, changes none of it.
use nestjs_vibe_engine.Prelude.{
  String, ◌≡◌, refl, sym, ◌∙◌, ap, Bool, true, false, not, ◌&&◌, ◌||◌, Option, none, some, List, [],
  ◌∷◌, map, ltb, leb, nat_eq, length, if◌then◌else◌, ◌==◌, eq_iff, any, arith, Option-cases,
  Bool-cases, inl, inr, is_some,
}
use nestjs_vibe_engine.Exec.{World, ok, err, failure}
use nestjs_vibe_engine.Auth.Deps.{UserSession, active_of, id_in, UserInfo, Deps}
use nestjs_vibe_engine.Auth.Deps.Laws.{PrismaLaws, selects_row, selects_row-visible, update_row}
use nestjs_vibe_engine.Auth.Sessions.{
  invalidated, mark_session_invalid_in_cache, cache_user_info, clear_cached_user_info, mark_all,
  invalidate_all_user_sessions, invalidate_existing_sessions, invalidate_single_session,
}

module _ {D C : Type 0} (deps : Deps D C) where
  pub mark-db :
      (id : String) (w : World D C)
      → ((mark_session_invalid_in_cache deps id w).0 ≡ ok tt)
        × ((mark_session_invalid_in_cache deps id w).1.db ≡ w.db)
  unfolding mark_session_invalid_in_cache
  mark-db id w = ground arith

  pub cache_user_info-db :
      (id : String) (info : UserInfo) (w : World D C)
      → ((cache_user_info deps id info w).0 ≡ ok tt)
        × ((cache_user_info deps id info w).1.db ≡ w.db)
  unfolding cache_user_info
  cache_user_info-db id info w = ground arith

  pub clear-db :
      (id : String) (w : World D C)
      → ((clear_cached_user_info deps id w).0 ≡ ok tt)
        × ((clear_cached_user_info deps id w).1.db ≡ w.db)
  unfolding clear_cached_user_info
  clear-db id w = ground arith

  pub mark_all-db :
      (ids : List String) (w : World D C)
      → ((mark_all deps ids w).0 ≡ ok tt) × ((mark_all deps ids w).1.db ≡ w.db)
  unfolding mark_all
  mark_all-db [] w = (refl, refl)
  mark_all-db (id ∷ ids) w =
      let (done, same) = mark-db id w in
      let (rest, still) = mark_all-db ids (mark_session_invalid_in_cache deps id w).1 in
      rw done (rest, still ∙ same)

-- A row after all active sessions of the user have been made invalid.
abbrev pub closed : String → Option UserSession → Option UserSession
closed user_id row = if selects_row (active_of user_id) row then update_row invalidated row else row

-- Whether the row is an active session of the user.
abbrev pub is_active_of : String → Option UserSession → Bool
is_active_of user_id row = selects_row (active_of user_id) row

-- Closing the sessions of one user leaves none of that user's active, and everybody else's.
pub is_active_of-closed :
    (u v : String) (row : Option UserSession)
    → is_active_of v (closed u row) ≡ (not (u == v) && is_active_of v row)
is_active_of-closed u v none = ground arith
is_active_of-closed u v (some s) =
    ground (arith, eq_iff s.user_id u, eq_iff s.user_id v, eq_iff u v)

any-map_id :
    (rows : List UserSession) (j : String)
    → any (λ id. id == j) (map (λ s. s.id) rows) ≡ any (λ s. s.id == j) rows
any-map_id [] j = refl
any-map_id (s ∷ rows) j = ap (λ b. s.id == j || b) (any-map_id rows j)

module _ {D C : Type 0} (deps : Deps D C) (laws : PrismaLaws deps.prisma) where
  no_rows :
      (d : D) (u j : String)
      → nat_eq (length (laws.rows d (active_of u))) 0 ≡ true
      → is_active_of u (laws.sessions d j) ≡ false
  no_rows d u j h =
      sym (selects_row-visible u (laws.sessions d j))
      ∙ sym (laws.rows_mem d (active_of u) j)
      ∙ none_of (laws.rows d (active_of u)) h
    where
      none_of :
          (rows : List UserSession)
          → nat_eq (length rows) 0 ≡ true
          → any (λ s. s.id == j) rows ≡ false
      none_of [] h = refl
      none_of (s ∷ rows) h = absurd (ground arith)

  -- Each row after `invalidateAllUserSessions`, and the number that it returns.
  pub invalidate_all_user_sessions-db :
      (u : String) (w : World D C)
      → ((invalidate_all_user_sessions deps u w).0 ≡ ok (length (laws.rows w.db (active_of u))))
        × ((j : String)
            → laws.sessions (invalidate_all_user_sessions deps u w).1.db j
              ≡ closed u (laws.sessions w.db j))
  unfolding invalidate_all_user_sessions
  invalidate_all_user_sessions-db u w =
      let f = active_of u in
      let updated : World D C = record w {
        db = (deps.prisma.update_sessions f invalidated w.db).1;
      } in
      let (done, same) = mark_all-db deps (map (λ s. s.id) (laws.rows w.db f)) updated in
      rw (laws.find_sessions w.db f) (elim (Bool-cases (nat_eq (length (laws.rows w.db f)) 0)) [
        | inl e ↦ rw e (ground arith, λ j. rw (no_rows w.db u j e))
        | inr e ↦
            rw (e, laws.update_sessions w.db f invalidated)
              (rw done (refl, λ j. rw same (laws.sessions-update_sessions w.db f invalidated j)))
      ])

  ids_select :
      (d : D) (u j : String)
      → selects_row (id_in (map (λ s. s.id) (laws.rows d (active_of u)))) (laws.sessions d j)
        ≡ is_active_of u (laws.sessions d j)
  ids_select d u j = elim (Option-cases (laws.sessions d j)) [
    | inl e ↦ rw e
    | inr (s, e) ↦
        let same : any (λ id. id == s.id) (map (λ s. s.id) (laws.rows d (active_of u)))
            ≡ is_active_of u (laws.sessions d j) =
          any-map_id (laws.rows d (active_of u)) s.id
          ∙ rw (laws.sessions_id d j s e)
              (laws.rows_mem d (active_of u) j ∙ selects_row-visible u (laws.sessions d j)) in
        rw e (same ∙ rw e)
  ]

  -- Each row after `invalidateExistingSessions`: the user's sessions are closed if the limit is set
  -- and reached.
  pub invalidate_existing_sessions-db :
      (u : String) (w : World D C)
      → ((invalidate_existing_sessions deps u w).0 ≡ ok tt)
        × ((j : String)
            → laws.sessions (invalidate_existing_sessions deps u w).1.db j ≡ (
                if ltb 0 deps.max_devices_per_user
                  && leb deps.max_devices_per_user (length (laws.rows w.db (active_of u)))
                then closed u (laws.sessions w.db j)
                else laws.sessions w.db j))
  unfolding invalidate_existing_sessions
  invalidate_existing_sessions-db u w =
      let f = active_of u in
      let ids : List String = map (λ s. s.id) (laws.rows w.db f) in
      let updated : World D C = record w {
        db = (deps.prisma.update_sessions (id_in ids) invalidated w.db).1;
      } in
      let (done, same) = mark_all-db deps ids updated in
      rw (laws.find_sessions w.db f)
        (elim (Bool-cases (
          ltb 0 deps.max_devices_per_user
          && leb deps.max_devices_per_user (length (laws.rows w.db f)))) [
            | inr e ↦ rw e (refl, λ j. refl)
            | inl e ↦
                rw (e, laws.update_sessions w.db (id_in ids) invalidated)
                  (rw done (
                    refl,
                    λ j. rw same (
                        laws.sessions-update_sessions w.db (id_in ids) invalidated j
                        ∙ rw (ids_select w.db u j)),
                  ))
          ])

  pub invalidate_single_session-db :
      (id : String) (w : World D C)
      → ((invalidate_single_session deps id w).0 ≡ (
          if is_some (laws.sessions w.db id)
          then ok tt
          else err (failure "Record to update not found.")))
        × ((j : String)
            → laws.sessions (invalidate_single_session deps id w).1.db j ≡ (
                if id == j
                then update_row invalidated (laws.sessions w.db j)
                else laws.sessions w.db j))
  unfolding invalidate_single_session
  invalidate_single_session-db id w =
      let updated : World D C = record w {
        db = (deps.prisma.update_session id invalidated w.db).1;
      } in
      let (done, same) = mark-db deps id updated in
      rw (laws.update_session w.db id invalidated)
        (elim (Bool-cases (is_some (laws.sessions w.db id))) [
          | inl e ↦ rw e (done, λ j. rw same (laws.sessions-update_session w.db id invalidated j))
          | inr e ↦ rw e (refl, λ j. laws.sessions-update_session w.db id invalidated j)
        ])
