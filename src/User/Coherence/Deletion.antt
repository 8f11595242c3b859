-- ===== src/User/Coherence/Deletion.antt =====
-- `softDelete`: a deleted user is found neither in the cache nor in the table.
use nestjs_vibe_engine.Prelude.{
  ℕ, String, ◌≡◌, refl, ◌∙◌, ap, true, none, some, eq_refl, List, [], ◌∷◌,
}
use nestjs_vibe_engine.Exec.{Exec, World, ok, on_db, on_cache, pure, run-step}
use nestjs_vibe_engine.Cache.Service
use nestjs_vibe_engine.Cache.Service.{Redis, Json, guarded, CacheState, is_connected}
use nestjs_vibe_engine.Cache.Laws.{RedisLaws}
use nestjs_vibe_engine.Cache.Storage.{guarded-runs, decoded}
use nestjs_vibe_engine.User.Repository
use nestjs_vibe_engine.User.Repository.{User, date, deleted_at_data}
use nestjs_vibe_engine.User.Service.{
  UserDeps, user_info, user_session, find_by_id, soft_delete, delete_found, keep_found, drop_keys,
  drop_any, session_keys_of, invalidate_user_sessions,
}
use nestjs_vibe_engine.User.Laws.{UserTableLaws, if_active, apply_data}
use nestjs_vibe_engine.User.Coherence.{
  get-runs, stored, drop_keys-runs, find_by_id-uncached, active_row,
}

module _ {D R : Type 0} (deps : UserDeps D R) (redis : Redis R) (here : deps.client ≡ some redis)
    (laws : RedisLaws redis) where
  -- A step that answers, leaves the database alone and keeps the connection.
  abbrev IsQuiet : {A : Type 0} → Exec (World D (CacheState R)) A → Type 0
  IsQuiet {A} m =
      (w : World D (CacheState R))
      → is_connected w.cache ≡ true
      → (a : A) × (w' : World D (CacheState R)) × (m w ≡ (ok a, w'))
        × (w'.db ≡ w.db)
        × (is_connected w'.cache ≡ true)

  guarded-IsQuiet :
      {A : Type 0} (fallback : A) (command : Redis R → Exec R A)
      → IsQuiet (on_cache (guarded deps.client fallback command))
  unfolding is_connected
  guarded-IsQuiet fallback command w up =
      let (a, e) = guarded-runs redis fallback command w.cache up in
      (
        a,
        record w { cache = record w.cache { redis = (command redis w.cache.redis).1 } },
        rw here (ap (λ p. (p.0, record w { cache = p.1 })) e),
        refl,
        up,
      )

  get-IsQuiet :
      {T : Type 0} (json : Json T) (k : String)
      → IsQuiet (on_cache (Service.get deps.client json k))
  get-IsQuiet json k w up =
      let (c, e, _, up1) = get-runs redis laws json k w.cache up in
      (
        decoded redis laws json (laws.stored w.cache.redis k),
        record w { cache = c },
        rw here (ap (λ p. (p.0, record w { cache = p.1 })) e),
        refl,
        up1,
      )

  session_keys_of-IsQuiet :
      (user_id : String) (ks : List String) → IsQuiet (session_keys_of deps user_id ks)
  unfolding session_keys_of
  session_keys_of-IsQuiet user_id [] w up = ([], w, refl, refl, up)
  session_keys_of-IsQuiet user_id (k ∷ ks) w up =
      let (session, w1, step, same1, up1) = get-IsQuiet deps.session_json k w up in
      let (found, w2, rest, same2, up2) = session_keys_of-IsQuiet user_id ks w1 up1 in
      (
        _,
        w2,
        run-step (on_cache (Service.get deps.client deps.session_json k)) _ w w1 session step
            ∙ run-step (session_keys_of deps user_id ks) _ w1 w2 found rest,
        same2 ∙ same1,
        up2,
      )

  drop_any-IsQuiet : (ks : List String) → IsQuiet (drop_any deps ks)
  unfolding Service.del
  drop_any-IsQuiet [] w up = (tt, w, refl, refl, up)
  drop_any-IsQuiet (k ∷ ks) w up =
      let (n, w1, step, same, up1) = guarded-IsQuiet 0 (λ redis. redis.del (k ∷ ks)) w up in
      (tt, w1, run-step (drop_keys deps (k ∷ ks)) (λ _. pure tt) w w1 n step, same, up1)

  invalidate_user_sessions-IsQuiet :
      (user_id : String) → IsQuiet (invalidate_user_sessions deps user_id)
  unfolding invalidate_user_sessions Service.keys
  invalidate_user_sessions-IsQuiet user_id w up =
      let (n, w1, step1, same1, up1, _) =
        drop_keys-runs deps redis here laws (user_session user_id) w up in
      let (ks, w2, step2, same2, up2) =
        guarded-IsQuiet [] (λ redis. redis.keys "session:*") w1 up1 in
      let (own, w3, step3, same3, up3) = session_keys_of-IsQuiet user_id ks w2 up2 in
      let (u, w4, step4, same4, up4) = drop_any-IsQuiet own w3 up3 in
      (
        u,
        w4,
        run-step (drop_keys deps (user_session user_id ∷ [])) _ w w1 n step1
            ∙ run-step (on_cache (Service.keys deps.client "session:*")) _ w1 w2 ks step2
            ∙ run-step (session_keys_of deps user_id ks) _ w2 w3 own step3
            ∙ step4,
        same4 ∙ same3 ∙ same2 ∙ same1,
        up4,
      )

  module _ (table_laws : UserTableLaws deps.table) where
    delete_found-runs :
        (now : ℕ) (id : String) (w : World D (CacheState R)) (u : User)
        → is_connected w.cache ≡ true
        → table_laws.rows w.db id ≡ some u
        → let gone = apply_data (table_laws.clock w.db) (deleted_at_data (some now)) u in
          (w' : World D (CacheState R)) × (delete_found deps now id (some u) w ≡ (ok gone, w'))
          × (is_connected w'.cache ≡ true)
          × (stored deps redis here laws w' (user_info id) ≡ none)
          × (table_laws.rows w'.db id ≡ some gone)
    unfolding delete_found Repository.soft_delete
    delete_found-runs now id w u up row =
        let change = deleted_at_data (some now) in
        let w0 : World D (CacheState R) = record w { db = (deps.table.update id change w.db).1 } in
        let step : on_db (Repository.soft_delete deps.table id now) w
            ≡ (ok (apply_data (table_laws.clock w.db) change u), w0) =
          ap (λ r. (r, w0)) (table_laws.update w.db id change u row) in
        let (x, w1, quiet, same1, up1) = invalidate_user_sessions-IsQuiet id w0 up in
        let (n, w2, dropped, same2, up2, after) =
          drop_keys-runs deps redis here laws (user_info id) w1 up1 in
        (
          w2,
          run-step (on_db (Repository.soft_delete deps.table id now)) _ w w0 _ step
              ∙ run-step (invalidate_user_sessions deps id) _ w0 w1 x quiet
              ∙ run-step (drop_keys deps (user_info id ∷ [])) _ w1 w2 n dropped,
          up2,
          after (user_info id) ∙ rw (eq_refl (user_info id)) refl,
          ap (λ d. table_laws.rows d id) (same2 ∙ same1)
              ∙ table_laws.rows-update w.db id change id
              ∙ rw (eq_refl id) (rw row refl),
        )

    -- A deletion of an active user through a connected cache that answers succeeds with the row, in
    -- which Prisma has set the time of the update, and the next
    -- look-up finds no user, neither in the cache nor in the table.
    pub find_by_id-soft_delete :
        (now : ℕ) (id : String) (w : World D (CacheState R)) (u : User)
        → is_connected w.cache ≡ true
        → if_active (table_laws.rows w.db id) ≡ some u
        → ((soft_delete deps now id w).0
            ≡ ok (record u { deleted_at = some now; updated_at = date (table_laws.clock w.db) }))
          × ((find_by_id deps id (soft_delete deps now id w).1).0 ≡ ok none)
    unfolding soft_delete Repository.find_by_id keep_found
    find_by_id-soft_delete now id w u up found =
        let (w1, ran, up1, absent, row) =
          delete_found-runs now id w u up
            (active_row deps redis here laws table_laws (table_laws.rows w.db id) u found) in
        let step : on_db (Repository.find_by_id deps.table id) w ≡ (ok (some u), w) =
          ap (λ p. (p.0, record w { db = p.1 })) (table_laws.find_active w.db id) ∙ rw found refl in
        let whole : soft_delete deps now id w ≡ (
          ok (record u { deleted_at = some now; updated_at = date (table_laws.clock w.db) }),
          w1,
        ) =
          run-step (on_db (Repository.find_by_id deps.table id)) (delete_found deps now id) w w
            (some u) step
          ∙ ran in
        let (w2, looked, _) =
          find_by_id-uncached deps redis here laws table_laws id w1 up1 absent in
        (
          ap (λ p. p.0) whole,
          ap (λ p. (find_by_id deps id p.1).0) whole ∙ ap (λ p. p.0) looked ∙ rw row refl,
        )
