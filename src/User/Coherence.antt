-- ===== src/User/Coherence.antt =====
-- The cache of users against the table: what is read after a change.
pub mod Deletion
pub mod Profile
use nestjs_vibe_engine.Prelude.{
  ℕ, String, ◌≡◌, refl, ◌∙◌, ap, sym, Option-cases, inl, inr, Bool, true, false, Option, none, some,
  List, [], ◌∷◌, ◌==◌, if◌then◌else◌, arith, eq_refl, any,
}
use nestjs_vibe_engine.Exec.{Exec, World, on_db, run-step, ok, err, failure, pure, ◌>>=◌, ◌>>◌}
use nestjs_vibe_engine.Cache.Service
use nestjs_vibe_engine.Cache.Service.{
  Redis, Json, CacheState, is_connected, guarded, hit, miss, positive_ttl, send_set,
}
use nestjs_vibe_engine.Cache.Laws.{RedisLaws}
use nestjs_vibe_engine.Cache.Storage.{guarded-runs, send_set-stored, get-stored, decoded}
use nestjs_vibe_engine.User.Repository
use nestjs_vibe_engine.User.Repository.{User, UserTable, iso_text, changed, deleted_at_data}
use nestjs_vibe_engine.User.Service.{
  UserDeps, UserProfile, cached_user, store_user, drop_keys, user_info, find_by_id, update,
  soft_delete, get_profile, update_found, keep_found, or_from_table, invalidate_user_sessions,
  session_keys_of,
}
use nestjs_vibe_engine.User.Laws.{UserTableLaws, apply_data, if_active}

module _ {R T : Type 0} (redis : Redis R) (laws : RedisLaws redis) (json : Json T) where
  pub get-runs :
      (k : String) (c : CacheState R)
      → is_connected c ≡ true
      → (c' : CacheState R) × (Service.get (some redis) json k c
          ≡ (ok (decoded redis laws json (laws.stored c.redis k)), c'))
        × (c'.redis ≡ c.redis)
        × (is_connected c' ≡ true)
  unfolding Service.get is_connected
  get-runs k c up = elim (Option-cases (laws.stored c.redis k)) [
    | inl e ↦
        (record c { stats = miss c.stats }, rw up (rw (laws.get c.redis k) (rw e refl)), refl, up)
    | inr (t, e) ↦
        (record c { stats = hit c.stats }, rw up (rw (laws.get c.redis k) (rw e refl)), refl, up)
  ]

module _ {D R : Type 0} (deps : UserDeps D R) (redis : Redis R) (here : deps.client ≡ some redis)
    (laws : RedisLaws redis) where
  abbrev pub stored : World D (CacheState R) → String → Option String
  stored w k = laws.stored w.cache.redis k

  pub cached_user-runs :
      (k : String) (w : World D (CacheState R))
      → is_connected w.cache ≡ true
      → (w' : World D (CacheState R)) × (cached_user deps k w
          ≡ (ok (decoded redis laws deps.user_json (stored w k)), w'))
        × (w'.db ≡ w.db)
        × (w'.cache.redis ≡ w.cache.redis)
        × (is_connected w'.cache ≡ true)
  cached_user-runs k w up =
      let (c', e, same, up') = get-runs redis laws deps.user_json k w.cache up in
      (
        record w { cache = c' },
        rw here (ap (λ p. (p.0, record w { cache = p.1 })) e),
        refl,
        same,
        up',
      )

  pub store_user-runs :
      (k : String) (user : User) (w : World D (CacheState R))
      → is_connected w.cache ≡ true
      → (b : Bool) × (w' : World D (CacheState R)) × (store_user deps k user w ≡ (ok b, w'))
        × (w'.db ≡ w.db)
        × (is_connected w'.cache ≡ true)
        × ((j : String)
            → stored w' j ≡ (if k == j then some (deps.user_json.stringify user) else stored w j))
  unfolding Service.set is_connected
  store_user-runs k user w up =
      let text = deps.user_json.stringify user in
      let (b, e) =
        guarded-runs redis false (λ redis. redis.set_ex k text 3600 >> pure true) w.cache up in
      (
        b,
        record w { cache = record w.cache { redis = (redis.set_ex k text 3600 w.cache.redis).1 } },
        rw here (
            ap (λ p. (p.0, record w { cache = p.1 }))
              (e ∙ rw (laws.set_ex w.cache.redis k text 3600) refl)),
        refl,
        up,
        laws.stored-set_ex w.cache.redis k text 3600,
      )

  pub drop_keys-runs :
      (k : String) (w : World D (CacheState R))
      → is_connected w.cache ≡ true
      → (n : ℕ) × (w' : World D (CacheState R)) × (drop_keys deps (k ∷ []) w ≡ (ok n, w'))
        × (w'.db ≡ w.db)
        × (is_connected w'.cache ≡ true)
        × ((j : String) → stored w' j ≡ (if any (λ i. i == j) (k ∷ []) then none else stored w j))
  unfolding Service.del is_connected
  drop_keys-runs k w up =
      let (n, e) = guarded-runs redis 0 (λ redis. redis.del (k ∷ [])) w.cache up in
      (
        n,
        record w { cache = record w.cache { redis = (redis.del (k ∷ []) w.cache.redis).1 } },
        rw here (ap (λ p. (p.0, record w { cache = p.1 })) e),
        refl,
        up,
        laws.stored-del w.cache.redis (k ∷ []),
      )

  module _ (table_laws : UserTableLaws deps.table) where
    pub find_by_id-runs :
        (id : String) (w : World D (CacheState R))
        → is_connected w.cache ≡ true
        → (w' : World D (CacheState R)) × (find_by_id deps id w
            ≡ or_from_table deps id
                (decoded redis laws deps.user_json (stored w (user_info id)))
                w')
          × (w'.db ≡ w.db)
          × (is_connected w'.cache ≡ true)
    unfolding find_by_id
    find_by_id-runs id w up =
        let (w', run, same, _, up') = cached_user-runs (user_info id) w up in
        (
          w',
          run-step (cached_user deps (user_info id)) (or_from_table deps id) w w' _ run,
          same,
          up',
        )

    -- The look-up, by what the cache has.
    pub find_by_id-cached :
        (id : String) (w : World D (CacheState R)) (text : String) (u : User)
        → is_connected w.cache ≡ true
        → stored w (user_info id) ≡ some text
        → deps.user_json.parse text ≡ some (some u)
        → (find_by_id deps id w).0 ≡ ok (some u)
    unfolding or_from_table
    find_by_id-cached id w text u up e parsed =
        let (w', run, _, _) = find_by_id-runs id w up in rw run (rw e (rw parsed refl))

    from_table :
        (id : String) (w : World D (CacheState R))
        → or_from_table deps id none w ≡ keep_found deps id (if_active (table_laws.rows w.db id)) w
    unfolding or_from_table Repository.find_by_id
    from_table id w =
        run-step (on_db (Repository.find_by_id deps.table id)) (keep_found deps id) w w _
          (ap (λ p. (p.0, record w { db = p.1 })) (table_laws.find_active w.db id))

    pub find_by_id-uncached :
        (id : String) (w : World D (CacheState R))
        → is_connected w.cache ≡ true
        → stored w (user_info id) ≡ none
        → (w' : World D (CacheState R)) × (find_by_id deps id w
            ≡ keep_found deps id (if_active (table_laws.rows w.db id)) w')
          × (is_connected w'.cache ≡ true)
    find_by_id-uncached id w up e =
        let (w', run, same, up') = find_by_id-runs id w up in
        (w', run ∙ rw e (from_table id w' ∙ rw same refl), up')

    pub active_row : (row : Option User) (u : User) → if_active row ≡ some u → row ≡ some u
    active_row none u e = absurd (ground arith)
    active_row (some v) u e = ground arith

    update_found-runs :
        (now : ℕ) (id : String) (name : Option String) (picture : Option (Option String))
        (w : World D (CacheState R)) (u : User)
        → is_connected w.cache ≡ true
        → table_laws.rows w.db id ≡ some u
        → let new = apply_data (table_laws.clock w.db) (changed name picture now) u in
          (w' : World D (CacheState R)) × (update_found deps now id name picture (some u) w
            ≡ (ok new, w'))
          × (is_connected w'.cache ≡ true)
          × (stored w' (user_info id) ≡ some (deps.user_json.stringify new))
          × (w'.db ≡ (deps.table.update id (changed name picture now) w.db).1)
    unfolding update_found Repository.update
    update_found-runs now id name picture w u up row =
        let new = apply_data (table_laws.clock w.db) (changed name picture now) u in
        let w0 : World D (CacheState R) = record w {
          db = (deps.table.update id (changed name picture now) w.db).1;
        } in
        let (n, w1, dropped, same1, up1, _) = drop_keys-runs (user_info id) w0 up in
        let (b, w2, kept, same2, up2, after) = store_user-runs (user_info id) new w1 up1 in
        let step : on_db (Repository.update deps.table id name picture now) w ≡ (ok new, w0) =
          ap (λ r. (r, w0)) (table_laws.update w.db id (changed name picture now) u row) in
        (
          w2,
          run-step (on_db (Repository.update deps.table id name picture now)) _ w w0 new step
              ∙ run-step (drop_keys deps (user_info id ∷ [])) _ w0 w1 n dropped
              ∙ run-step (store_user deps (user_info id) new) _ w1 w2 b kept,
          up2,
          after (user_info id) ∙ rw (eq_refl (user_info id)) refl,
          same2 ∙ same1,
        )

    pub update-runs :
        (now : ℕ) (id : String) (name : Option String) (picture : Option (Option String))
        (w : World D (CacheState R)) (u : User)
        → is_connected w.cache ≡ true
        → if_active (table_laws.rows w.db id) ≡ some u
        → let new = apply_data (table_laws.clock w.db) (changed name picture now) u in
          (w' : World D (CacheState R)) × (update deps now id name picture w ≡ (ok new, w'))
          × (is_connected w'.cache ≡ true)
          × (stored w' (user_info id) ≡ some (deps.user_json.stringify new))
          × (w'.db ≡ (deps.table.update id (changed name picture now) w.db).1)
    unfolding Repository.find_by_id update
    update-runs now id name picture w u up found =
        let (w2, ran, up2, kept, same) =
          update_found-runs now id name picture w u up (active_row _ u found) in
        let step : on_db (Repository.find_by_id deps.table id) w ≡ (ok (some u), w) =
          ap (λ p. (p.0, record w { db = p.1 })) (table_laws.find_active w.db id) ∙ rw found refl in
        (
          w2,
          run-step (on_db (Repository.find_by_id deps.table id))
                (update_found deps now id name picture) w w (some u) step
              ∙ ran,
          up2,
          kept,
          same,
        )

    -- An update of an active user through a connected cache that answers succeeds with the changed
    -- row, and the next look-up answers that row in the form in which JSON reads it back.
    pub find_by_id-update :
        (now : ℕ) (id : String) (name : Option String) (picture : Option (Option String))
        (w : World D (CacheState R)) (u v : User)
        → is_connected w.cache ≡ true
        → if_active (table_laws.rows w.db id) ≡ some u
        → deps.user_json.parse (
            deps.user_json.stringify
              (apply_data (table_laws.clock w.db) (changed name picture now) u))
          ≡ some (some v)
        → ((update deps now id name picture w).0
            ≡ ok (apply_data (table_laws.clock w.db) (changed name picture now) u))
          × ((find_by_id deps id (update deps now id name picture w).1).0 ≡ ok (some v))
    find_by_id-update now id name picture w u v up found reads =
        let (w2, whole, up2, kept, _) = update-runs now id name picture w u up found in
        (
          ap (λ p. p.0) whole,
          ap (λ p. (find_by_id deps id p.1).0) whole ∙ find_by_id-cached id w2 _ v up2 kept reads,
        )
