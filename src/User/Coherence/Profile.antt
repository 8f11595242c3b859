-- ===== src/User/Coherence/Profile.antt =====
-- `getProfile` before and after the user is cached.
use nestjs_vibe_engine.Prelude.{ℕ, String, ◌≡◌, refl, ◌∙◌, ap, true, none, some, eq_refl}
use nestjs_vibe_engine.Exec.{World, ok, err, failure, run-step}
use nestjs_vibe_engine.Cache.Service.{Redis, CacheState, is_connected}
use nestjs_vibe_engine.Cache.Laws.{RedisLaws}
use nestjs_vibe_engine.User.Repository.{User, date, iso_text}
use nestjs_vibe_engine.User.Service.{
  UserDeps, UserProfile, or_else, user_info, find_by_id, keep_found, or_from_table, get_profile,
  profile_of, to_iso_string, store_user,
}
use nestjs_vibe_engine.User.Laws.{UserTableLaws, if_active}
use nestjs_vibe_engine.User.Coherence.{
  stored, store_user-runs, find_by_id-uncached, find_by_id-runs,
}

module _ {D R : Type 0} (deps : UserDeps D R) where
  pub profile_of_dates :
      (u : User) (t t' : ℕ) (w : World D (CacheState R))
      → u.created_at ≡ date t
      → u.updated_at ≡ date t'
      → (p : UserProfile) × (profile_of deps (some u) w ≡ (ok p, w))
  unfolding profile_of to_iso_string
  profile_of_dates u t t' w e e' = (
    record {
      id = u.id;
      email = or_else u.email (deps.encryption.decrypt u.email);
      name = u.name;
      picture = u.picture;
      created_at = deps.iso t;
      updated_at = deps.iso t';
    },
    rw e (rw e' refl),
  )

  pub profile_of_text :
      (v : User) (s : String) (w : World D (CacheState R))
      → v.created_at ≡ iso_text s
      → profile_of deps (some v) w ≡ (err (failure "toISOString is not a function"), w)
  unfolding profile_of to_iso_string
  profile_of_text v s w e = rw e refl

module _ {D R : Type 0} (deps : UserDeps D R) (redis : Redis R) (here : deps.client ≡ some redis)
    (laws : RedisLaws redis) (table_laws : UserTableLaws deps.table) where
  found_in_table :
      (id : String) (w : World D (CacheState R)) (u : User)
      → is_connected w.cache ≡ true
      → stored deps redis here laws w (user_info id) ≡ none
      → if_active (table_laws.rows w.db id) ≡ some u
      → (w' : World D (CacheState R)) × (find_by_id deps id w ≡ (ok (some u), w'))
        × (is_connected w'.cache ≡ true)
        × (stored deps redis here laws w' (user_info id) ≡ some (deps.user_json.stringify u))
  unfolding keep_found
  found_in_table id w u up absent found =
      let (w1, ran, up1) = find_by_id-uncached deps redis here laws table_laws id w up absent in
      let (b, w2, kept, _, up2, after) =
        store_user-runs deps redis here laws (user_info id) u w1 up1 in
      (
        w2,
        ran ∙ rw found (run-step (store_user deps (user_info id) u) _ w1 w2 b kept),
        up2,
        after (user_info id) ∙ rw (eq_refl (user_info id)) refl,
      )

  -- With a connected cache that answers: if an active user is not cached and JSON reads its creation
  -- time back as a text, the first request for the profile succeeds and caches the user, and the
  -- second one fails on that text.
  pub second_profile_fails :
      (id : String) (w : World D (CacheState R)) (u v : User) (t t' : ℕ) (s : String)
      → is_connected w.cache ≡ true
      → stored deps redis here laws w (user_info id) ≡ none
      → if_active (table_laws.rows w.db id) ≡ some u
      → u.created_at ≡ date t
      → u.updated_at ≡ date t'
      → deps.user_json.parse (deps.user_json.stringify u) ≡ some (some v)
      → v.created_at ≡ iso_text s
      → ((p : UserProfile) × ((get_profile deps id w).0 ≡ ok p))
        × ((get_profile deps id (get_profile deps id w).1).0
            ≡ err (failure "toISOString is not a function"))
  unfolding get_profile or_from_table
  second_profile_fails id w u v t t' s up absent found e e' reads text =
      let (w1, ran, up1, kept) = found_in_table id w u up absent found in
      let (p, done) = profile_of_dates deps u t t' w1 e e' in
      let (w2, again, _, up2) = find_by_id-runs deps redis here laws table_laws id w1 up1 in
      let first : get_profile deps id w ≡ (ok p, w1) =
        run-step (find_by_id deps id) (profile_of deps) w w1 (some u) ran ∙ done in
      let hit_again : find_by_id deps id w1 ≡ (ok (some v), w2) = again ∙ rw kept (rw reads refl) in
      (
        (p, ap (λ r. r.0) first),
        ap (λ r. (get_profile deps id r.1).0) first
            ∙ ap (λ r. r.0)
                (run-step (find_by_id deps id) (profile_of deps) w1 w2 (some v) hit_again)
            ∙ ap (λ r. r.0) (profile_of_text deps v s w2 text),
      )
