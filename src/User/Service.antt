-- ===== src/User/Service.antt =====
-- src/user/user.service.ts, over the repository and the modelled cache service. Encryption is a
-- parameter; a `nonce` stands for the random bytes of one call. Log output is left out.
use nestjs_vibe_engine.Prelude.{
  ℕ, String, Bool, false, Option, none, some, List, [], ◌∷◌, ◌==◌, if◌then◌else◌,
}
use nestjs_vibe_engine.Js.Text.{key}
use nestjs_vibe_engine.Exec.{Exec, World, pure, throw, http, failure, on_db, on_cache, ◌>>=◌, ◌>>◌}
use nestjs_vibe_engine.Cache.Service
use nestjs_vibe_engine.Cache.Service.{Redis, Json, CacheState}
use nestjs_vibe_engine.User.Repository
use nestjs_vibe_engine.User.Repository.{User, UserTable, Stamp, date, iso_text}

pub record Encryption : Type 0 where
  pub encrypt : (nonce text : String) → String
  -- none where decryption throws
  pub decrypt : String → Option String

-- The part of a cached session that is read.
pub record SessionData : Type 0 where
  pub user_id : Option String

pub record UserDeps (D R : Type 0) : Type 0 where
  pub table : UserTable D
  pub client : Option (Redis R)
  pub user_json : Json User
  pub session_json : Json SessionData
  pub encryption : Encryption
  -- date.toISOString()
  pub iso : ℕ → String

pub record CreateUserData : Type 0 where
  pub google_id : String
  pub email : String
  pub name : String
  pub picture : Option String

pub record UserProfile : Type 0 where
  pub id : String
  pub email : String
  pub name : String
  pub picture : Option String
  pub created_at : String
  pub updated_at : String

abbrev pub user_info : String → String
user_info id = key "user_info" id

abbrev pub user_session : String → String
user_session id = key "user_session" id

abbrev pub user_info_ttl : ℕ
user_info_ttl = 3600

abbrev pub or_else : String → Option String → String
or_else other none = other
or_else other (some t) = t

abbrev pub belongs_to : String → Option SessionData → Bool
belongs_to user_id none = false
belongs_to user_id (some s) = elim s.user_id [ none ↦ false | some u ↦ u == user_id ]

module _ {D R : Type 0} (deps : UserDeps D R) where
  abbrev pub cached_user : String → Exec (World D (CacheState R)) (Option User)
  cached_user k = on_cache (Service.get deps.client deps.user_json k)

  abbrev pub store_user : String → User → Exec (World D (CacheState R)) Bool
  store_user k user = on_cache (Service.set deps.client deps.user_json k user (some user_info_ttl))

  abbrev pub drop_keys : List String → Exec (World D (CacheState R)) ℕ
  drop_keys ks = on_cache (Service.del deps.client ks)

  -- Behind the look-up in the table.
  unfoldable pub keep_found : String → Option User → Exec (World D (CacheState R)) (Option User)
  keep_found id none = pure none
  keep_found id (some user) = store_user (user_info id) user >> pure (some user)

  -- Behind the look-up in the cache.
  unfoldable pub or_from_table : String → Option User → Exec (World D (CacheState R)) (Option User)
  or_from_table id (some user) = pure (some user)
  or_from_table id none = on_db (Repository.find_by_id deps.table id) >>= keep_found id

  unfoldable pub find_by_id : String → Exec (World D (CacheState R)) (Option User)
  find_by_id id = cached_user (user_info id) >>= or_from_table id

  unfoldable pub find_by_email : String → String → Exec (World D (CacheState R)) (Option User)
  find_by_email nonce email =
      on_db (Repository.find_by_email deps.table (deps.encryption.encrypt nonce email))

  unfoldable pub find_by_google_id : String → Exec (World D (CacheState R)) (Option User)
  find_by_google_id google_id = on_db (Repository.find_by_google_id deps.table google_id)

  unfoldable pub create : String → CreateUserData → Exec (World D (CacheState R)) User
  create nonce new = do
    user ← on_db (
        Repository.create deps.table (record {
          google_id = new.google_id;
          email = deps.encryption.encrypt nonce new.email;
          name = new.name;
          picture = new.picture;
        }))
    store_user (user_info user.id) user
    pure user

  -- Behind the look-up of the user.
  unfoldable pub update_found :
      ℕ
      → String
      → Option String
      → Option (Option String)
      → Option User
      → Exec (World D (CacheState R)) User
  update_found now id name picture none = throw (http 404 "User not found")
  update_found now id name picture (some existing) = do
    updated ← on_db (Repository.update deps.table id name picture now)
    drop_keys (user_info id ∷ [])
    store_user (user_info id) updated
    pure updated

  unfoldable pub update :
      ℕ → String → Option String → Option (Option String) → Exec (World D (CacheState R)) User
  update now id name picture =
      on_db (Repository.find_by_id deps.table id) >>= update_found now id name picture

  -- The loop of `invalidateUserSessions`: the keys whose session is the user's.
  unfoldable pub session_keys_of :
      String → List String → Exec (World D (CacheState R)) (List String)
  session_keys_of user_id [] = pure []
  session_keys_of user_id (k ∷ ks) =
      let rest = session_keys_of user_id ks in
      do
        session ← on_cache (Service.get deps.client deps.session_json k)
        found ← rest
        pure (if belongs_to user_id session then k ∷ found else found)

  abbrev pub drop_any : List String → Exec (World D (CacheState R)) (Unit {0})
  drop_any [] = pure tt
  drop_any (k ∷ ks) = drop_keys (k ∷ ks) >> pure tt

  unfoldable pub invalidate_user_sessions : String → Exec (World D (CacheState R)) (Unit {0})
  invalidate_user_sessions user_id = do
    drop_keys (user_session user_id ∷ [])
    session_keys ← on_cache (Service.keys deps.client "session:*")
    user_session_keys ← session_keys_of user_id session_keys
    drop_any user_session_keys

  unfoldable pub delete_found : ℕ → String → Option User → Exec (World D (CacheState R)) User
  delete_found now id none = throw (http 404 "User not found")
  delete_found now id (some existing) = do
    deleted ← on_db (Repository.soft_delete deps.table id now)
    invalidate_user_sessions id
    drop_keys (user_info id ∷ [])
    pure deleted

  unfoldable pub soft_delete : ℕ → String → Exec (World D (CacheState R)) User
  soft_delete now id = on_db (Repository.find_by_id deps.table id) >>= delete_found now id

  unfoldable pub restore_found : String → Option User → Exec (World D (CacheState R)) User
  restore_found id none = throw (http 404 "Deleted user not found")
  restore_found id (some deleted) = do
    restored ← on_db (Repository.restore deps.table id)
    store_user (user_info id) restored
    pure restored

  unfoldable pub restore : String → Exec (World D (CacheState R)) User
  restore id = on_db (Repository.find_deleted_by_id deps.table id) >>= restore_found id

  -- A text has no method `toISOString`.
  unfoldable pub to_iso_string : Stamp → Exec (World D (CacheState R)) String
  to_iso_string (date t) = pure (deps.iso t)
  to_iso_string (iso_text s) = throw (failure "toISOString is not a function")

  unfoldable pub profile_of : Option User → Exec (World D (CacheState R)) UserProfile
  profile_of none = throw (http 404 "User not found")
  profile_of (some user) = do
    created_at ← to_iso_string user.created_at
    updated_at ← to_iso_string user.updated_at
    pure (record {
      id = user.id;
      email = or_else user.email (deps.encryption.decrypt user.email);
      name = user.name;
      picture = user.picture;
      created_at = created_at;
      updated_at = updated_at;
    })

  unfoldable pub get_profile : String → Exec (World D (CacheState R)) UserProfile
  get_profile id = find_by_id id >>= profile_of
