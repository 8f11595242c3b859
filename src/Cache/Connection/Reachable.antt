-- ===== src/Cache/Connection/Reachable.antt =====
-- The states of the cache service from its construction on, through starts, ends and calls.
use nestjs_vibe_engine.Prelude.{
  ℕ, String, ◌==◌, ◌≡◌, refl, sym, ap, ◌∙◌, Bool, true, false, Option, none, some, List, [], ◌∷◌,
  is_some, arith, Bool-cases, inl, inr,
}
use nestjs_vibe_engine.Exec.{Exec, Result, Result-cases, ok, err, try_catch}
use nestjs_vibe_engine.Cache.Service.{
  Redis, Json, CacheState, CacheStats, CacheEntry, is_connected, guarded, get, set, del, exists,
  expire, ttl, keys, incr, decr, mget, mset, clear, is_healthy, count_all, count_mget,
}
use nestjs_vibe_engine.Cache.Connection.{
  Ioredis, Config, CacheService, new_service, set_connected, ClusterNode, open_cluster, open_direct,
  open_by_mode, start, on_module_init, on_module_destroy, quit_client,
}

-- A connected service has a client.
abbrev HasClient : {R : Type 0} → CacheService R → Type 0
HasClient s = is_connected s.state ≡ true → is_some s.client ≡ true

-- What a method does to the flag of the connection: nothing.
abbrev KeepsConnected : {R A : Type 0} → (Option (Redis R) → Exec (CacheState R) A) → Type 0
KeepsConnected {R} method =
    (client : Option (Redis R)) (s : CacheState R)
    → is_connected (method client s).1 ≡ is_connected s

module _ {R : Type 0} where
  guarded-connected :
      {A : Type 0} (fallback : A) (command : Redis R → Exec R A)
      → KeepsConnected (λ client. guarded client fallback command)
  unfolding guarded is_connected
  guarded-connected fallback command client s = ground arith

  module _ {T : Type 0} (json : Json T) where
    count_all-connected :
        (client : Option (Redis R)) (values : List (Option String)) (st : CacheStats)
        → (count_all client json values st).1.connected ≡ st.connected
    unfolding count_all
    count_all-connected client [] st = refl
    count_all-connected client (none ∷ values) st = count_all-connected client values _
    count_all-connected client (some v ∷ values) st = count_all-connected client values _

    get-connected : (k : String) → KeepsConnected {R = R} (λ client. get client json k)
    unfolding get is_connected
    get-connected k client s = ground arith

    count_mget-connected :
        (client : Option (Redis R)) (ks : List String) (r : Result (List (Option String)))
        (s : CacheState R)
        → (count_mget client json ks r s).1.stats.connected ≡ s.stats.connected
    count_mget-connected client ks (ok values) s = count_all-connected client values s.stats
    count_mget-connected client ks (err e) s = refl

    mget-connected : (ks : List String) → KeepsConnected {R = R} (λ client. mget client json ks)
    unfolding mget is_connected
    mget-connected [] client s = refl
    mget-connected (k ∷ ks) none s = refl
    mget-connected (k ∷ ks) (some redis) s = ground (
      arith,
      count_mget-connected (some redis) (k ∷ ks) (redis.mget (k ∷ ks) s.redis).0
          (record s { redis = (redis.mget (k ∷ ks) s.redis).1 }),
    )

  clear-connected : KeepsConnected {R = R} clear
  unfolding clear is_connected
  clear-connected client s = ground arith

-- The methods that send a command.
pub data Command (T : Type 0) : Type 0 where
  get_command : (k : String) → Command T
  set_command : (k : String) (value : T) (time : Option ℕ) → Command T
  del_command : (ks : List String) → Command T
  exists_command : (k : String) → Command T
  expire_command : (k : String) (n : ℕ) → Command T
  ttl_command : (k : String) → Command T
  keys_command : (k : String) → Command T
  incr_command : (k : String) → Command T
  decr_command : (k : String) → Command T
  mget_command : (ks : List String) → Command T
  mset_command : (entries : List (CacheEntry T)) → Command T
  clear_command : Command T
  is_healthy_command : Command T

module _ {R T : Type 0} (json : Json T) where
  -- The state after a method.
  abbrev pub after : Command T → Option (Redis R) → CacheState R → CacheState R
  after (get_command k) client s = (get client json k s).1
  after (set_command k value time) client s = (set client json k value time s).1
  after (del_command ks) client s = (del client ks s).1
  after (exists_command k) client s = (exists client k s).1
  after (expire_command k n) client s = (expire client k n s).1
  after (ttl_command k) client s = (ttl client k s).1
  after (keys_command k) client s = (keys client k s).1
  after (incr_command k) client s = (incr client k s).1
  after (decr_command k) client s = (decr client k s).1
  after (mget_command ks) client s = (mget client json ks s).1
  after (mset_command entries) client s = (mset client json entries s).1
  after clear_command client s = (clear client s).1
  after is_healthy_command client s = (is_healthy client s).1

  after-connected :
      (command : Command T) (client : Option (Redis R)) (s : CacheState R)
      → is_connected (after command client s) ≡ is_connected s
  unfolding set del exists expire ttl keys incr decr mset is_healthy
  after-connected (get_command k) client s = get-connected json k client s
  after-connected (set_command k value time) client s = guarded-connected _ _ client s
  after-connected (del_command []) client s = refl
  after-connected (del_command (k ∷ ks)) client s = guarded-connected _ _ client s
  after-connected (exists_command k) client s = guarded-connected _ _ client s
  after-connected (expire_command k n) client s = guarded-connected _ _ client s
  after-connected (ttl_command k) client s = guarded-connected _ _ client s
  after-connected (keys_command k) client s = guarded-connected _ _ client s
  after-connected (incr_command k) client s = guarded-connected _ _ client s
  after-connected (decr_command k) client s = guarded-connected _ _ client s
  after-connected (mget_command ks) client s = mget-connected json ks client s
  after-connected (mset_command []) client s = refl
  after-connected (mset_command (entry ∷ entries)) client s = guarded-connected _ _ client s
  after-connected clear_command client s = clear-connected client s
  after-connected is_healthy_command client s = guarded-connected _ _ client s

  module _ (io : Ioredis R) (config : Config) where
    -- What may happen to the service. Both hooks may run at any time.
    pub data Step : CacheService R → CacheService R → Type 0 where
      initialised : (s : CacheService R) → Step s (on_module_init io config s).1
      destroyed : (s : CacheService R) → Step s (on_module_destroy io config s).1
      called :
          (s : CacheService R) (command : Command T)
          → Step s (record s { state = after command s.client s.state })

    pub data Reach (redis : R) : CacheService R → Type 0 where
      here : Reach redis (new_service config redis)
      next : {s t : CacheService R} → Reach redis s → Step s t → Reach redis t

    open_cluster-HasClient :
        (nodes : List ClusterNode) (s : CacheService R)
        → HasClient (try_catch (open_cluster io config nodes) (λ _. set_connected false) s).1
    unfolding open_cluster is_connected
    open_cluster-HasClient [] s h = cc
    open_cluster-HasClient (node ∷ nodes) s h = ground arith

    open_direct-HasClient :
        (s : CacheService R)
        → HasClient (try_catch (open_direct io config) (λ _. set_connected false) s).1
    unfolding open_direct is_connected
    open_direct-HasClient s h = ground arith

    start-HasClient :
        (enabled : Bool) (mode : String) (s : CacheService R)
        → HasClient s
        → HasClient (start io config enabled mode s).1
    unfolding start open_by_mode
    start-HasClient false mode s h = h
    start-HasClient true mode s h = elim (Bool-cases (mode == "cluster")) [
      | inl c ↦ rw c (open_cluster-HasClient _ s)
      | inr c ↦ rw c (open_direct-HasClient s)
    ]

    quit_client-flag :
        (client : Redis R) (s : CacheService R)
        → is_connected (quit_client io config (some client) s).1.state ≡ true
        → (is_connected s.state ≡ true)
          × ((quit_client io config (some client) s).1.client ≡ s.client)
    unfolding is_connected
    quit_client-flag client s up = elim (Result-cases (io.quit client s.state.redis).0) [
      | inl (u, e) ↦ absurd (cc (up, e))
      | inr (x, e) ↦ (ground (arith, up, e), ground (arith, e))
    ]

    quit_client-HasClient :
        (client : Option (Redis R)) (s : CacheService R)
        → HasClient s
        → HasClient (quit_client io config client s).1
    quit_client-HasClient none s h = h
    quit_client-HasClient (some client) s h =
        λ up. let (was_up, same) = quit_client-flag client s up in ap is_some same ∙ h was_up

    Step-HasClient : {s t : CacheService R} → Step s t → HasClient s → HasClient t
    unfolding on_module_init on_module_destroy
    Step-HasClient (initialised s) h = start-HasClient s.enabled s.mode s h
    Step-HasClient (destroyed s) h = quit_client-HasClient s.client s h
    Step-HasClient (called s command) h =
        λ up. h (sym (after-connected command s.client s.state) ∙ up)

    reached : {redis : R} {s : CacheService R} → Reach redis s → HasClient s
    unfolding new_service is_connected
    reached here = λ up. absurd (cc)
    reached (next r st) = Step-HasClient st (reached r)

    -- In every state that constructions, starts, ends and calls reach, a service that counts as
    -- connected has a client to send its commands to.
    pub Reach-HasClient :
        {redis : R} {s : CacheService R}
        → Reach redis s
        → is_connected s.state ≡ true
        → is_some s.client ≡ true
    Reach-HasClient r up = reached r up
