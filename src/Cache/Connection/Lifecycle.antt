-- ===== src/Cache/Connection/Lifecycle.antt =====
-- When the cache service is connected, and what its methods do when it is not.
use nestjs_vibe_engine.Prelude.{
  ℕ, String, ◌==◌, ◌≡◌, refl, ap, ◌∙◌, Bool, true, false, ◌&&◌, Option, none, List, [], ◌∷◌, map,
  if◌then◌else◌, arith, Bool-cases, inl, inr,
}
use nestjs_vibe_engine.Js.Int.{pos}
use nestjs_vibe_engine.Exec.{Exec, ok, try_catch, ◌>>=◌}
use nestjs_vibe_engine.Cache.Service.{Json, is_connected, get, set, del, exists, mget, incr}
use nestjs_vibe_engine.Cache.Fallbacks.{is_ok, when_down}
use nestjs_vibe_engine.Cache.Connection.{
  ClusterNode, Ioredis, Config, text_or, given_password, parse_nodes, CacheService, new_service,
  set_connected, open_cluster, open_direct, open_by_mode, start, on_module_init, call,
}

module _ {R : Type 0} (io : Ioredis R) (config : Config) where
  -- Whether a cluster and a single server can be opened in a state of the server.
  abbrev pub cluster_opens : List ClusterNode → R → Bool
  cluster_opens [] redis = false
  cluster_opens (node ∷ nodes) redis =
      is_ok (io.new_cluster (node ∷ nodes) (given_password (config "REDIS_PASSWORD")) redis).0

  abbrev pub server_connects : R → Bool
  server_connects redis =
      is_ok
        ((io.new_redis (text_or "localhost" (config "REDIS_HOST"))
              (text_or "6379" (config "REDIS_PORT")) (given_password (config "REDIS_PASSWORD"))
            >>= io.connect)
          redis).0

  abbrev pub opens : String → R → Bool
  opens mode redis =
      if mode == "cluster"
      then cluster_opens (parse_nodes (text_or "" (config "REDIS_CLUSTER_NODES"))) redis
      else server_connects redis

  abbrev caught : Exec (CacheService R) (Unit {0}) → Exec (CacheService R) (Unit {0})
  caught m = try_catch m (λ _. set_connected false)

  open_cluster-connected :
      (nodes : List ClusterNode) (s : CacheService R)
      → ((caught (open_cluster io config nodes) s).0 ≡ ok tt)
        × (is_connected (caught (open_cluster io config nodes) s).1.state
            ≡ cluster_opens nodes s.state.redis)
  unfolding open_cluster is_connected
  open_cluster-connected [] s = (refl, refl)
  open_cluster-connected (node ∷ nodes) s = ground arith

  open_direct-connected :
      (s : CacheService R)
      → ((caught (open_direct io config) s).0 ≡ ok tt)
        × (is_connected (caught (open_direct io config) s).1.state ≡ server_connects s.state.redis)
  unfolding open_direct is_connected
  open_direct-connected s = ground arith

  start-connected :
      (enabled : Bool) (mode : String) (s : CacheService R)
      → ((start io config enabled mode s).0 ≡ ok tt)
        × (is_connected (start io config enabled mode s).1.state
            ≡ (if enabled then opens mode s.state.redis else is_connected s.state))
  unfolding start open_by_mode
  start-connected false mode s = (refl, refl)
  start-connected true mode s = elim (Bool-cases (mode == "cluster")) [
    | inl c ↦ rw c (open_cluster-connected _ s)
    | inr c ↦ rw c (open_direct-connected s)
  ]

  -- The start never fails. Afterwards the service is connected exactly if it is enabled and, in
  -- cluster mode, nodes are configured and the client could be made, in any other mode, the server
  -- let it connect. A service that is not enabled is connected as before.
  pub on_module_init-connected :
      (s : CacheService R)
      → ((on_module_init io config s).0 ≡ ok tt)
        × (is_connected (on_module_init io config s).1.state
            ≡ (if s.enabled then opens s.mode s.state.redis else is_connected s.state))
  unfolding on_module_init
  on_module_init-connected s = start-connected s.enabled s.mode s

  -- A service that is not enabled, or whose Redis could not be opened, starts all the same: reads
  -- then find nothing, writes and tests answer false, and counters answer 0.
  pub failed_start_falls_back :
      {T : Type 0} (json : Json T) (redis : R) (k : String) (ks : List String) (value : T)
      (time : Option ℕ)
      → let s = new_service config redis in
        (s.enabled && opens s.mode redis) ≡ false
        → let s1 = (on_module_init io config s).1 in
          ((call (λ client. get client json k) s1).0 ≡ ok none)
          × ((call (λ client. mget client json ks) s1).0 ≡ ok (map (λ _. none) ks))
          × ((call (λ client. set client json k value time) s1).0 ≡ ok false)
          × ((call (λ client. exists client k) s1).0 ≡ ok false)
          × ((call (λ client. del client ks) s1).0 ≡ ok 0)
          × ((call (λ client. incr client k) s1).0 ≡ ok (pos 0))
  unfolding new_service is_connected
  failed_start_falls_back json redis k ks value time closed =
      let s = new_service config redis in
      let s1 = (on_module_init io config s).1 in
      let down : is_connected s1.state ≡ false =
        (on_module_init-connected s).1 ∙ disconnected s.enabled (opens s.mode redis) closed in
      let (g, w, d, e, _, _, _, i, _, m, _, _) =
        when_down s1.client json k ks 0 value time s1.state down in
      (
        ap (λ r. r.0) g,
        ap (λ r. r.0) m,
        ap (λ r. r.0) w,
        ap (λ r. r.0) e,
        ap (λ r. r.0) d,
        ap (λ r. r.0) i,
      )
    where
      disconnected :
          (enabled opened : Bool)
          → (enabled && opened) ≡ false
          → (if enabled then opened else false) ≡ false
      disconnected enabled opened h = ground arith
