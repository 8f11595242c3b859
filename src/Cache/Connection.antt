-- ===== src/Cache/Connection.antt =====
-- The connection of src/core/cache/cache.service.ts: its constructor, `onModuleInit`,
-- `onModuleDestroy` and the getters. ioredis is a parameter; log output is left out.
pub mod Lifecycle
pub mod Reachable
use nestjs_vibe_engine.Prelude.{
  ℕ, String, ◌==◌, Bool, true, false, not, Option, none, some, List, [], ◌∷◌, map, if◌then◌else◌,
}
use nestjs_vibe_engine.Js.Text.{split, trim}
use nestjs_vibe_engine.Exec.{Exec, ok, pure, try_catch, ◌>>=◌, ◌>>◌}
use nestjs_vibe_engine.Cache.Service.{CacheStats, Redis, CacheState}
use nestjs_vibe_engine.Setup.Mysql.{parse_int}

-- none: NaN, or undefined where the source has no text to read
pub record ClusterNode : Type 0 where
  pub host : String
  pub port : Option ℕ

-- What is called of ioredis besides the commands, on a state `R` of the server.
pub record Ioredis (R : Type 0) : Type 0 where
  pub new_cluster : List ClusterNode → Option String → Exec R (Redis R)
  pub new_redis : String → String → Option String → Exec R (Redis R)
  pub connect : Redis R → Exec R (Unit {0})
  pub quit : Redis R → Exec R (Unit {0})

-- ConfigService: the text of a key, none where it is not set.
abbrev pub Config : Type 0
Config = String → Option String

abbrev pub text_or : String → Option String → String
text_or fallback none = fallback
text_or fallback (some t) = t

-- configService.get('REDIS_PASSWORD') || undefined
abbrev pub given_password : Option String → Option String
given_password none = none
given_password (some t) = if t == "" then none else some t

-- const [host, port] = parts
abbrev pub node_of_parts : List String → ClusterNode
node_of_parts [] = record { host = ""; port = none }
node_of_parts (host ∷ []) = record { host = host; port = none }
node_of_parts (host ∷ port ∷ parts) = record { host = host; port = parse_int port }

abbrev pub parse_node : String → ClusterNode
parse_node node = node_of_parts (split ":" (trim node))

-- nodes.filter(Boolean).map(...)
unfoldable pub nodes_of : List String → List ClusterNode
nodes_of [] = []
nodes_of (node ∷ nodes) =
    let rest = nodes_of nodes in if node == "" then rest else parse_node node ∷ rest

unfoldable pub parse_nodes : String → List ClusterNode
parse_nodes nodes_config = nodes_of (split "," nodes_config)

-- The fields of the service.
pub record CacheService (R : Type 0) : Type 0 where
  pub client : Option (Redis R)
  pub state : CacheState R
  pub mode : String
  pub enabled : Bool

unfoldable pub new_service : {R : Type 0} → Config → R → CacheService R
new_service config redis = record {
  client = none;
  state = record {
    redis = redis;
    stats = record { hits = 0; misses = 0; keys = 0; connected = false };
  };
  mode = text_or "direct" (config "REDIS_MODE");
  enabled = not (text_or "true" (config "REDIS_ENABLED") == "false");
}

module _ {R : Type 0} where
  abbrev pub set_connected : Bool → Exec (CacheService R) (Unit {0})
  set_connected b s = (
    ok tt,
    record s { state = record s.state { stats = record s.state.stats { connected = b } } },
  )

  abbrev pub set_client : Redis R → Exec (CacheService R) (Unit {0})
  set_client client s = (ok tt, record s { client = some client })

  unfoldable pub get_stats : CacheService R → CacheStats
  get_stats s = s.state.stats

  unfoldable pub get_mode : CacheService R → String
  get_mode s = s.mode

  unfoldable pub is_enabled : CacheService R → Bool
  is_enabled s = s.enabled

module _ {R A : Type 0} where
  abbrev pub on_server : Exec R A → Exec (CacheService R) A
  on_server m s =
      ((m s.state.redis).0, record s { state = record s.state { redis = (m s.state.redis).1 } })

  -- A method of Cache/Service.
  abbrev pub call : (Option (Redis R) → Exec (CacheState R) A) → Exec (CacheService R) A
  call method s = ((method s.client s.state).0, record s { state = (method s.client s.state).1 })

module _ {R : Type 0} (io : Ioredis R) (config : Config) where
  unfoldable pub open_cluster : List ClusterNode → Exec (CacheService R) (Unit {0})
  open_cluster [] = set_connected false
  open_cluster (node ∷ nodes) = do
    client ← on_server (io.new_cluster (node ∷ nodes) (given_password (config "REDIS_PASSWORD")))
    set_client client
    set_connected true

  unfoldable pub open_direct : Exec (CacheService R) (Unit {0})
  open_direct = do
    client ← on_server (
        io.new_redis (text_or "localhost" (config "REDIS_HOST"))
          (text_or "6379" (config "REDIS_PORT")) (given_password (config "REDIS_PASSWORD")))
    set_client client
    on_server (io.connect client)
    set_connected true

  unfoldable pub open_by_mode : String → Exec (CacheService R) (Unit {0})
  open_by_mode mode =
      if mode == "cluster"
      then open_cluster (parse_nodes (text_or "" (config "REDIS_CLUSTER_NODES")))
      else open_direct

  unfoldable pub start : Bool → String → Exec (CacheService R) (Unit {0})
  start enabled mode =
      if enabled then try_catch (open_by_mode mode) (λ _. set_connected false) else pure tt

  unfoldable pub on_module_init : Exec (CacheService R) (Unit {0})
  on_module_init s = start s.enabled s.mode s

  abbrev pub quit_client : Option (Redis R) → Exec (CacheService R) (Unit {0})
  quit_client none = pure tt
  quit_client (some client) =
      try_catch (on_server (io.quit client) >> set_connected false) (λ _. pure tt)

  unfoldable pub on_module_destroy : Exec (CacheService R) (Unit {0})
  on_module_destroy s = quit_client s.client s
