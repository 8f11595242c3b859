-- ===== src/Cache/Tests/Opened.antt =====
-- The start of the cache service at concrete configurations.
use nestjs_vibe_engine.Prelude.{◌≡◌, refl, none, some, [], ◌∷◌, true, is_some, ◌==◌, if◌then◌else◌}
use nestjs_vibe_engine.Js.Text.{split, trim, trim_start, trim_end, is_space}
use nestjs_vibe_engine.Exec.{ok, err, failure}
use nestjs_vibe_engine.Cache.Service.{is_connected}
use nestjs_vibe_engine.Cache.Connection.{
  Ioredis, Config, new_service, on_module_init, parse_nodes, nodes_of, start, open_by_mode,
  open_cluster,
}
use nestjs_vibe_engine.Cache.Connection.Reachable.{here, next, initialised, Reach-HasClient}
use nestjs_vibe_engine.Cache.Tests.{Server, redis, json}
use nestjs_vibe_engine.Setup.Mysql.{parse_int, digits_from}

abbrev server : Server
server = record { texts = []; counts = [] }

abbrev io : Ioredis Server
io = record {
  new_cluster = λ nodes password r. (ok redis, r);
  new_redis = λ host port password r. (ok redis, r);
  connect = λ client r. (err (failure "ECONNREFUSED"), r);
  quit = λ client r. (ok tt, r);
}

-- Nothing is set: one server on the local host.
abbrev bare : Config
bare k = none

abbrev clustered : Config
clustered k =
    if k == "REDIS_MODE"
    then some "cluster"
    else if k == "REDIS_CLUSTER_NODES"
    then some "a:7000, b:7001,,c"
    else none

nodes_read :
    parse_nodes "a:7000, b:7001,,c"
    ≡ record { host = "a"; port = some 7000 }
      ∷ record { host = "b"; port = some 7001 }
      ∷ record { host = "c"; port = none }
      ∷ []
unfolding parse_nodes nodes_of split trim trim_start trim_end is_space parse_int digits_from
nodes_read = refl

cluster_connected :
    is_connected (on_module_init io clustered (new_service clustered server)).1.state ≡ true
unfolding new_service parse_nodes nodes_of split trim trim_start trim_end is_space on_module_init
    start open_by_mode open_cluster is_connected
cluster_connected = refl

Reach-HasClient_example :
    is_some (on_module_init io clustered (new_service clustered server)).1.client ≡ true
Reach-HasClient_example =
    Reach-HasClient json io clustered (next here (initialised (new_service clustered server)))
      cluster_connected
