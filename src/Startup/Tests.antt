-- ===== src/Startup/Tests.antt =====
-- The start of the server in two environments.
use nestjs_vibe_engine.Prelude.{
  ◌==◌, ◌≡◌, refl, true, false, Option, none, some, List, [], ◌∷◌, if◌then◌else◌,
}
use nestjs_vibe_engine.Js.Text.{split, trim, trim_start, trim_end, is_space, strip_prefix}
use nestjs_vibe_engine.Exec.{Exception, failure}
use nestjs_vibe_engine.Setup.Mysql.{parse_int, digits_from}
use nestjs_vibe_engine.Startup.{
  Env, Action, start_setup_server, create_app, use_helmet, enable_cors, use_validation_pipe,
  set_global_prefix, setup_swagger, listen, app_config, redis_config, bootstrap,
}
use nestjs_vibe_engine.Startup.Order.{noted, bootstrap-plan}

abbrev bare : Env
bare k = none

abbrev prod : Env
prod k =
    if k == "NODE_ENV"
    then some "prod"
    else if k == "REDIS_CLUSTER_NODES"
    then some "a:7000, b"
    else none

nodes_read :
    (redis_config prod).cluster_nodes
    ≡ record { host = "a"; port = some 7000 } ∷ record { host = "b"; port = none } ∷ []
unfolding redis_config split trim trim_start trim_end is_space parse_int digits_from
nodes_read = refl

-- The port is taken.
abbrev taken : Action → Option Exception
taken (listen port) = some (failure "EADDRINUSE")
taken _ = none

abbrev asked : List Action
asked =
    start_setup_server 4321 true
    ∷ create_app
    ∷ use_helmet
    ∷ enable_cors none
    ∷ use_validation_pipe
    ∷ set_global_prefix "api/v1"
    ∷ setup_swagger "api-docs" "v1"
    ∷ listen (some 3000)
    ∷ []

bootstrap-plan_example : (bootstrap (noted taken) false bare bare []).1 ≡ asked
unfolding app_config parse_int digits_from trim_start is_space strip_prefix
bootstrap-plan_example = bootstrap-plan taken false bare bare

-- No page of the API in production.
asked_in_prod :
    (bootstrap (noted taken) true prod prod []).1
    ≡ create_app
      ∷ use_helmet
      ∷ enable_cors none
      ∷ use_validation_pipe
      ∷ set_global_prefix "api/v1"
      ∷ listen (some 3000)
      ∷ []
unfolding app_config parse_int digits_from trim_start is_space strip_prefix
asked_in_prod = bootstrap-plan taken true prod prod
