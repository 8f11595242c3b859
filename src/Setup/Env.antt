-- ===== src/Setup/Env.antt =====
-- The list ENV_DEFINITIONS of src/setup/env-definitions.ts.
pub mod Stores
pub mod Security
use nestjs_vibe_engine.Prelude.{List, ◌++◌}
use nestjs_vibe_engine.Setup.EnvDefinition.{EnvDefinition}
use nestjs_vibe_engine.Setup.Env.Stores.{app_definitions, database_definitions, redis_definitions}
use nestjs_vibe_engine.Setup.Env.Security.{auth_definitions, etc_definitions}

abbrev pub env_definitions : List EnvDefinition
env_definitions =
    app_definitions ++ database_definitions ++ redis_definitions ++ auth_definitions
    ++ etc_definitions
