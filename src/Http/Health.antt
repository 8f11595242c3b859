-- ===== src/Http/Health.antt =====
-- src/health/health.controller.ts over the modelled cache service and Prisma's `SELECT 1`, which is
-- a parameter. The probes that run at the same time are modelled one after the other; log output is
-- left out, and Terminus, which gets the two indicators, is a parameter.
pub mod Answers
mod Tests
use nestjs_vibe_engine.Prelude.{
  String, Bool, true, false, ◌&&◌, Option, none, some, List, [], ◌∷◌, if◌then◌else◌,
}
use nestjs_vibe_engine.Exec.{
  Exec, Exception, World, http, failure, pure, try_catch, on_db, on_cache, ◌>>=◌, ◌>>◌,
}
use nestjs_vibe_engine.Cache.Service
use nestjs_vibe_engine.Cache.Service.{Redis, CacheState}

pub data Status : Type 0 where
  up down : Status

-- none: no message
pub record ServiceHealth : Type 0 where
  pub status : Status
  pub message : Option String

-- `ok` is the status "ok", else it is "error".
pub record HealthResponse : Type 0 where
  pub is_ok : Bool
  pub database : ServiceHealth
  pub redis : ServiceHealth

abbrev pub is_up : Status → Bool
is_up up = true
is_up down = false

abbrev pub status_of : Bool → Status
status_of healthy = if healthy then up else down

abbrev message_of : Exception → String
message_of (http status message) = message
message_of (failure message) = message

module _ {S : Type 0} where
  -- The try around a probe, with what the controller says where it answers false.
  abbrev pub probed : Exec S Bool → Option String → Exec S ServiceHealth
  probed is_healthy failed =
      try_catch
        (is_healthy >>= λ healthy.
          pure (record { status = status_of healthy; message = if healthy then none else failed }))
        (λ e. pure (record { status = down; message = some (message_of e) }))

module _ {D R : Type 0} (select_one : Exec D (Unit {0})) (client : Option (Redis R)) where
  -- PrismaService.isHealthy
  unfoldable pub database_is_healthy : Exec D Bool
  database_is_healthy = try_catch (select_one >> pure true) (λ e. pure false)

  unfoldable pub check_database : Exec (World D (CacheState R)) ServiceHealth
  check_database = probed (on_db database_is_healthy) (some "Database connection failed")

  unfoldable pub check_redis : Exec (World D (CacheState R)) ServiceHealth
  check_redis = probed (on_cache (Service.is_healthy client)) (some "Redis connection failed")

  unfoldable pub check : Exec (World D (CacheState R)) HealthResponse
  check = do
    database_health ← check_database
    redis_health ← check_redis
    pure (record {
      is_ok = is_up database_health.status && is_up redis_health.status;
      database = database_health;
      redis = redis_health;
    })

  unfoldable pub check_database_indicator : Exec (World D (CacheState R)) ServiceHealth
  check_database_indicator = probed (on_db database_is_healthy) none

  unfoldable pub check_redis_indicator : Exec (World D (CacheState R)) ServiceHealth
  check_redis_indicator = probed (on_cache (Service.is_healthy client)) none

  -- The check of Terminus gets each indicator with the key of its result.
  unfoldable pub check_detailed :
      {A : Type 0}
      → (List (String × Exec (World D (CacheState R)) ServiceHealth)
          → Exec (World D (CacheState R)) A)
      → Exec (World D (CacheState R)) A
  check_detailed terminus_check =
      terminus_check
        (("database", check_database_indicator) ∷ ("redis", check_redis_indicator) ∷ [])
