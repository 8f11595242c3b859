-- ===== src/Http/Health/Tests.antt =====
-- Tests of the health check over the Redis server of the cache's tests.
use nestjs_vibe_engine.Prelude.{ℕ, ◌≡◌, some, []}
use nestjs_vibe_engine.Exec.{Exec, World, ok, err, failure}
use nestjs_vibe_engine.Cache.Service
use nestjs_vibe_engine.Cache.Service.{CacheState}
use nestjs_vibe_engine.Cache.Tests.{Server, redis}
use nestjs_vibe_engine.Http.Health.{check}
use nestjs_vibe_engine.Http.Health.Answers.{says, response, check-answers}
use nestjs_vibe_engine.Prelude.{true, false}

abbrev select_one : Exec ℕ (Unit {0})
select_one d = (err (failure "refused"), d)

abbrev world : World ℕ (CacheState Server)
world = record {
  db = 0;
  cache = record {
    redis = record { texts = []; counts = [] };
    stats = record { hits = 0; misses = 0; keys = 0; connected = true };
  };
}

check-answers_example :
    (check select_one (some redis) world).0
    ≡ ok (
        response select_one
          (some redis)
          false
          (says (Service.is_healthy (some redis) world.cache).0))
check-answers_example = check-answers select_one (some redis) world
