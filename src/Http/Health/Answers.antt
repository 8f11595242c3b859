-- ===== src/Http/Health/Answers.antt =====
-- What the health check answers.
use nestjs_vibe_engine.Prelude.{
  String, ◌≡◌, refl, ap, ◌∙◌, Bool, true, false, ◌&&◌, Option, none, some, inl, inr, arith, ◌==◌,
  if◌then◌else◌,
}
use nestjs_vibe_engine.Exec.{Exec, World, Result, pure, ◌>>=◌, Result-cases, ok, err, run-step}
use nestjs_vibe_engine.Cache.Service
use nestjs_vibe_engine.Cache.Service.{Redis, CacheState}
use nestjs_vibe_engine.Cache.Fallbacks.{is_ok, guarded-is_ok}
use nestjs_vibe_engine.Http.Health.{
  ServiceHealth, HealthResponse, is_up, status_of, database_is_healthy, check_database, check_redis,
  check,
}

-- What an answer says, false for an exception.
abbrev pub says : Result Bool → Bool
says (ok b) = b
says (err e) = false

both_up : (a b : Bool) → (is_up (status_of a) && is_up (status_of b)) ≡ (a && b)
both_up true true = refl
both_up true false = refl
both_up false b = refl

module _ {D R : Type 0} (select_one : Exec D (Unit {0})) (client : Option (Redis R)) where
  abbrev pub described : Bool → String → ServiceHealth
  described healthy failed = record {
    status = status_of healthy;
    message = if healthy then none else some failed;
  }

  database-runs :
      (w : World D (CacheState R))
      → check_database select_one client w ≡ (
        ok (described (is_ok (select_one w.db).0) "Database connection failed"),
        record w { db = (select_one w.db).1 },
      )
  unfolding check_database database_is_healthy
  database-runs w = elim (Result-cases (select_one w.db).0) [
    | inl (a, e) ↦ rw e refl
    | inr (x, e) ↦ rw e refl
  ]

  redis_answer :
      (w : World D (CacheState R)) (r : Result Bool) (c : CacheState R)
      → Service.is_healthy client w.cache ≡ (r, c)
      → is_ok r ≡ true
      → check_redis select_one client w
        ≡ (ok (described (says r) "Redis connection failed"), record w { cache = c })
  unfolding check_redis
  redis_answer w (ok b) c e h = rw e refl
  redis_answer w (err x) c e h = absurd (ground (arith, h))

  redis-runs :
      (w : World D (CacheState R))
      → check_redis select_one client w ≡ (
        ok (described (says (Service.is_healthy client w.cache).0) "Redis connection failed"),
        record w { cache = (Service.is_healthy client w.cache).1 },
      )
  unfolding Service.is_healthy
  redis-runs w =
      redis_answer w (Service.is_healthy client w.cache).0 (Service.is_healthy client w.cache).1
        refl (guarded-is_ok client false (λ redis. redis.ping >>= λ t. pure (t == "PONG")) w.cache)

  unfoldable pub response : (database redis : Bool) → HealthResponse
  response database redis = record {
    is_ok = database && redis;
    database = described database "Database connection failed";
    redis = described redis "Redis connection failed";
  }

  -- The health check never throws, whatever the database and Redis do. It answers that a service is
  -- up exactly if its probe succeeds, with a message otherwise, and "ok" exactly if both are up.
  pub check-answers :
      (w : World D (CacheState R))
      → (check select_one client w).0
        ≡ ok (response (is_ok (select_one w.db).0) (says (Service.is_healthy client w.cache).0))
  unfolding check response
  check-answers w =
      let a = is_ok (select_one w.db).0 in
      let b = says (Service.is_healthy client w.cache).0 in
      let w1 : World D (CacheState R) = record w { db = (select_one w.db).1 } in
      let database = described a "Database connection failed" in
      let redis = described b "Redis connection failed" in
      ap (λ p. p.0)
        (run-step (check_database select_one client) _ w w1 database (database-runs w)
          ∙ run-step (check_redis select_one client) _ w1 _ redis (redis-runs w1))
      ∙ ap (λ c. ok (record { is_ok = c; database = database; redis = redis })) (both_up a b)
