-- ===== src/Cache/Laws.antt =====
-- The documented behaviour of a Redis server that answers, within the time that entries live.
use nestjs_vibe_engine.Prelude.{
  ℕ, ◌+◌, String, ◌≡◌, Option, none, some, List, if◌then◌else◌, ◌==◌, any,
}
use nestjs_vibe_engine.Js.Int.{pos}
use nestjs_vibe_engine.Exec.{ok}
use nestjs_vibe_engine.Cache.Service.{Redis}

pub record RedisLaws {R : Type 0} (redis : Redis R) : Type 0 where
  pub stored : R → String → Option String
  pub get : (r : R) (k : String) → redis.get k r ≡ (ok (stored r k), r)
  pub set : (r : R) (k v : String) → (redis.set k v r).0 ≡ ok tt
  pub stored-set :
      (r : R) (k v j : String)
      → stored (redis.set k v r).1 j ≡ (if k == j then some v else stored r j)
  pub set_ex : (r : R) (k v : String) (ttl : ℕ) → (redis.set_ex k v ttl r).0 ≡ ok tt
  pub stored-set_ex :
      (r : R) (k v : String) (ttl : ℕ) (j : String)
      → stored (redis.set_ex k v ttl r).1 j ≡ (if k == j then some v else stored r j)
  pub stored-del :
      (r : R) (ks : List String) (j : String)
      → stored (redis.del ks r).1 j ≡ (if any (λ k. k == j) ks then none else stored r j)

-- Counters: a key that is missing counts as 0.
pub record CounterLaws {R : Type 0} (redis : Redis R) : Type 0 where
  pub counter : R → String → ℕ
  pub incr : (r : R) (k : String) → (redis.incr k r).0 ≡ ok (pos (counter r k + 1))
  pub counter-incr :
      (r : R) (k j : String)
      → counter (redis.incr k r).1 j ≡ (if k == j then counter r j + 1 else counter r j)
  pub counter-expire :
      (r : R) (k : String) (n : ℕ) (j : String) → counter (redis.expire k n r).1 j ≡ counter r j
  pub counter-ttl : (r : R) (k j : String) → counter (redis.ttl k r).1 j ≡ counter r j
