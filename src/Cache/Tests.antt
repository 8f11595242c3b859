-- ===== src/Cache/Tests.antt =====
-- Tests of the cache service over a Redis server in memory, whose entries do not expire.
mod Cases
mod Opened
use nestjs_vibe_engine.Prelude.{
  ℕ, ◌+◌, String, ◌≡◌, refl, Option, none, some, List, [], ◌∷◌, if◌then◌else◌, ◌==◌, ◌||◌, any,
  is_some, arith, map, Bool-cases, inl, inr, eq_iff, eq_refl,
}
use nestjs_vibe_engine.Js.Map
use nestjs_vibe_engine.Js.Map.{TextMap}
use nestjs_vibe_engine.Js.Int.{pos}
use nestjs_vibe_engine.Exec.{ok}
use nestjs_vibe_engine.Cache.Service.{Redis, Json}
use nestjs_vibe_engine.Cache.Laws.{RedisLaws, CounterLaws}

pub record Server : Type 0 where
  pub texts : TextMap String
  pub counts : TextMap ℕ

abbrev or_zero : Option ℕ → ℕ
or_zero none = 0
or_zero (some n) = n

pub count : Server → String → ℕ
count r k = or_zero (Map.get r.counts k)

pub delete_all : List String → TextMap String → TextMap String
delete_all [] m = m
delete_all (k ∷ ks) m = delete_all ks (Map.delete m k)

pub store_all : List (String × String × Option ℕ) → TextMap String → TextMap String
store_all [] m = m
store_all ((k, v, ttl) ∷ entries) m = store_all entries (Map.set m k v)

unfoldable pub redis : Redis Server
unfolding count delete_all store_all
redis = record {
  get = λ k r. (ok (Map.get r.texts k), r);
  set = λ k v r. (ok tt, record r { texts = Map.set r.texts k v });
  set_ex = λ k v ttl r. (ok tt, record r { texts = Map.set r.texts k v });
  del = λ ks r. (ok 1, record r { texts = delete_all ks r.texts });
  exists = λ k r. (ok (if is_some (Map.get r.texts k) then 1 else 0), r);
  expire = λ k n r. (ok 1, r);
  ttl = λ k r. (ok (pos 60), r);
  keys = λ p r. (ok [], r);
  incr =
      λ k r. (ok (pos (count r k + 1)), record r { counts = Map.set r.counts k (count r k + 1) });
  decr = λ k r. (ok (pos 0), r);
  mget = λ ks r. (ok (map (λ k. Map.get r.texts k) ks), r);
  exec_pipeline = λ entries r. (ok tt, record r { texts = store_all entries r.texts });
  flushdb = λ r. (ok tt, record { texts = []; counts = [] });
  ping = λ r. (ok "PONG", r);
}

pub get-delete_all :
    (ks : List String) (m : TextMap String) (j : String)
    → Map.get (delete_all ks m) j ≡ (if any (λ k. k == j) ks then none else Map.get m j)
unfolding delete_all
get-delete_all [] m j = refl
get-delete_all (k ∷ ks) m j =
    ground (arith, get-delete_all ks (Map.delete m k) j, Map.get-delete m k j)

count-set :
    (r : Server) (k j : String) (n : ℕ)
    → count (record r { counts = Map.set r.counts k n }) j ≡ (if k == j then n else count r j)
unfolding count
count-set r k j n = ground (arith, Map.get-set r.counts k j n)

count-incr :
    (r : Server) (k j : String)
    → count (record r { counts = Map.set r.counts k (count r k + 1) }) j
      ≡ (if k == j then count r j + 1 else count r j)
count-incr r k j = ground (arith, count-set r k j (count r k + 1), eq_iff k j)

unfoldable pub redis_laws : RedisLaws redis
unfolding redis
redis_laws = record {
  stored = λ r k. Map.get r.texts k;
  get = λ r k. refl;
  set = λ r k v. refl;
  stored-set = λ r k v j. Map.get-set r.texts k j v;
  set_ex = λ r k v ttl. refl;
  stored-set_ex = λ r k v ttl j. Map.get-set r.texts k j v;
  stored-del = λ r ks j. get-delete_all ks r.texts j;
}

pub counter_laws : CounterLaws redis
unfolding redis
counter_laws = record {
  counter = count;
  incr = λ r k. refl;
  counter-incr = λ r k j. count-incr r k j;
  counter-expire = λ r k n j. refl;
  counter-ttl = λ r k j. refl;
}

-- Texts as values.
abbrev pub json : Json String
json = record { stringify = λ t. t; parse = λ t. some (some t); raw = λ t. t }
