-- ===== src/Cache/Service.antt =====
-- src/core/cache/cache.service.ts. The client of ioredis is a parameter: a record of its commands on
-- a state `R` of the server, each of which may fail. `T` is what values are, with `JSON` at it; every
-- value of `T` can be written.
-- `onModuleInit` and `onModuleDestroy` only open and close the connection; log output is left out.
use nestjs_vibe_engine.Prelude.{
  ℕ, ◌+◌, String, ◌==◌, Bool, true, false, Option, none, some, List, [], ◌∷◌, map, ltb, nat_eq,
  if◌then◌else◌,
}
use nestjs_vibe_engine.Js.Int.{ℤ, pos, negsuc}
use nestjs_vibe_engine.Exec.{Exec, Result, ok, err, pure, try_catch, ◌>>=◌, ◌>>◌}

pub record CacheStats : Type 0 where
  pub hits : ℕ
  pub misses : ℕ
  pub keys : ℕ
  pub connected : Bool

-- The commands of ioredis that the service sends.
pub record Redis (R : Type 0) : Type 0 where
  pub get : String → Exec R (Option String)
  -- SET, and SET with EX
  pub set : String → String → Exec R (Unit {0})
  pub set_ex : String → String → ℕ → Exec R (Unit {0})
  pub del : List String → Exec R ℕ
  pub exists : String → Exec R ℕ
  pub expire : String → ℕ → Exec R ℕ
  pub ttl : String → Exec R ℤ
  pub keys : String → Exec R (List String)
  pub incr : String → Exec R ℤ
  pub decr : String → Exec R ℤ
  pub mget : List String → Exec R (List (Option String))
  -- the SETs of a pipeline, each with its EX
  pub exec_pipeline : List (String × String × Option ℕ) → Exec R (Unit {0})
  pub flushdb : Exec R (Unit {0})
  pub ping : Exec R String

-- `JSON` at the type of values: `parse` is none where JSON.parse throws and some none for null; `raw`
-- is a text taken for a value.
pub record Json (T : Type 0) : Type 0 where
  pub stringify : T → String
  pub parse : String → Option (Option T)
  pub raw : String → T

-- The service's `stats` and the server behind the client.
pub record CacheState (R : Type 0) : Type 0 where
  pub redis : R
  pub stats : CacheStats

module _ {R A : Type 0} where
  abbrev pub on_redis : Exec R A → Exec (CacheState R) A
  on_redis m s = ((m s.redis).0, record s { redis = (m s.redis).1 })

abbrev pub hit : CacheStats → CacheStats
hit st = record st { hits = st.hits + 1 }

abbrev pub miss : CacheStats → CacheStats
miss st = record st { misses = st.misses + 1 }

-- ttlSeconds !== undefined && ttlSeconds > 0
abbrev pub positive_ttl : Option ℕ → Option ℕ
positive_ttl none = none
positive_ttl (some ttl) = if ltb 0 ttl then some ttl else none

module _ {T : Type 0} where
  abbrev pub or_raw : (String → T) → String → Option (Option T) → Option T
  or_raw raw value none = some (raw value)
  or_raw raw value (some v) = v

  -- try { JSON.parse(value) } catch { value }
  abbrev pub decode : Json T → String → Option T
  decode json value = or_raw json.raw value (json.parse value)

pub record CacheEntry (T : Type 0) : Type 0 where
  pub key : String
  pub value : T
  pub ttl : Option ℕ

module _ {R : Type 0} (client : Option (Redis R)) where
  -- What each method but `get` does around its command: the fallback without a client or a
  -- connection, and the fallback for a command that fails.
  unfoldable pub guarded : {A : Type 0} → A → (Redis R → Exec R A) → Exec (CacheState R) A
  guarded fallback command s = elim client [
    | none ↦ (pure fallback) s
    | some redis ↦
        if s.stats.connected
        then try_catch (on_redis (command redis)) (λ _. pure fallback) s
        else (pure fallback) s
  ]

  unfoldable pub del : List String → Exec (CacheState R) ℕ
  del [] = pure 0
  del (k ∷ ks) = guarded 0 (λ redis. redis.del (k ∷ ks))

  unfoldable pub exists : String → Exec (CacheState R) Bool
  exists k = guarded false (λ redis. redis.exists k >>= λ n. pure (nat_eq n 1))

  unfoldable pub expire : String → ℕ → Exec (CacheState R) Bool
  expire k ttl_seconds =
      guarded false (λ redis. redis.expire k ttl_seconds >>= λ n. pure (nat_eq n 1))

  unfoldable pub ttl : String → Exec (CacheState R) ℤ
  ttl k = guarded (negsuc 1) (λ redis. redis.ttl k)

  unfoldable pub keys : String → Exec (CacheState R) (List String)
  keys pattern_text = guarded [] (λ redis. redis.keys pattern_text)

  unfoldable pub incr : String → Exec (CacheState R) ℤ
  incr k = guarded (pos 0) (λ redis. redis.incr k)

  unfoldable pub decr : String → Exec (CacheState R) ℤ
  decr k = guarded (pos 0) (λ redis. redis.decr k)

  unfoldable pub is_healthy : Exec (CacheState R) Bool
  is_healthy = guarded false (λ redis. redis.ping >>= λ t. pure (t == "PONG"))

  -- Behind the reply of FLUSHDB.
  abbrev pub flushed : Result (Unit {0}) → CacheState R → CacheState R
  flushed (ok _) s = record s { stats = record s.stats { keys = 0 } }
  flushed (err e) s = s

  unfoldable pub clear : Exec (CacheState R) (Unit {0})
  clear s = elim client [
    | none ↦ (ok tt, s)
    | some redis ↦
        if s.stats.connected
        then (
          ok tt,
          flushed (redis.flushdb s.redis).0 (record s { redis = (redis.flushdb s.redis).1 }),
        )
        else (ok tt, s)
  ]

  module _ {T : Type 0} (json : Json T) where
    -- Behind the reply of GET, a failure included.
    abbrev pub count_get : Result (Option String) → Exec (CacheState R) (Option T)
    count_get (ok none) s = (ok none, record s { stats = miss s.stats })
    count_get (ok (some value)) s = (ok (decode json value), record s { stats = hit s.stats })
    count_get (err e) s = (ok none, record s { stats = miss s.stats })

    unfoldable pub get : String → Exec (CacheState R) (Option T)
    get k s = elim client [
      | none ↦ (ok none, record s { stats = miss s.stats })
      | some redis ↦
          if s.stats.connected
          then count_get (redis.get k s.redis).0 (record s { redis = (redis.get k s.redis).1 })
          else (ok none, record s { stats = miss s.stats })
    ]

    abbrev pub send_set : Redis R → String → String → Option ℕ → Exec R (Unit {0})
    send_set redis k text none = redis.set k text
    send_set redis k text (some ttl_seconds) = redis.set_ex k text ttl_seconds

    unfoldable pub set : String → T → Option ℕ → Exec (CacheState R) Bool
    set k value ttl_seconds =
        guarded false
          (λ redis. send_set redis k (json.stringify value) (positive_ttl ttl_seconds) >> pure true)

    -- The callback of `values.map`, run from left to right.
    unfoldable pub count_all : List (Option String) → CacheStats → List (Option T) × CacheStats
    count_all [] st = ([], st)
    count_all (none ∷ values) st =
        let (rest, st') = count_all values (miss st) in (none ∷ rest, st')
    count_all (some value ∷ values) st =
        let (rest, st') = count_all values (hit st) in (decode json value ∷ rest, st')

    abbrev pub count_mget :
        List String → Result (List (Option String)) → Exec (CacheState R) (List (Option T))
    count_mget ks (ok values) s =
        let (found, st) = count_all values s.stats in (ok found, record s { stats = st })
    count_mget ks (err e) s = (ok (map (λ _. none) ks), s)

    unfoldable pub mget : List String → Exec (CacheState R) (List (Option T))
    mget [] s = (ok [], s)
    mget (k ∷ ks) s = elim client [
      | none ↦ (ok (map (λ _. none) (k ∷ ks)), s)
      | some redis ↦
          if s.stats.connected
          then count_mget (k ∷ ks) (redis.mget (k ∷ ks) s.redis).0
              (record s { redis = (redis.mget (k ∷ ks) s.redis).1 })
          else (ok (map (λ _. none) (k ∷ ks)), s)
    ]

    abbrev pub queued : CacheEntry T → String × String × Option ℕ
    queued entry = (entry.key, json.stringify entry.value, positive_ttl entry.ttl)

    unfoldable pub mset : List (CacheEntry T) → Exec (CacheState R) Bool
    mset [] = pure false
    mset (entry ∷ entries) =
        guarded false (λ redis. redis.exec_pipeline (map queued (entry ∷ entries)) >> pure true)

unfoldable pub is_connected : {R : Type 0} → CacheState R → Bool
is_connected s = s.stats.connected
