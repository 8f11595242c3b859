-- ===== src/Cache/Fallbacks.antt =====
-- No failure of Redis leaves the cache service: each method answers, and the statistics count.
use nestjs_vibe_engine.Prelude.{
  ℕ, ◌+◌, String, ◌≡◌, refl, Bool, true, false, Option, none, some, List, [], ◌∷◌, map, arith,
  length,
}
use nestjs_vibe_engine.Js.Int.{pos, negsuc}
use nestjs_vibe_engine.Exec.{Exec, Result, ok, err}
use nestjs_vibe_engine.Cache.Service.{
  CacheStats, Redis, Json, CacheState, CacheEntry, guarded, del, exists, expire, ttl, keys, incr,
  decr, is_healthy, clear, get, set, mget, mset, count_all, is_connected, miss,
}

abbrev pub is_ok {ℓ} : {A : Type ℓ} → Result A → Bool
is_ok (ok a) = true
is_ok (err e) = false

module _ {R : Type 0} (client : Option (Redis R)) where
  pub guarded-is_ok :
      {A : Type 0} (fallback : A) (command : Redis R → Exec R A) (s : CacheState R)
      → is_ok (guarded client fallback command s).0 ≡ true
  unfolding guarded
  guarded-is_ok fallback command s = ground arith

  guarded_down :
      {A : Type 0} (fallback : A) (command : Redis R → Exec R A) (s : CacheState R)
      → is_connected s ≡ false
      → guarded client fallback command s ≡ (ok fallback, s)
  unfolding guarded is_connected
  guarded_down fallback command s h = ground arith

  module _ {T : Type 0} (json : Json T) where
    -- None of the thirteen commands of the cache service throws, whatever the client does.
    pub never_throws :
        (k : String) (ks : List String) (n : ℕ) (value : T) (time : Option ℕ)
        (entries : List (CacheEntry T)) (s : CacheState R)
        → (is_ok (get client json k s).0 ≡ true)
          × (is_ok (set client json k value time s).0 ≡ true)
          × (is_ok (del client ks s).0 ≡ true)
          × (is_ok (exists client k s).0 ≡ true)
          × (is_ok (expire client k n s).0 ≡ true)
          × (is_ok (ttl client k s).0 ≡ true)
          × (is_ok (keys client k s).0 ≡ true)
          × (is_ok (incr client k s).0 ≡ true)
          × (is_ok (decr client k s).0 ≡ true)
          × (is_ok (mget client json ks s).0 ≡ true)
          × (is_ok (mset client json entries s).0 ≡ true)
          × (is_ok (clear client s).0 ≡ true)
          × (is_ok (is_healthy client s).0 ≡ true)
    unfolding get set del exists expire ttl keys incr decr mget mset clear is_healthy
    never_throws k ks n value time entries s = (
      ground arith,
      guarded-is_ok _ _ s,
      del_ok ks,
      guarded-is_ok _ _ s,
      guarded-is_ok _ _ s,
      guarded-is_ok _ _ s,
      guarded-is_ok _ _ s,
      guarded-is_ok _ _ s,
      guarded-is_ok _ _ s,
      ground arith,
      mset_ok entries,
      ground arith,
      guarded-is_ok _ _ s,
    )
      where
        del_ok : (ks : List String) → is_ok (del client ks s).0 ≡ true
        del_ok [] = refl
        del_ok (k ∷ ks) = guarded-is_ok 0 _ s

        mset_ok : (entries : List (CacheEntry T)) → is_ok (mset client json entries s).0 ≡ true
        mset_ok [] = refl
        mset_ok (entry ∷ entries) = guarded-is_ok false _ s

    -- Without a connection every method answers with its fallback and leaves the service as it was,
    -- but for the miss that `get` counts.
    pub when_down :
        (k : String) (ks : List String) (n : ℕ) (value : T) (time : Option ℕ) (s : CacheState R)
        → is_connected s ≡ false
        → (get client json k s ≡ (ok none, record s { stats = miss s.stats }))
          × (set client json k value time s ≡ (ok false, s))
          × (del client ks s ≡ (ok 0, s))
          × (exists client k s ≡ (ok false, s))
          × (expire client k n s ≡ (ok false, s))
          × (ttl client k s ≡ (ok (negsuc 1), s))
          × (keys client k s ≡ (ok [], s))
          × (incr client k s ≡ (ok (pos 0), s))
          × (decr client k s ≡ (ok (pos 0), s))
          × (mget client json ks s ≡ (ok (map (λ _. none) ks), s))
          × (clear client s ≡ (ok tt, s))
          × (is_healthy client s ≡ (ok false, s))
    unfolding get set del exists expire ttl keys incr decr mget clear is_healthy is_connected
    when_down k ks n value time s h = (
      ground arith,
      guarded_down _ _ s h,
      del_down ks,
      guarded_down _ _ s h,
      guarded_down _ _ s h,
      guarded_down _ _ s h,
      guarded_down _ _ s h,
      guarded_down _ _ s h,
      guarded_down _ _ s h,
      ground arith,
      ground arith,
      guarded_down _ _ s h,
    )
      where
        del_down : (ks : List String) → del client ks s ≡ (ok 0, s)
        del_down [] = refl
        del_down (k ∷ ks) = guarded_down _ _ s h

    -- Each `get` counts one hit or one miss, whether or not the client answers.
    pub get-counts :
        (k : String) (s : CacheState R)
        → (get client json k s).1.stats.hits + (get client json k s).1.stats.misses
          ≡ s.stats.hits + s.stats.misses + 1
    unfolding get
    get-counts k s = ground arith

    count_all_total :
        (values : List (Option String)) (st : CacheStats)
        → ((count_all client json values st).1.hits + (count_all client json values st).1.misses
            ≡ st.hits + st.misses + length values)
          × (length (count_all client json values st).0 ≡ length values)
    unfolding count_all
    count_all_total [] st = (omega arith, refl)
    count_all_total (none ∷ values) st =
        let (a, b) = count_all_total values (miss st) in (omega (arith, a), omega (arith, b))
    count_all_total (some v ∷ values) st =
        let (a, b) = count_all_total values (record st { hits = st.hits + 1 }) in
        (omega (arith, a), omega (arith, b))
