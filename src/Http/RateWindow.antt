-- ===== src/Http/RateWindow.antt =====
-- How many requests the rate limit lets through.
use nestjs_vibe_engine.Prelude.{
  ℕ, ◌↔◌, ◌<◌, ◌⊎◌, zero, suc, ◌+◌, String, ◌≡◌, refl, ◌∙◌, Bool, true, false, Option, some, ltb,
  nat_eq, if◌then◌else◌, ◌==◌, eq_refl, arith, Bool-cases, inl, inr,
}
use nestjs_vibe_engine.Js.Int.{ℤ, pos, negsuc, is_one, exceeds}
use nestjs_vibe_engine.Exec.{Result-cases, Exec, Result, ok, pure, ◌>>=◌}
use nestjs_vibe_engine.Cache.Service.{Redis, CacheState, guarded, incr, expire, ttl, is_connected}
use nestjs_vibe_engine.Cache.Laws.{CounterLaws}
use nestjs_vibe_engine.Cache.Storage.{guarded-runs}
use nestjs_vibe_engine.Http.RateLimit.{
  Request, Reply, Headers, passed, too_many, limit_of, cache_key, check, use_middleware, headers_of,
  window_seconds,
}

abbrev pub is_passed : Result Reply → Bool
is_passed (ok (passed h)) = true
is_passed _ = false

module _ {R A : Type 0} (redis : Redis R) where
  bind-state :
      {B : Type 0} (m : Exec R A) (f : A → B) (r : R) → ((m >>= λ a. pure (f a)) r).1 ≡ (m r).1
  bind-state m f r = elim (Result-cases (m r).0) [ inl (a, e) ↦ rw e refl | inr (x, e) ↦ rw e refl ]

module _ {R : Type 0} (redis : Redis R) (laws : CounterLaws redis) where
  abbrev count : CacheState R → String → ℕ
  count s k = laws.counter s.redis k

  incr-runs :
      (k : String) (s : CacheState R)
      → is_connected s ≡ true
      → incr (some redis) k s
        ≡ (ok (pos (count s k + 1)), record s { redis = (redis.incr k s.redis).1 })
  unfolding incr guarded is_connected
  incr-runs k s up = rw up (rw (laws.incr s.redis k) refl)

  expire-runs :
      (k : String) (n : ℕ) (s : CacheState R)
      → is_connected s ≡ true
      → (b : Bool) × (s' : CacheState R) × (expire (some redis) k n s ≡ (ok b, s'))
        × (is_connected s' ≡ true)
        × ((j : String) → count s' j ≡ count s j)
  unfolding expire is_connected
  expire-runs k n s up =
      let (b, e) =
        guarded-runs redis false (λ redis. redis.expire k n >>= λ m. pure (nat_eq m 1)) s up in
      (
        b,
        _,
        e,
        up,
        λ j.
            rw (bind-state redis (redis.expire k n) (λ m. nat_eq m 1) s.redis)
              (laws.counter-expire s.redis k n j),
      )

  ttl-runs :
      (k : String) (s : CacheState R)
      → is_connected s ≡ true
      → (t : ℤ) × (s' : CacheState R) × (ttl (some redis) k s ≡ (ok t, s'))
        × (is_connected s' ≡ true)
        × ((j : String) → count s' j ≡ count s j)
  unfolding ttl is_connected
  ttl-runs k s up =
      let (t, e) = guarded-runs redis (negsuc 1) (λ redis. redis.ttl k) s up in
      (t, _, e, up, λ j. laws.counter-ttl s.redis k j)

  abbrev answer : Bool → Headers → Reply
  answer true h = too_many h
  answer false h = passed (some h)

  answered :
      (over : Bool) (h : Headers) (s : CacheState R)
      → (if over then pure (too_many h) else pure (passed (some h))) s ≡ (ok (answer over h), s)
  answered true h s = refl
  answered false h s = refl

  -- The `try` block never throws over a server that answers INCR; it counts the request.
  check-runs :
      (req : Request) (s : CacheState R)
      → is_connected s ≡ true
      → (h : Headers) × (s' : CacheState R) × (check (some redis) req s
          ≡ (ok (answer (ltb (limit_of req) (count s (cache_key req) + 1)) h), s'))
        × (is_connected s' ≡ true)
        × ((j : String) → count s' j ≡ (if cache_key req == j then count s j + 1 else count s j))
  unfolding check exceeds is_connected
  check-runs req s up =
      let s1 : CacheState R = record s { redis = (redis.incr (cache_key req) s.redis).1 } in
      let counted = laws.counter-incr s.redis (cache_key req) in
      elim (Bool-cases (is_one (pos (count s (cache_key req) + 1)))) [
        | inl one ↦
            let (b, s2, e2, up2, same2) = expire-runs (cache_key req) window_seconds s1 up in
            let (t, s3, e3, up3, same3) = ttl-runs (cache_key req) s2 up2 in
            (
              headers_of req (pos (count s (cache_key req) + 1)) t,
              s3,
              rw (incr-runs (cache_key req) s up) (rw one (rw e2 (rw e3 (answered _ _ s3)))),
              up3,
              λ j. same3 j ∙ same2 j ∙ counted j,
            )
        | inr more ↦
            let (t, s3, e3, up3, same3) = ttl-runs (cache_key req) s1 up in
            (
              headers_of req (pos (count s (cache_key req) + 1)) t,
              s3,
              rw (incr-runs (cache_key req) s up) (rw more (rw e3 (answered _ _ s3))),
              up3,
              λ j. same3 j ∙ counted j,
            )
      ]

  -- A request over a server that answers is counted under its identifier and path alone, and passes
  -- exactly if the count so far is under the limit of its path.
  pub use_middleware-counts :
      (req : Request) (s : CacheState R)
      → is_connected s ≡ true
      → (is_passed (use_middleware (some redis) req s).0
          ≡ ltb (count s (cache_key req)) (limit_of req))
        × (is_connected (use_middleware (some redis) req s).1 ≡ true)
        × ((j : String)
            → count (use_middleware (some redis) req s).1 j
              ≡ (if cache_key req == j then count s j + 1 else count s j))
  unfolding use_middleware
  use_middleware-counts req s up =
      let (h, s', e, up', counted) = check-runs req s up in
      rw up (rw e (ground arith, up', counted))

  -- The service after this many of the same request.
  abbrev pub after_requests : Request → ℕ → CacheState R → CacheState R
  after_requests req zero s = s
  after_requests req (suc n) s = (use_middleware (some redis) req (after_requests req n s)).1

  after_requests-count :
      (req : Request) (n : ℕ) (s : CacheState R)
      → is_connected s ≡ true
      → (is_connected (after_requests req n s) ≡ true)
        × (count (after_requests req n s) (cache_key req) ≡ count s (cache_key req) + n)
  after_requests-count req zero s up = (up, omega arith)
  after_requests-count req (suc n) s up =
      let (up', counted) = after_requests-count req n s up in
      let (_, up'', next) = use_middleware-counts req (after_requests req n s) up' in
      (up'', ground (arith, counted, next (cache_key req), eq_refl (cache_key req)))

  -- Within one window, over a server that answers, the request that follows n of the same
  -- identifier and path passes exactly if n is below the limit: the first 10 under /auth and the
  -- first 100 elsewhere pass, and no later one.
  pub request_passes_iff :
      (req : Request) (n : ℕ) (s : CacheState R)
      → is_connected s ≡ true
      → count s (cache_key req) ≡ 0
      → (is_passed (use_middleware (some redis) req (after_requests req n s)).0 ≡ true)
        ↔ (n < limit_of req)
  request_passes_iff req n s up fresh =
      let (up', counted) = after_requests-count req n s up in
      let (passes, _, _) = use_middleware-counts req (after_requests req n s) up' in
      (λ h. ground (arith, passes, counted, fresh), λ h. ground (arith, passes, counted, fresh))

module _ {R : Type 0} (client : Option (Redis R)) where
  -- Without a connection, and whenever INCR does not count, the request passes.
  pub fails_open :
      (req : Request) (s : CacheState R)
      → (is_connected s ≡ false) ⊎ ((incr client (cache_key req) s).0 ≡ ok (pos 0))
      → is_passed (use_middleware client req s).0 ≡ true
  unfolding use_middleware check is_one exceeds
  fails_open req s (inl down) = rw down refl
  fails_open req s (inr failed) = elim (Bool-cases (is_connected s)) [
    | inr down ↦ rw down refl
    | inl up ↦ rw up (
        rw failed
          (elim (Result-cases (ttl client (cache_key req) (incr client (cache_key req) s).1).0) [
            | inr (x, e) ↦ rw e refl
            | inl (t, e) ↦ rw e (elim (Bool-cases (ltb (limit_of req) 0)) [
              | inr low ↦ rw low refl
              | inl high ↦ absurd (ground arith)
            ])
          ]))
  ]
