-- ===== src/Http/CacheInterceptor/Repeated.antt =====
-- A request that is repeated is answered from the cache.
use nestjs_vibe_engine.Prelude.{
  if◌then◌else◌, Bool, sym, eq_iff, ℕ, String, ◌≡◌, ◌≢◌, refl, ap, ◌∙◌, true, false, Option, none,
  some, eq_refl, ne→eq-false,
}
use nestjs_vibe_engine.Exec.{recover, Exec, World, ok, pure, on_cache, run-step, try_catch, ◌>>◌}
use nestjs_vibe_engine.Cache.Service
use nestjs_vibe_engine.Cache.Service.{
  Redis, Json, CacheState, is_connected, positive_ttl, send_set, decode,
}
use nestjs_vibe_engine.Cache.Laws.{RedisLaws}
use nestjs_vibe_engine.Cache.Storage.{guarded-runs, decoded, send_set-stored}
use nestjs_vibe_engine.User.Coherence.{get-runs}
use nestjs_vibe_engine.Http.CacheInterceptor.{
  HttpRequest, CacheOptions, build_cache_key, ttl_of, or_handled, serve_cached, if_connected,
  with_prefix, intercept,
}

module _ {D R T : Type 0} (redis : Redis R) (laws : RedisLaws redis) (json : Json T) where
  get_step :
      (k : String) (w : World D (CacheState R))
      → is_connected w.cache ≡ true
      → (w' : World D (CacheState R)) × (try_catch
            (on_cache {A = Option T} (Service.get (some redis) json k))
            (λ e. pure none)
            w
          ≡ (ok (decoded redis laws json (laws.stored w.cache.redis k)), w'))
        × (w' ≡ (on_cache (Service.get (some redis) json k) w).1)
        × (w'.db ≡ w.db)
  get_step k w up =
      let (c', e, same, up') = get-runs redis laws json k w.cache up in
      (
        record w { cache = c' },
        ap (λ p. recover p.0 (λ x s. (ok none, s)) (record w { cache = p.1 })) e,
        ap (λ p. record w { cache = p.1 }) (sym e),
        refl,
      )

  -- On the branch that uses the cache.
  intercept-serves :
      (options : CacheOptions) (req : HttpRequest) (handle : Exec (World D (CacheState R)) T)
      (prefix : String) (w : World D (CacheState R))
      → req.http_method ≡ "GET"
      → options.cache_key_prefix ≡ some prefix
      → prefix ≢ ""
      → is_connected w.cache ≡ true
      → intercept (some redis) json options req handle w
        ≡ serve_cached
            (some redis)
            json
            (build_cache_key prefix req)
            (ttl_of options.cache_ttl)
            handle
            w
  unfolding intercept
  intercept-serves options req handle prefix w get key more up =
      let ttl = ttl_of options.cache_ttl in
      let serve = serve_cached (some redis) json (build_cache_key prefix req) ttl handle in
      ap
        (λ b.
          (if b
              then with_prefix (some redis) json options.cache_key_prefix ttl req handle
              else handle)
            w)
        ((eq_iff req.http_method "GET").1 get)
      ∙ ap (λ o. with_prefix (some redis) json o ttl req handle w) key
      ∙ ap (λ b. (if b then handle else if_connected (some redis) json serve handle) w)
          (ne→eq-false prefix "" more)
      ∙ ap (λ b. if b then serve w else handle w) up

  -- The response is cached under the key.
  keep_response :
      (k : String) (ttl : ℕ) (response : T) (w : World D (CacheState R))
      → is_connected w.cache ≡ true
      → (b : Bool) × (w' : World D (CacheState R)) × (try_catch
            (on_cache (Service.set (some redis) json k response (some ttl)))
            (λ e. pure false)
            w
          ≡ (ok b, w'))
        × (is_connected w'.cache ≡ true)
        × (laws.stored w'.cache.redis k ≡ some (json.stringify response))
  unfolding Service.set is_connected
  keep_response k ttl response w up =
      let (sent, after) =
        send_set-stored redis laws json k (json.stringify response) (positive_ttl (some ttl))
          w.cache.redis in
      let (b, e) =
        guarded-runs redis false
          (λ r.
            send_set (some redis) json r k (json.stringify response) (positive_ttl (some ttl))
            >> pure true)
          w.cache up in
      let c' : CacheState R = record w.cache {
        redis =
            (send_set (some redis) json redis k (json.stringify response) (positive_ttl (some ttl))
              w.cache.redis).1;
      } in
      let stored : Service.set (some redis) json k response (some ttl) w.cache ≡ (ok b, c') =
        e ∙ rw sent refl in
      (
        b,
        record w { cache = c' },
        ap (λ p. recover p.0 (λ x s. (ok false, s)) (record w { cache = p.1 })) stored,
        up,
        after k ∙ rw (eq_refl k) refl,
      )

  -- A GET request under a key that the cache does not have is answered by its handler. The next one
  -- of the same key is answered with that response as JSON reads it back, which is not null, whatever
  -- its handler does,
  -- and the database stays as it is.
  pub repeated_request_cached :
      (options : CacheOptions) (req : HttpRequest) (handle other : Exec (World D (CacheState R)) T)
      (prefix : String) (w w2 : World D (CacheState R)) (v v' : T)
      → req.http_method ≡ "GET"
      → options.cache_key_prefix ≡ some prefix
      → prefix ≢ ""
      → is_connected w.cache ≡ true
      → laws.stored w.cache.redis (build_cache_key prefix req) ≡ none
      → handle (on_cache (Service.get (some redis) json (build_cache_key prefix req)) w).1
        ≡ (ok v, w2)
      → is_connected w2.cache ≡ true
      → json.parse (json.stringify v) ≡ some (some v')
      → let first = intercept (some redis) json options req handle w in
        (first.0 ≡ ok v)
        × ((intercept (some redis) json options req other first.1).0 ≡ ok v')
        × ((intercept (some redis) json options req other first.1).1.db ≡ first.1.db)
  unfolding serve_cached or_handled
  repeated_request_cached options req handle other prefix w w2 v v' get key more up absent handled
        up2 reads =
      let k = build_cache_key prefix req in
      let ttl = ttl_of options.cache_ttl in
      let look : Exec (World D (CacheState R)) (Option T) =
        try_catch (on_cache (Service.get (some redis) json k)) (λ e. pure none) in
      let keep : Exec (World D (CacheState R)) Bool =
        try_catch (on_cache (Service.set (some redis) json k v (some ttl))) (λ e. pure false) in
      let (w1, got, state, _) = get_step k w up in
      let missed : look w ≡ (ok none, w1) = got ∙ rw absent refl in
      let ran : handle w1 ≡ (ok v, w2) = ap handle state ∙ handled in
      let (b, w3, stored, up3, has) = keep_response k ttl v w2 up2 in
      let first : intercept (some redis) json options req handle w ≡ (ok v, w3) =
        intercept-serves options req handle prefix w get key more up
        ∙ run-step look (or_handled (some redis) json k ttl handle) w w1 none missed
        ∙ run-step handle _ w1 w2 v ran
        ∙ run-step keep (λ _. pure v) w2 w3 b stored in
      let (w4, again, _, same) = get_step k w3 up3 in
      let found : look w3 ≡ (ok (some v'), w4) = again ∙ rw has (rw reads refl) in
      let second : intercept (some redis) json options req other w3 ≡ (ok v', w4) =
        intercept-serves options req other prefix w3 get key more up3
        ∙ run-step look (or_handled (some redis) json k ttl other) w3 w4 (some v') found in
      (
        ap (λ p. p.0) first,
        ap (λ p. (intercept (some redis) json options req other p.1).0) first
            ∙ ap (λ p. p.0) second,
        ap (λ p. (intercept (some redis) json options req other p.1).1.db) first
            ∙ ap (λ p. p.1.db) second
            ∙ same
            ∙ sym (ap (λ p. p.1.db) first),
      )
