-- ===== src/Http/CacheInterceptor/Tests.antt =====
-- Tests of the cache interceptor over the Redis server of the cache's tests.
use nestjs_vibe_engine.Prelude.{ℕ, String, ◌≡◌, ◌≢◌, refl, true, none, some, [], ◌∷◌, arith, eq_iff}
use nestjs_vibe_engine.Js.Map
use nestjs_vibe_engine.Exec.{Exec, World, ok, err, failure, on_cache}
use nestjs_vibe_engine.Cache.Service
use nestjs_vibe_engine.Cache.Service.{CacheState, is_connected}
use nestjs_vibe_engine.Cache.Tests.{Server, redis, redis_laws, json}
use nestjs_vibe_engine.Http.CacheInterceptor.{
  HttpRequest, CacheOptions, build_cache_key, intercept, sort_params, insert_param, join_params,
}
use nestjs_vibe_engine.Http.CacheInterceptor.Repeated.{repeated_request_cached}

abbrev options : CacheOptions
options = record { cache_key_prefix = some "users"; cache_ttl = none }

abbrev request : HttpRequest
request = record { http_method = "GET"; path = "/users"; query = ("b", "2") ∷ ("a", "1") ∷ [] }

sorted_key : build_cache_key "users" request ≡ "users:GET:/users?a=1&b=2"
unfolding build_cache_key sort_params insert_param join_params
sorted_key = refl

abbrev world : World ℕ (CacheState Server)
world = record {
  db = 0;
  cache = record {
    redis = record { texts = []; counts = [] };
    stats = record { hits = 0; misses = 0; keys = 0; connected = true };
  };
}

abbrev handle : Exec (World ℕ (CacheState Server)) String
handle w = (ok "page", record w { db = 1 })

abbrev other : Exec (World ℕ (CacheState Server)) String
other w = (err (failure "down"), w)

abbrev looked_up : World ℕ (CacheState Server)
looked_up = (on_cache (Service.get (some redis) json (build_cache_key "users" request)) world).1

abbrev users : String
users = "users"

prefix_given : users ≢ ""
prefix_given e = ground (arith, (eq_iff users "").1 e)

up : is_connected world.cache ≡ true
unfolding is_connected
up = refl

still_up : is_connected (handle looked_up).1.cache ≡ true
unfolding is_connected Service.get redis Map.get
still_up = refl

absent : redis_laws.stored world.cache.redis (build_cache_key "users" request) ≡ none
unfolding redis_laws Map.get
absent = refl

repeated_request_cached_example :
    (intercept
      (some redis)
      json
      options
      request
      other
      (intercept (some redis) json options request handle world).1).0
    ≡ ok "page"
repeated_request_cached_example =
    (repeated_request_cached redis redis_laws json options request handle other users world
      (handle looked_up).1 "page" "page" refl refl prefix_given up absent refl still_up refl).1
