-- ===== src/Cache/Tests/Cases.antt =====
-- The cache service and the rate limit at concrete inputs.
use nestjs_vibe_engine.Prelude.{◌<◌, ◌↔◌, ◌≡◌, refl, true, false, none, some, [], ◌∷◌}
use nestjs_vibe_engine.Js.Map
use nestjs_vibe_engine.Cache.Service.{CacheState, get, is_connected}
use nestjs_vibe_engine.Cache.Fallbacks.{is_ok, never_throws}
use nestjs_vibe_engine.Cache.Tests.{Server, redis, counter_laws, count, json}
use nestjs_vibe_engine.Http.RateLimit.{Request, use_middleware, limit_of, cache_key}
use nestjs_vibe_engine.Http.RateWindow.{is_passed, after_requests, request_passes_iff}

abbrev up : CacheState Server
up = record {
  redis = record { texts = ("a", "1") ∷ []; counts = [] };
  stats = record { hits = 0; misses = 0; keys = 0; connected = true };
}

abbrev down : CacheState Server
down = record up { stats = record { hits = 0; misses = 0; keys = 0; connected = false } }

up-is_connected : is_connected up ≡ true
unfolding is_connected
up-is_connected = refl

down-is_connected : is_connected down ≡ false
unfolding is_connected
down-is_connected = refl

never_throws_example : is_ok (get (some redis) json "a" up).0 ≡ true
never_throws_example = (never_throws (some redis) json "a" ("a" ∷ []) 1 "v" none [] up).0

abbrev login : Request
login = record {
  user_id = none;
  forwarded_for = some " 10.0.0.7 , 10.0.0.1";
  ip = none;
  path = "/auth/google";
}

nothing_counted : counter_laws.counter up.redis (cache_key login) ≡ 0
unfolding counter_laws count Map.get
nothing_counted = refl

request_passes_iff_example :
    (is_passed (use_middleware (some redis) login (after_requests redis counter_laws login 10 up)).0
      ≡ true)
    ↔ (10 < limit_of login)
request_passes_iff_example =
    request_passes_iff redis counter_laws login 10 up up-is_connected nothing_counted
