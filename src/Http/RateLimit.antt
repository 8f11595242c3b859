-- ===== src/Http/RateLimit.antt =====
-- src/common/middleware/rate-limit.middleware.ts, over the cache service.
use nestjs_vibe_engine.Prelude.{ℕ, String, Option, none, some, ◌==◌, is_some, if◌then◌else◌}
use nestjs_vibe_engine.Js.Int.{ℤ, is_one, exceeds, headroom, pos}
use nestjs_vibe_engine.Js.Text.{key, strip_prefix, trim, before}
use nestjs_vibe_engine.Exec.{Exec, pure, try_catch, ◌>>=◌, ◌>>◌}
use nestjs_vibe_engine.Cache.Service.{Redis, CacheState, incr, expire, ttl, is_connected}

abbrev pub global_limit : ℕ
global_limit = 100

abbrev pub auth_limit : ℕ
auth_limit = 10

abbrev pub window_seconds : ℕ
window_seconds = 60

-- What the middleware reads of a request; `ip` is none or "" where Express has none.
pub record Request : Type 0 where
  pub user_id : Option String
  pub forwarded_for : Option String
  pub ip : Option String
  pub path : String

abbrev pub non_empty_or : String → Option String → String
non_empty_or other none = other
non_empty_or other (some t) = if t == "" then other else t

-- Without a user.
abbrev pub from_address : Request → String
from_address req = elim req.forwarded_for [
  | some forwarded ↦ trim (before "," forwarded)
  | none ↦ non_empty_or "0.0.0.0" req.ip
]

unfoldable pub get_identifier : Request → String
get_identifier req = non_empty_or (from_address req) req.user_id

pub record Headers : Type 0 where
  pub limit : ℕ
  pub remaining : ℕ
  pub reset : ℤ

pub data Reply : Type 0 where
  -- next(), with the headers that were set
  passed : Option Headers → Reply
  -- 429 with RATE_001
  too_many : Headers → Reply

unfoldable pub limit_of : Request → ℕ
limit_of req = if is_some (strip_prefix "/auth" req.path) then auth_limit else global_limit

unfoldable pub cache_key : Request → String
cache_key req = key "rate_limit" (key (get_identifier req) req.path)

unfoldable pub headers_of : Request → ℤ → ℤ → Headers
headers_of req current_count remaining_ttl = record {
  limit = limit_of req;
  remaining = headroom (limit_of req) current_count;
  reset = if exceeds remaining_ttl 0 then remaining_ttl else pos window_seconds;
}

module _ {R : Type 0} (client : Option (Redis R)) where
  -- The `try` block.
  unfoldable pub check : Request → Exec (CacheState R) Reply
  check req = do
    current_count ← incr client (cache_key req)
    if is_one current_count
        then (expire client (cache_key req) window_seconds >> pure tt)
        else pure tt
    remaining_ttl ← ttl client (cache_key req)
    let headers = headers_of req current_count remaining_ttl
    if exceeds current_count (limit_of req)
        then pure (too_many headers)
        else pure (passed (some headers))

  unfoldable pub use_middleware : Request → Exec (CacheState R) Reply
  use_middleware req s =
      if is_connected s
      then try_catch (check req) (λ _. pure (passed none)) s
      else (pure (passed none)) s
