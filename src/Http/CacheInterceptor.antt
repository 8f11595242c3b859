-- ===== src/Http/CacheInterceptor.antt =====
-- src/common/interceptors/cache.interceptor.ts over the modelled cache service. A handler's response
-- is cached before the next request runs; log output is left out. The values of a query are texts.
pub mod Repeated
mod Tests
use Prim.Native.String.{compare}
use Prim.Native.Nat.{Ordering}
use nestjs_vibe_engine.Prelude.{
  ℕ, String, Bool, true, false, Option, none, some, List, [], ◌∷◌, nat_eq, if◌then◌else◌, ◌==◌,
}
use nestjs_vibe_engine.Js.Text.{◌⧺◌}
use nestjs_vibe_engine.Exec.{Exec, World, pure, try_catch, on_cache, ◌>>=◌, ◌>>◌}
use nestjs_vibe_engine.Cache.Service
use nestjs_vibe_engine.Cache.Service.{Redis, Json, CacheState, is_connected}

pub record HttpRequest : Type 0 where
  pub http_method : String
  pub path : String
  pub query : List (String × String)

-- What @CacheKey and @CacheTTL say of a handler.
pub record CacheOptions : Type 0 where
  pub cache_key_prefix : Option String
  pub cache_ttl : Option ℕ

abbrev pub default_cache_ttl : ℕ
default_cache_ttl = 300

-- reflector.get(CACHE_TTL_METADATA) || DEFAULT_CACHE_TTL
abbrev pub ttl_of : Option ℕ → ℕ
ttl_of none = default_cache_ttl
ttl_of (some n) = if nat_eq n 0 then default_cache_ttl else n

abbrev not_after : String → String → Bool
not_after a b = elim (compare a b) [ Ordering.gt ↦ false | _ ↦ true ]

unfoldable pub insert_param : String × String → List (String × String) → List (String × String)
insert_param p [] = p ∷ []
insert_param p (q ∷ qs) =
    let rest = insert_param p qs in if not_after p.0 q.0 then p ∷ q ∷ qs else q ∷ rest

-- Object.keys(query).sort(), with the values.
unfoldable pub sort_params : List (String × String) → List (String × String)
sort_params [] = []
sort_params (p ∷ ps) = insert_param p (sort_params ps)

unfoldable pub join_params : List (String × String) → String
join_params [] = ""
join_params ((k, v) ∷ []) = k ⧺ ("=" ⧺ v)
join_params ((k, v) ∷ p ∷ ps) = k ⧺ ("=" ⧺ (v ⧺ ("&" ⧺ join_params (p ∷ ps))))

unfoldable pub build_cache_key : String → HttpRequest → String
build_cache_key prefix req =
    let sorted_query = join_params (sort_params req.query) in
    let base = prefix ⧺ (":" ⧺ (req.http_method ⧺ (":" ⧺ req.path))) in
    if sorted_query == "" then base else base ⧺ ("?" ⧺ sorted_query)

module _ {D R T : Type 0} (client : Option (Redis R)) (json : Json T) where
  -- Behind the look-up in the cache.
  unfoldable pub or_handled :
      String → ℕ → Exec (World D (CacheState R)) T → Option T → Exec (World D (CacheState R)) T
  or_handled cache_key ttl handle (some cached_value) = pure cached_value
  or_handled cache_key ttl handle none = do
    response ← handle
    try_catch (on_cache (Service.set client json cache_key response (some ttl))) (λ e. pure false)
    pure response

  unfoldable pub serve_cached :
      String → ℕ → Exec (World D (CacheState R)) T → Exec (World D (CacheState R)) T
  serve_cached cache_key ttl handle =
      try_catch (on_cache (Service.get client json cache_key)) (λ e. pure none)
      >>= or_handled cache_key ttl handle

  abbrev pub if_connected :
      Exec (World D (CacheState R)) T
      → Exec (World D (CacheState R)) T
      → Exec (World D (CacheState R)) T
  if_connected serve handle w = if is_connected w.cache then serve w else handle w

  abbrev pub with_prefix :
      Option String
      → ℕ
      → HttpRequest
      → Exec (World D (CacheState R)) T
      → Exec (World D (CacheState R)) T
  with_prefix none ttl req handle = handle
  with_prefix (some prefix) ttl req handle =
      if prefix == ""
      then handle
      else if_connected (serve_cached (build_cache_key prefix req) ttl handle) handle

  unfoldable pub intercept :
      CacheOptions → HttpRequest → Exec (World D (CacheState R)) T → Exec (World D (CacheState R)) T
  intercept options req handle =
      if req.http_method == "GET"
      then with_prefix options.cache_key_prefix (ttl_of options.cache_ttl) req handle
      else handle
