-- ===== src/Auth/Deps.antt =====
-- What src/auth/auth.service.ts is given: the Prisma client, the cache, the JWT library, `JSON` and
-- SHA-256. None of it is code of this repository, so each is a parameter with the calls that the
-- service makes of it; the documented behaviour that theorems rely on stands in `Auth.Deps.Laws`.
-- The rows are those of prisma/schema.prisma, without the columns that the service never reads, such
-- as updatedAt, which Prisma sets on every update.
-- Times are in milliseconds.
pub mod Laws
use nestjs_vibe_engine.Prelude.{ℕ, String, Bool, Option, List, none, some}
use nestjs_vibe_engine.Js.Map.{TextMap}
use nestjs_vibe_engine.Exec.{Exec}

pub record User : Type 0 where
  pub id : String
  pub google_id : String
  pub email : String
  pub name : String
  pub picture : Option String
  pub deleted_at : Option ℕ

pub record UserSession : Type 0 where
  pub id : String
  pub user_id : String
  pub refresh_token : String
  pub is_valid : Bool
  pub deleted_at : Option ℕ
  pub expires_at : ℕ

-- The `data` of an update: `none` for a field that is not given.
pub record SessionUpdate : Type 0 where
  pub refresh_token : Option String
  pub is_valid : Option Bool
  pub updated_at : Option ℕ

pub record UserUpdate : Type 0 where
  pub name : Option String
  pub picture : Option String

-- The `where` of the service's queries on many sessions.
pub data SessionFilter : Type 0 where
  -- { userId, isValid: true, deletedAt: null }
  active_of : (user_id : String) → SessionFilter
  -- { id: { in: ids } }
  id_in : (ids : List String) → SessionFilter

pub record NewUser : Type 0 where
  pub google_id : String
  pub email : String
  pub name : String
  pub picture : Option String

pub record NewSession : Type 0 where
  pub user_id : String
  pub refresh_token : String
  pub is_valid : Bool
  pub expires_at : ℕ

-- prisma.user and prisma.userSession
pub record Prisma (D : Type 0) : Type 0 where
  pub find_user_by_google_id : String → Exec D (Option User)
  pub find_user_by_email : String → Exec D (Option User)
  pub create_user : NewUser → Exec D User
  pub update_user : String → UserUpdate → Exec D User
  pub find_session : String → Exec D (Option UserSession)
  -- with `include: { user: true }`
  pub find_session_with_user : String → Exec D (Option (UserSession × User))
  pub find_sessions : SessionFilter → Exec D (List UserSession)
  pub create_session : NewSession → Exec D UserSession
  pub update_session : String → SessionUpdate → Exec D (Unit {0})
  pub update_sessions : SessionFilter → SessionUpdate → Exec D (Unit {0})

-- CacheServiceInterface
pub record Cache (C : Type 0) : Type 0 where
  pub get : String → Exec C (Option String)
  pub set : String → String → ℕ → Exec C (Unit {0})
  pub del : String → Exec C (Unit {0})
  pub exists : String → Exec C Bool

-- The claims of a token that are texts; `iat` and `exp` are left to the library.
abbrev pub Claims : Type 0
Claims = TextMap String

-- `sign` takes the time, the claims and `expiresIn` in seconds; `verify` takes the time, and is
-- `none` where the library throws.
pub record Jwt : Type 0 where
  pub sign : ℕ → Claims → ℕ → String
  pub verify : ℕ → String → Option Claims

pub record UserInfo : Type 0 where
  pub id : String
  pub email : String
  pub name : String
  pub picture : Option String
  pub session_id : String

-- JSON.stringify and JSON.parse at `UserInfo`; `none` where parsing throws.
pub record Json : Type 0 where
  pub stringify : UserInfo → String
  pub parse : String → Option UserInfo

pub record Deps (D C : Type 0) : Type 0 where
  pub prisma : Prisma D
  -- null until `setCacheService`
  pub cache : Option (Cache C)
  pub jwt : Jwt
  pub json : Json
  pub sha256_hash : String → String
  pub max_devices_per_user : ℕ

unfoldable pub set_cache_service : {D C : Type 0} → Cache C → Deps D C → Deps D C
set_cache_service cache deps = record deps { cache = some cache }
