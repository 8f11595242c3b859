-- ===== src/Auth/Service.antt =====
-- src/auth/auth.service.ts: the public methods.
pub mod Refresh
pub mod Rotation
pub mod Concurrent
pub mod Logout
pub mod Validate
pub mod Login
use nestjs_vibe_engine.Prelude.{
  ℕ, ◌+◌, ◌*◌, String, Bool, true, false, not, ◌&&◌, ◌||◌, Option, none, some, List, [], ◌∷◌, ltb,
  if◌then◌else◌, is_some, ◌==◌,
}
use nestjs_vibe_engine.Js.Map
use nestjs_vibe_engine.Exec.{Exec, World, pure, throw, http, failure, on_db, ◌>>=◌, ◌>>◌}
use nestjs_vibe_engine.Auth.Deps.{User, UserSession, UserUpdate, UserInfo, Claims, Deps}
use nestjs_vibe_engine.Auth.Tokens.{
  generate_tokens, constant_time_compare, access_token_expires_in_seconds,
  refresh_token_expires_in_seconds,
}
use nestjs_vibe_engine.Auth.Sessions.{
  invalidated, invalidate_existing_sessions, create_session, cache_user_info,
  invalidate_all_user_sessions, invalidate_single_session, is_session_invalidated_in_cache,
  get_cached_user_info, clear_cached_user_info,
}

pub record GoogleProfile : Type 0 where
  pub google_id : String
  pub email : String
  pub name : String
  -- none: undefined
  pub picture : Option String

pub record Tokens : Type 0 where
  pub access_token : String
  pub refresh_token : String
  pub access_expires_in : ℕ
  pub refresh_expires_in : ℕ

pub record AuthResponse : Type 0 where
  pub user_id : String
  pub email : String
  pub name : String
  pub picture : Option String
  pub tokens : Tokens
  pub is_new_user : Bool

pub record SessionInfo : Type 0 where
  pub user_id : String
  pub session_id : String
  pub email : String
  pub name : String
  pub picture : Option String

pub record LogoutResponse : Type 0 where
  pub message : String
  pub sessions_invalidated : ℕ

-- `profile.picture !== user.picture`: undefined and null differ.
abbrev pub picture_differs : Option String → Option String → Bool
picture_differs (some a) (some b) = not (a == b)
picture_differs _ _ = true

abbrev pub text_or_empty : Option String → String
text_or_empty none = ""
text_or_empty (some t) = t

abbrev pub update_data : GoogleProfile → User → UserUpdate
update_data profile user = record {
  name = if profile.name == user.name then none else some profile.name;
  picture =
      if picture_differs profile.picture user.picture
      then some (text_or_empty profile.picture)
      else none;
}

-- `user.picture || undefined`
abbrev pub non_empty : Option String → Option String
non_empty none = none
non_empty (some t) = if t == "" then none else some t

-- The claims that every token of this service has. A token without them would hand `undefined` to
-- Prisma; this is modelled as a failure.
abbrev pub require_claim : {S : Type 0} → Claims → String → Exec S String
require_claim claims name = elim (Map.get claims name) [
  | none ↦ throw (failure "undefined")
  | some value ↦ pure value
]

abbrev pub still_valid : Option UserSession → Option UserSession
still_valid none = none
still_valid (some s) = if s.is_valid && not (is_some s.deleted_at) then some s else none

abbrev pub to_session_info : UserInfo → String → SessionInfo
to_session_info info session_id = record {
  user_id = info.id;
  session_id = session_id;
  email = info.email;
  name = info.name;
  picture = info.picture;
}

-- The session row with its user, if the row is valid and is this user's.
abbrev pub own_session : String → Option (UserSession × User) → Option (UserSession × User)
own_session user_id none = none
own_session user_id (some (session, user)) =
    if session.is_valid && not (is_some session.deleted_at) && session.user_id == user_id
    then some (session, user)
    else none

module _ {D C : Type 0} (deps : Deps D C) where
  unfoldable pub find_or_create_user : GoogleProfile → Exec (World D C) (User × Bool)
  find_or_create_user profile = do
    found ← on_db (deps.prisma.find_user_by_google_id profile.google_id)
    elim found [
      | none ↦ do
        existing ← on_db (deps.prisma.find_user_by_email profile.email)
        if is_some existing
            then throw (http 401 "Email is already registered with a different account")
            else (do
              user ← on_db (
                  deps.prisma.create_user (record {
                    google_id = profile.google_id;
                    email = profile.email;
                    name = profile.name;
                    picture = profile.picture;
                  }))
              pure (user, true))
      | some user ↦
          let changes = update_data profile user in
          if is_some changes.name || is_some changes.picture
          then (do user' ← on_db (deps.prisma.update_user user.id changes); pure (user', false))
          else pure (user, false)
    ]

  -- `now` is the time of the call, `token_id` the random part of the refresh token.
  unfoldable pub handle_google_login : ℕ → String → GoogleProfile → Exec (World D C) AuthResponse
  handle_google_login now token_id profile = do
    (user, is_new_user) ← find_or_create_user profile
    invalidate_existing_sessions deps user.id
    session ← create_session deps now user.id
    let tokens = generate_tokens deps now token_id user.id session.id
    on_db (
        deps.prisma.update_session session.id (record {
          refresh_token = some (deps.sha256_hash tokens.refresh_token);
          is_valid = none;
          updated_at = none;
        }))
    cache_user_info deps user.id (record {
      id = user.id;
      email = user.email;
      name = user.name;
      picture = user.picture;
      session_id = session.id;
    })
    pure (record {
      user_id = user.id;
      email = user.email;
      name = user.name;
      picture = non_empty user.picture;
      tokens = record {
        access_token = tokens.access_token;
        refresh_token = tokens.refresh_token;
        access_expires_in = access_token_expires_in_seconds;
        refresh_expires_in = refresh_token_expires_in_seconds;
      };
      is_new_user = is_new_user;
    })

  -- The part of `refreshTokens` behind the two checks of the session.
  unfoldable pub rotate : ℕ → String → String → String → UserSession → Exec (World D C) Tokens
  rotate now token_id user_id refresh_token session =
      if constant_time_compare (deps.sha256_hash refresh_token) session.refresh_token
      then (do
        let tokens = generate_tokens deps now token_id user_id session.id
        on_db (
            deps.prisma.update_session session.id (record {
              refresh_token = some (deps.sha256_hash tokens.refresh_token);
              is_valid = none;
              updated_at = some now;
            }))
        pure (record {
          access_token = tokens.access_token;
          refresh_token = tokens.refresh_token;
          access_expires_in = access_token_expires_in_seconds;
          refresh_expires_in = refresh_token_expires_in_seconds;
        }))
      else (do
        invalidate_all_user_sessions deps user_id
        throw (http 401 "Token reuse detected. All sessions have been invalidated for security."))

  -- The part of `refreshTokens` behind the look-up of the session.
  unfoldable pub refresh_session :
      ℕ → String → String → String → Option UserSession → Exec (World D C) Tokens
  refresh_session now token_id user_id refresh_token none =
      throw (http 401 "Session is no longer valid")
  refresh_session now token_id user_id refresh_token (some session) =
      if ltb session.expires_at now
      then (do
        on_db (deps.prisma.update_session session.id invalidated)
        throw (http 401 "Session has expired"))
      else rotate now token_id user_id refresh_token session

  unfoldable pub refresh_claimed : ℕ → String → String → Claims → Exec (World D C) Tokens
  refresh_claimed now token_id refresh_token payload = do
    user_id ← require_claim payload "userId"
    session_id ← require_claim payload "sessionId"
    found ← on_db (deps.prisma.find_session session_id)
    refresh_session now token_id user_id refresh_token (still_valid found)

  unfoldable pub refresh_tokens : ℕ → String → String → Exec (World D C) Tokens
  refresh_tokens now token_id refresh_token = elim (deps.jwt.verify now refresh_token) [
    | none ↦ throw (http 401 "Invalid refresh token")
    | some payload ↦ refresh_claimed now token_id refresh_token payload
  ]

  -- The part of `validateSession` behind the look-up of the session row.
  unfoldable pub validate_owned :
      ℕ → String → Option (UserSession × User) → Exec (World D C) (Option SessionInfo)
  validate_owned now user_id none = pure none
  validate_owned now user_id (some (session, user)) =
      if ltb session.expires_at now
      then (do on_db (deps.prisma.update_session session.id invalidated); pure none)
      else (let info : UserInfo = record {
        id = user.id;
        email = user.email;
        name = user.name;
        picture = user.picture;
        session_id = session.id;
      } in
          do cache_user_info deps user_id info; pure (some (to_session_info info session.id)))

  -- The way of `validateSession` past the cache.
  unfoldable pub validate_in_db : ℕ → String → String → Exec (World D C) (Option SessionInfo)
  validate_in_db now user_id session_id = do
    found ← on_db (deps.prisma.find_session_with_user session_id)
    validate_owned now user_id (own_session user_id found)

  unfoldable pub validate_session : ℕ → String → String → Exec (World D C) (Option SessionInfo)
  validate_session now user_id session_id = do
    is_invalidated ← is_session_invalidated_in_cache deps session_id
    if is_invalidated then pure none else do
      cached_user ← get_cached_user_info deps user_id
      elim cached_user [
        | some info ↦ pure (some (to_session_info info session_id))
        | none ↦ validate_in_db now user_id session_id
      ]

  unfoldable pub logout : String → String → Bool → Exec (World D C) LogoutResponse
  logout user_id session_id all_devices =
      if all_devices
      then (do
        n ← invalidate_all_user_sessions deps user_id
        clear_cached_user_info deps user_id
        pure (record { message = "All sessions have been invalidated"; sessions_invalidated = n }))
      else (do
        invalidate_single_session deps session_id
        clear_cached_user_info deps user_id
        pure (record { message = "Session has been invalidated"; sessions_invalidated = 1 }))
