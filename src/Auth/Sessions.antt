-- ===== src/Auth/Sessions.antt =====
-- src/auth/auth.service.ts: the private methods on sessions and on the cache. A failure of the cache
-- is caught and logged; log output is left out.
pub mod Effects
use nestjs_vibe_engine.Prelude.{
  ℕ, ◌+◌, ◌*◌, String, Bool, true, false, ◌&&◌, Option, none, some, List, [], ◌∷◌, map, ltb, leb,
  nat_eq, length, if◌then◌else◌, ◌==◌,
}
use nestjs_vibe_engine.Js.Text.{key}
use nestjs_vibe_engine.Exec.{Exec, World, pure, try_catch, on_db, on_cache, ◌>>=◌, ◌>>◌}
use nestjs_vibe_engine.Auth.Deps.{
  User, UserSession, SessionUpdate, active_of, id_in, NewSession, Prisma, Cache, UserInfo, Deps,
}
use nestjs_vibe_engine.Auth.Tokens.{refresh_token_expires_in_seconds, user_info_cache_ttl}

abbrev pub session_invalid_key : String → String
session_invalid_key session_id = key "session_invalid" session_id

abbrev pub user_info_key : String → String
user_info_key user_id = key "user_info" user_id

-- data: { isValid: false }
abbrev pub invalidated : SessionUpdate
invalidated = record { refresh_token = none; is_valid = some false; updated_at = none }

abbrev pub parsed : (String → Option UserInfo) → Option String → Option UserInfo
parsed parse none = none
parsed parse (some cached) = if cached == "" then none else parse cached

module _ {D C : Type 0} (deps : Deps D C) where
  unfoldable pub mark_session_invalid_in_cache : String → Exec (World D C) (Unit {0})
  mark_session_invalid_in_cache session_id w = elim deps.cache [
    | none ↦ (pure tt) w
    | some cache ↦
        try_catch
          (on_cache
            (cache.set (session_invalid_key session_id) "true" refresh_token_expires_in_seconds))
          (λ _. pure tt) w
  ]

  unfoldable pub is_session_invalidated_in_cache : String → Exec (World D C) Bool
  is_session_invalidated_in_cache session_id w = elim deps.cache [
    | none ↦ (pure false) w
    | some cache ↦
        try_catch (on_cache (cache.exists (session_invalid_key session_id))) (λ _. pure false) w
  ]

  unfoldable pub cache_user_info : String → UserInfo → Exec (World D C) (Unit {0})
  cache_user_info user_id info w = elim deps.cache [
    | none ↦ (pure tt) w
    | some cache ↦
        try_catch
          (on_cache
            (cache.set (user_info_key user_id) (deps.json.stringify info) user_info_cache_ttl))
          (λ _. pure tt) w
  ]

  -- A text that JSON.parse refuses is caught too, and counts as no entry.
  unfoldable pub get_cached_user_info : String → Exec (World D C) (Option UserInfo)
  get_cached_user_info user_id w = elim deps.cache [
    | none ↦ (pure none) w
    | some cache ↦
        try_catch
          (on_cache (cache.get (user_info_key user_id)) >>= λ cached.
            pure (parsed deps.json.parse cached))
          (λ _. pure none) w
  ]

  unfoldable pub clear_cached_user_info : String → Exec (World D C) (Unit {0})
  clear_cached_user_info user_id w = elim deps.cache [
    | none ↦ (pure tt) w
    | some cache ↦ try_catch (on_cache (cache.del (user_info_key user_id))) (λ _. pure tt) w
  ]

  -- for (const sid of ids) await this.markSessionInvalidInCache(sid)
  unfoldable pub mark_all : List String → Exec (World D C) (Unit {0})
  mark_all [] = pure tt
  mark_all (id ∷ ids) = let rest = mark_all ids in do mark_session_invalid_in_cache id; rest

  unfoldable pub invalidate_existing_sessions : String → Exec (World D C) (Unit {0})
  invalidate_existing_sessions user_id = do
    active ← on_db (deps.prisma.find_sessions (active_of user_id))
    if ltb 0 deps.max_devices_per_user && leb deps.max_devices_per_user (length active)
        then (do
          let ids = map (λ s. s.id) active
          on_db (deps.prisma.update_sessions (id_in ids) invalidated)
          mark_all ids)
        else pure tt

  -- `now` is `new Date()`.
  unfoldable pub create_session : ℕ → String → Exec (World D C) UserSession
  create_session now user_id = on_db (
      deps.prisma.create_session (record {
        user_id = user_id;
        refresh_token = "";
        is_valid = true;
        expires_at = now + refresh_token_expires_in_seconds * 1000;
      }))

  unfoldable pub invalidate_all_user_sessions : String → Exec (World D C) ℕ
  invalidate_all_user_sessions user_id = do
    active ← on_db (deps.prisma.find_sessions (active_of user_id))
    if nat_eq (length active) 0 then pure 0 else do
      on_db (deps.prisma.update_sessions (active_of user_id) invalidated)
      mark_all (map (λ s. s.id) active)
      pure (length active)

  unfoldable pub invalidate_single_session : String → Exec (World D C) (Unit {0})
  invalidate_single_session session_id = do
    on_db (deps.prisma.update_session session_id invalidated)
    mark_session_invalid_in_cache session_id
