-- ===== src/User/Controller.antt =====
-- src/user/user.controller.ts behind its guards, over the modelled user service. `user_id` is what
-- the handlers read as `user.id`. An answer is its `data`; log output is left out.
pub mod Answers
use nestjs_vibe_engine.Prelude.{ℕ, String, Option, none, some, ◌==◌, if◌then◌else◌}
use nestjs_vibe_engine.Js.Text.{trim}
use nestjs_vibe_engine.Exec.{Exec, World, pure, throw, http, ◌>>=◌, ◌>>◌}
use nestjs_vibe_engine.Cache.Service.{CacheState}
use nestjs_vibe_engine.User.Service.{
  UserDeps, UserProfile, get_profile, update, soft_delete, restore,
}

-- none: undefined
pub record UpdateUserDto : Type 0 where
  pub name : Option String
  pub picture : Option (Option String)

pub record RestoredProfile : Type 0 where
  pub profile : UserProfile
  pub message : String

-- The name as the service gets it: trimmed, and not empty.
abbrev pub checked_name : {S : Type 0} → Option String → Exec S (Option String)
checked_name none = pure none
checked_name (some name) =
    if trim name == ""
    then throw (http 400 "Name cannot be empty or whitespace only")
    else pure (some (trim name))

module _ {D R : Type 0} (deps : UserDeps D R) where
  unfoldable pub get_my_profile : String → Exec (World D (CacheState R)) UserProfile
  get_my_profile user_id = get_profile deps user_id

  -- Behind the check of the name.
  unfoldable pub update_checked :
      ℕ
      → String
      → Option (Option String)
      → Option String
      → Exec (World D (CacheState R)) UserProfile
  update_checked now user_id picture name =
      update deps now user_id name picture >> get_profile deps user_id

  unfoldable pub update_my_profile :
      ℕ → String → UpdateUserDto → Exec (World D (CacheState R)) UserProfile
  update_my_profile now user_id dto =
      checked_name dto.name >>= update_checked now user_id dto.picture

  unfoldable pub delete_my_account : ℕ → String → Exec (World D (CacheState R)) String
  delete_my_account now user_id =
      soft_delete deps now user_id >> pure "Account successfully deleted"

  unfoldable pub restore_account : String → Exec (World D (CacheState R)) RestoredProfile
  restore_account user_id = if user_id == "" then throw (http 400 "userId is required") else (do
    restore deps user_id
    profile ← get_profile deps user_id
    pure (record { profile = profile; message = "Account successfully restored" }))
