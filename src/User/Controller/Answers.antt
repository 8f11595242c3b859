-- ===== src/User/Controller/Answers.antt =====
-- What a request to change a profile comes to, by the name of its body.
use nestjs_vibe_engine.Prelude.{
  arith, ℕ, String, ◌≡◌, refl, ap, Bool, true, false, Option, none, some, ◌==◌,
}
use nestjs_vibe_engine.Js.Text.{trim}
use nestjs_vibe_engine.Exec.{World, ok, err, http, run-step, continue, ◌>>◌}
use nestjs_vibe_engine.Cache.Service.{CacheState}
use nestjs_vibe_engine.User.Service.{UserDeps, update, get_profile}
use nestjs_vibe_engine.User.Controller.{
  UpdateUserDto, update_my_profile, update_checked, checked_name,
}

-- `name` of the body after the check: not given, or trimmed.
abbrev pub trimmed : Option String → Option String
trimmed none = none
trimmed (some name) = some (trim name)

abbrev pub blank : Option String → Bool
blank none = false
blank (some name) = trim name == ""

module _ {D R : Type 0} (deps : UserDeps D R) where
  checked_name_lem :
      (given_name : Option String) (w : World D (CacheState R))
      → blank given_name ≡ false
      → checked_name given_name w ≡ (ok (trimmed given_name), w)
  checked_name_lem none w h = refl
  checked_name_lem (some name) w h = rw h refl

  checked_name-blank :
      (given_name : Option String) (w : World D (CacheState R))
      → blank given_name ≡ true
      → checked_name given_name w ≡ (err (http 400 "Name cannot be empty or whitespace only"), w)
  checked_name-blank none w h = absurd (ground arith)
  checked_name-blank (some name) w h = rw h refl

  -- A blank name is answered with status 400 and changes nothing; any other body is passed to the
  -- service with its name trimmed.
  pub update_my_profile-checks :
      (now : ℕ) (id : String) (dto : UpdateUserDto) (w : World D (CacheState R))
      → (blank dto.name ≡ true
          → update_my_profile deps now id dto w
            ≡ (err (http 400 "Name cannot be empty or whitespace only"), w))
        × (blank dto.name ≡ false
            → update_my_profile deps now id dto w
              ≡ (update deps now id (trimmed dto.name) dto.picture >> get_profile deps id) w)
  unfolding update_my_profile update_checked
  update_my_profile-checks now id dto w = (
    λ h.
        ap (λ p. continue p.0 (update_checked deps now id dto.picture) p.1)
          (checked_name-blank dto.name w h),
    λ h.
        run-step (checked_name dto.name) (update_checked deps now id dto.picture) w w _
          (checked_name_lem dto.name w h),
  )
