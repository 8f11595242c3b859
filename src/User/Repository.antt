-- ===== src/User/Repository.antt =====
-- src/user/user.repository.ts over Prisma's `user` table, which is a parameter. Times are in
-- milliseconds, and `now` is `new Date()`.
use nestjs_vibe_engine.Prelude.{ℕ, String, Option, none, some}
use nestjs_vibe_engine.Exec.{Exec}

-- A timestamp is a Date, or a text once it has been through JSON.
pub data Stamp : Type 0 where
  date : ℕ → Stamp
  iso_text : String → Stamp

pub record User : Type 0 where
  pub id : String
  pub google_id : String
  pub email : String
  pub name : String
  pub picture : Option String
  pub deleted_at : Option ℕ
  pub created_at : Stamp
  pub updated_at : Stamp

-- The `where` of the queries, with the test of `deletedAt` that each makes.
pub data UserWhere : Type 0 where
  active_id active_email active_google_id : String → UserWhere
  deleted_id : String → UserWhere

-- The `data` of an update; none for a field that is not given, and `picture` may be set to null.
pub record UserData : Type 0 where
  pub name : Option String
  pub picture : Option (Option String)
  pub deleted_at : Option (Option ℕ)
  pub updated_at : Option ℕ

pub record NewUserData : Type 0 where
  pub google_id : String
  pub email : String
  pub name : String
  pub picture : Option String

pub record UserTable (D : Type 0) : Type 0 where
  pub find_first : UserWhere → Exec D (Option User)
  pub create : NewUserData → Exec D User
  pub update : String → UserData → Exec D User

-- { ...data, updatedAt }
abbrev pub changed : Option String → Option (Option String) → ℕ → UserData
changed name picture now = record {
  name = name;
  picture = picture;
  deleted_at = none;
  updated_at = some now;
}

abbrev pub deleted_at_data : Option ℕ → UserData
deleted_at_data time = record {
  name = none;
  picture = none;
  deleted_at = some time;
  updated_at = none;
}

module _ {D : Type 0} (table : UserTable D) where
  unfoldable pub find_by_id : String → Exec D (Option User)
  find_by_id id = table.find_first (active_id id)

  unfoldable pub find_by_email : String → Exec D (Option User)
  find_by_email email = table.find_first (active_email email)

  unfoldable pub find_by_google_id : String → Exec D (Option User)
  find_by_google_id google_id = table.find_first (active_google_id google_id)

  unfoldable pub create : NewUserData → Exec D User
  create data_of_user = table.create data_of_user

  unfoldable pub update : String → Option String → Option (Option String) → ℕ → Exec D User
  update id name picture now = table.update id (changed name picture now)

  unfoldable pub soft_delete : String → ℕ → Exec D User
  soft_delete id now = table.update id (deleted_at_data (some now))

  unfoldable pub restore : String → Exec D User
  restore id = table.update id (deleted_at_data none)

  unfoldable pub find_deleted_by_id : String → Exec D (Option User)
  find_deleted_by_id id = table.find_first (deleted_id id)
