-- ===== src/User/Laws.antt =====
-- The documented behaviour of Prisma's `user` table.
use nestjs_vibe_engine.Prelude.{ℕ, String, ◌≡◌, Option, none, some, ◌==◌, if◌then◌else◌, is_some}
use nestjs_vibe_engine.Exec.{ok}
use nestjs_vibe_engine.User.Repository.{User, UserTable, UserData, Stamp, date, active_id}

abbrev pub given {ℓ} : {A : Type ℓ} → Option A → A → A
given none old = old
given (some new) old = new

abbrev pub dated : ℕ → Option ℕ → Stamp
dated time none = date time
dated time (some now) = date now

-- An update at a time: updatedAt is @updatedAt, which Prisma sets where it is not given.
abbrev pub apply_data : ℕ → UserData → User → User
apply_data time data_of_user u = record u {
  name = given data_of_user.name u.name;
  picture = given data_of_user.picture u.picture;
  deleted_at = given data_of_user.deleted_at u.deleted_at;
  updated_at = dated time data_of_user.updated_at;
}

abbrev pub apply_to_row : ℕ → UserData → Option User → Option User
apply_to_row time data_of_user none = none
apply_to_row time data_of_user (some u) = some (apply_data time data_of_user u)

abbrev pub if_active : Option User → Option User
if_active none = none
if_active (some u) = if is_some u.deleted_at then none else some u

-- `rows d id` is the row with this id, deleted or not; `clock d` is the time of an update.
pub record UserTableLaws {D : Type 0} (table : UserTable D) : Type 0 where
  pub rows : D → String → Option User
  pub clock : D → ℕ
  pub find_active :
      (d : D) (id : String) → table.find_first (active_id id) d ≡ (ok (if_active (rows d id)), d)
  pub update :
      (d : D) (id : String) (data_of_user : UserData) (u : User)
      → rows d id ≡ some u
      → (table.update id data_of_user d).0 ≡ ok (apply_data (clock d) data_of_user u)
  pub rows-update :
      (d : D) (id : String) (data_of_user : UserData) (j : String)
      → rows (table.update id data_of_user d).1 j
        ≡ (if id == j then apply_to_row (clock d) data_of_user (rows d j) else rows d j)
