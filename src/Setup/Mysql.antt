-- ===== src/Setup/Mysql.antt =====
-- testMysqlConnection and ensureDatabase of src/setup/setup.server.ts, over the MySQL client, which
-- is a parameter: `E` is the world outside the process, and `C` an open connection.
pub mod Ensured
use nestjs_vibe_engine.Prelude.{
  ℕ, ◌+◌, ◌*◌, ◌-◌, String, Bool, true, false, ◌&&◌, Option, none, some, List, [], ◌∷◌, leb, ltb,
  length, if◌then◌else◌,
}
use Prim.Native.Char.{code}
use nestjs_vibe_engine.Exec.{Exec, Exception, http, failure, pure, try_catch, ◌>>=◌, ◌>>◌}
use nestjs_vibe_engine.Js.Text.{◌⧺◌, trim_start}

-- none: NaN
pub record DbConnectOptions : Type 0 where
  pub host : String
  pub port : Option ℕ
  pub user : String
  pub password : String

pub record Mysql (E C : Type 0) : Type 0 where
  pub create_connection : DbConnectOptions → Exec E C
  -- The rows of a statement, whose question marks stand for the values.
  pub query : C → String → List String → Exec E (List String)
  pub end : C → Exec E (Unit {0})

-- e.message
abbrev pub message_of : Exception → String
message_of (http status message) = message
message_of (failure message) = message

-- none: undefined
pub record EnsureResult : Type 0 where
  pub created : Bool
  pub existed : Bool
  pub error : Option String

-- The digits at the beginning of a text, in front of which `n` was read.
unfoldable pub digits_from : ℕ → String → ℕ
digits_from n String.[] = n
digits_from n (String.◌∷◌ c s) =
    let rest = digits_from (n * 10 + (code c - 48)) s in
    if leb 48 (code c) && leb (code c) 57 then rest else n

abbrev starts_with_digit : String → Bool
starts_with_digit String.[] = false
starts_with_digit (String.◌∷◌ c s) = leb 48 (code c) && leb (code c) 57

-- parseInt(s, 10) of a text without a sign.
unfoldable pub parse_int : String → Option ℕ
parse_int s = if starts_with_digit (trim_start s) then some (digits_from 0 (trim_start s)) else none

module _ {E C : Type 0} (mysql : Mysql E C) where
  -- finally { await conn.end().catch(() => {}) }
  abbrev pub close : C → Exec E (Unit {0})
  close conn = try_catch (mysql.end conn) (λ e. pure tt)

module _ {E C A : Type 0} (mysql : Mysql E C) where
  -- What `m` answers or throws, once the connection is closed.
  abbrev pub finally_close : C → Exec E A → Exec E A
  finally_close conn m e = ((m e).0, (close mysql conn (m e).1).1)

module _ {E C : Type 0} (mysql : Mysql E C) where
  -- none: success, else the message
  unfoldable pub test_mysql_connection : DbConnectOptions → Exec E (Option String)
  test_mysql_connection opts =
      try_catch
        (mysql.create_connection opts >>= λ conn.
          finally_close mysql conn (mysql.query conn "SELECT 1" [] >> pure none))
        (λ e. pure (some (message_of e)))

  abbrev pub create_if_missing : C → String → Bool → Exec E EnsureResult
  create_if_missing conn db_name true =
      pure (record { created = false; existed = true; error = none })
  create_if_missing conn db_name false =
      mysql.query conn
        ("CREATE DATABASE `" ⧺ (db_name ⧺ "` CHARACTER SET utf8mb4 COLLATE utf8mb4_unicode_ci")) []
      >> pure (record { created = true; existed = false; error = none })

  unfoldable pub ensure_database : DbConnectOptions → String → Exec E EnsureResult
  ensure_database opts db_name =
      try_catch
        (mysql.create_connection opts >>= λ conn. finally_close mysql conn (
          mysql.query conn
            "SELECT SCHEMA_NAME FROM INFORMATION_SCHEMA.SCHEMATA WHERE SCHEMA_NAME = ?"
            (db_name ∷ [])
          >>= λ rows. create_if_missing conn db_name (ltb 0 (length rows))))
        (λ e. pure (record { created = false; existed = false; error = some (message_of e) }))
