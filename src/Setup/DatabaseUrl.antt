-- ===== src/Setup/DatabaseUrl.antt =====
-- buildDatabaseUrl and parseDatabaseUrl of src/setup/env-definitions.ts.
pub mod RoundTrip
use nestjs_vibe_engine.Prelude.{
  ℕ, String, Bool, true, false, not, ◌&&◌, ◌||◌, Option, none, some, leb, nat_eq, if◌then◌else◌,
  ◌==◌,
}
use nestjs_vibe_engine.Js.Text.{◌⧺◌, strip_prefix}
use nestjs_vibe_engine.Js.Cut.{cut, all_codes}
use nestjs_vibe_engine.Js.Uri.{encode_uri_component, decode_uri_component}

pub record DbFields : Type 0 where
  pub host : String
  pub port : String
  pub user : String
  pub password : String
  pub db_name : String

unfoldable pub build_database_url : (host port user password db_name : String) → String
build_database_url host port user password db_name =
    "mysql://"
    ⧺ (user
        ⧺ (":"
            ⧺ (encode_uri_component password ⧺ ("@" ⧺ (host ⧺ (":" ⧺ (port ⧺ ("/" ⧺ db_name))))))))

-- \d
abbrev pub is_digit : ℕ → Bool
is_digit n = leb 48 n && leb n 57

-- What `.` of a regular expression matches: no line terminator.
abbrev pub on_the_line : ℕ → Bool
on_the_line n = not (nat_eq n 10 || nat_eq n 13 || nat_eq n 8232 || nat_eq n 8233)

-- What the regular expression matches, with the password still encoded. Each group but the last is
-- followed by a character that it cannot contain, so it ends at the first one.
abbrev pub checked_groups : DbFields → Option DbFields
checked_groups f =
    if not (f.user == "")
      && not (f.host == "")
      && not (f.port == "")
      && all_codes is_digit f.port
      && not (f.db_name == "")
      && all_codes on_the_line f.db_name
    then some f
    else none

unfoldable pub match_database_url : String → Option DbFields
match_database_url url = elim (strip_prefix "mysql://" url) [
  | none ↦ none
  | some r ↦ elim (cut ":" r) [
    | none ↦ none
    | some (user, r1) ↦ elim (cut "@" r1) [
      | none ↦ none
      | some (password, r2) ↦ elim (cut ":" r2) [
        | none ↦ none
        | some (host, r3) ↦ elim (cut "/" r3) [
          | none ↦ none
          | some (port, db_name) ↦ checked_groups (record {
            host = host;
            port = port;
            user = user;
            password = password;
            db_name = db_name;
          })
        ]
      ]
    ]
  ]
]

abbrev default_fields : DbFields
default_fields = record {
  host = "localhost";
  port = "3306";
  user = "root";
  password = "";
  db_name = "nestjs_engine_db";
}

abbrev pub decode_password : DbFields → Option String → Option DbFields
decode_password f none = none
decode_password f (some password) = some (record f { password = password })

-- none: decodeURIComponent throws
unfoldable pub parse_database_url : String → Option DbFields
parse_database_url url = elim (match_database_url url) [
  | none ↦ some default_fields
  | some f ↦ decode_password f (decode_uri_component f.password)
]
