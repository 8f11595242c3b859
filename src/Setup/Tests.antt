-- ===== src/Setup/Tests.antt =====
-- Tests of the setup wizard.
use nestjs_vibe_engine.Prelude.{
  String, ◌≡◌, refl, true, some, [], ◌∷◌, arith, eq_iff, false, ◌==◌, if◌then◌else◌,
}
use nestjs_vibe_engine.Js.Cut
use nestjs_vibe_engine.Js.Text
use nestjs_vibe_engine.Js.Map
use nestjs_vibe_engine.Js.Uri
use nestjs_vibe_engine.Js.Cut.{all_codes, lacks}
use nestjs_vibe_engine.Setup.DatabaseUrl.{DbFields, build_database_url, parse_database_url}
use nestjs_vibe_engine.Setup.DatabaseUrl.RoundTrip.{UrlFields, parse-build_database_url}
use nestjs_vibe_engine.Setup.EnvFile
use nestjs_vibe_engine.Setup.EnvFile.{
  Values, parse_env_file, build_env_content, url_fields, enrich_with_db_fields,
}
use nestjs_vibe_engine.Setup.Mysql.{
  Mysql, test_mysql_connection, ensure_database, parse_int, digits_from,
}
use nestjs_vibe_engine.Setup.Server.{
  Wizard, System, Answer, set_up, initialize, server_tested, database_ensured, generate_client,
  push_schema, run_command, complete, broadcast_sse, respond,
}
use nestjs_vibe_engine.Setup.Server.Success.{AllDone, set_up-AllDone}
use nestjs_vibe_engine.Setup.Server.Answers.{AnsweredOnce, set_up-AnsweredOnce}
use nestjs_vibe_engine.Exec.{ok, err, failure}
use nestjs_vibe_engine.Setup.EnvFile.RoundTrip.{all_plain}
use nestjs_vibe_engine.Setup.EnvFile.Reopened.{shown, reopened_fields}

abbrev fields : DbFields
fields = record {
  host = "db";
  port = "3306";
  user = "root";
  password = "p@ß:/%";
  db_name = "engine";
}

fields-UrlFields : UrlFields fields
unfolding Cut.all_codes
fields-UrlFields = record {
  host_given = λ e. ground (arith, (eq_iff "db" "").1 e);
  host_plain = refl;
  port_given = λ e. ground (arith, (eq_iff "3306" "").1 e);
  port_digits = refl;
  user_given = λ e. ground (arith, (eq_iff "root" "").1 e);
  user_plain = refl;
  name_given = λ e. ground (arith, (eq_iff "engine" "").1 e);
  name_line = refl;
}

parse-build_database_url_example :
    parse_database_url (build_database_url "db" "3306" "root" "p@ß:/%" "engine") ≡ some fields
parse-build_database_url_example = parse-build_database_url fields fields-UrlFields

abbrev values : Values
values =
    ("DB_HOST", "db") ∷ ("DB_PASSWORD", "p@ß:/%") ∷ ("PORT", "4000") ∷ ("LOG_DIR", "my logs") ∷ []

now_line : all_codes (lacks "\n") "2026-01-01T00:00:00.000Z" ≡ true
unfolding Cut.all_codes
now_line = refl

values_plain : all_plain values ≡ true
unfolding all_plain all_codes EnvFile.database_url build_database_url url_fields EnvFile.field
    Map.get Uri.encode_uri_component Uri.encode_char Uri.is_unreserved Uri.percent_all Uri.utf8
    Uri.percent Text.trim_start Text.is_space Text.trim_end EnvFile.value_of
values_plain = refl

values-UrlFields : UrlFields (url_fields values)
unfolding url_fields EnvFile.field Map.get Cut.all_codes
values-UrlFields = record {
  host_given = λ e. ground (arith, (eq_iff "db" "").1 e);
  host_plain = refl;
  port_given = λ e. ground (arith, (eq_iff "3306" "").1 e);
  port_digits = refl;
  user_given = λ e. ground (arith, (eq_iff "root" "").1 e);
  user_plain = refl;
  name_given = λ e. ground (arith, (eq_iff "nestjs_engine_db" "").1 e);
  name_line = refl;
}

reopened_fields_example :
    shown
      (enrich_with_db_fields
        (parse_env_file (some (build_env_content "2026-01-01T00:00:00.000Z" values))))
      "DB_PASSWORD"
    ≡ some "p@ß:/%"
unfolding url_fields EnvFile.field Map.get
reopened_fields_example =
    (reopened_fields "2026-01-01T00:00:00.000Z" values now_line values_plain values-UrlFields).3

-- A server that has the schema "engine" and refuses to create one. The world is the content of .env.
abbrev mysql : Mysql String (Unit {0})
mysql = record {
  create_connection = λ opts e. (ok tt, e);
  query = λ conn sql params e. elim params [
    | [] ↦ (if sql == "SELECT 1" then ok [] else err (failure "denied"), e)
    | name ∷ names ↦ (ok (if name == "engine" then name ∷ [] else []), e)
  ];
  end = λ conn e. (ok tt, e);
}

abbrev system : System String
system = record {
  write_file = λ content e. (ok tt, content);
  exec_sync = λ command url e. (ok tt, e);
}

abbrev wizard : Wizard String
wizard = record {
  env = "";
  sse_clients = 7 ∷ [];
  written = [];
  answers = [];
  finishes = 0;
  open_sockets = [];
  resolved = false;
}

set_up-AnsweredOnce_example :
    AnsweredOnce wizard (set_up mysql system "2026-01-01T00:00:00.000Z" values wizard).1
set_up-AnsweredOnce_example =
    set_up-AnsweredOnce mysql system "2026-01-01T00:00:00.000Z" values wizard

abbrev local_values : Values
local_values = ("DB_NAME", "engine") ∷ []

abbrev success : Answer
success = record { status = 200; success = true; message = "Setup 완료" }

answered_success :
    (set_up mysql system "2026-01-01T00:00:00.000Z" local_values wizard).1.answers
    ≡ success ∷ wizard.answers
unfolding set_up initialize server_tested database_ensured generate_client push_schema run_command
    complete broadcast_sse respond test_mysql_connection ensure_database url_fields EnvFile.field
    Map.get parse_int digits_from
answered_success = refl

set_up-AllDone_example :
    AllDone mysql system "2026-01-01T00:00:00.000Z" local_values wizard.env
      (set_up mysql system "2026-01-01T00:00:00.000Z" local_values wizard).1.env
set_up-AllDone_example =
    set_up-AllDone mysql system "2026-01-01T00:00:00.000Z" local_values wizard success
      answered_success refl
