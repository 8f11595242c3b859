-- ===== src/Setup/Server.antt =====
-- The routes of startSetupServer in src/setup/setup.server.ts over the MySQL client, the file system
-- and the commands, which are parameters. A handler runs with no other in between. Headers of the
-- event stream and the console are left out.
pub mod Answers
pub mod Success
use nestjs_vibe_engine.Prelude.{
  ℕ, suc, String, Bool, true, false, not, ◌&&◌, ◌||◌, Option, none, some, List, [], ◌∷◌, ◌++◌, map,
  nat_eq, if◌then◌else◌, ◌==◌,
}
use nestjs_vibe_engine.Exec.{Exec, Exception, Result, failure, pure, throw, try_catch, ◌>>=◌, ◌>>◌}
use nestjs_vibe_engine.Js.Text.{◌⧺◌}
use nestjs_vibe_engine.Setup.DatabaseUrl.{DbFields, build_database_url}
use nestjs_vibe_engine.Setup.EnvFile.{
  Values, url_fields, database_url, build_env_content, parse_env_file, enrich_with_db_fields,
}
use nestjs_vibe_engine.Setup.Mysql.{
  DbConnectOptions, EnsureResult, Mysql, message_of, parse_int, test_mysql_connection,
  ensure_database,
}

pub record Event : Type 0 where
  pub step : String
  pub status : String
  pub message : String

-- What a request is answered with: the status and the body, by its `success` (false where the body
-- is an error) and its text.
pub record Answer : Type 0 where
  pub status : ℕ
  pub success : Bool
  pub message : String

-- `env` is the world outside; `finishes` counts the timers that end the server.
pub record Wizard (E : Type 0) : Type 0 where
  pub env : E
  pub sse_clients : List ℕ
  pub written : List (ℕ × Event)
  pub answers : List Answer
  pub finishes : ℕ
  pub open_sockets : List ℕ
  pub resolved : Bool

pub record System (E : Type 0) : Type 0 where
  pub write_file : String → Exec E (Unit {0})
  -- a command, with DATABASE_URL if it is set
  pub exec_sync : String → Option String → Exec E (Unit {0})

abbrev without : ℕ → List ℕ → List ℕ
without client [] = []
without client (c ∷ cs) = let rest = without client cs in if nat_eq c client then rest else c ∷ rest

module _ {E A : Type 0} where
  abbrev pub on_env : Exec E A → Exec (Wizard E) A
  on_env m w = ((m w.env).0, record w { env = (m w.env).1 })

module _ {E : Type 0} where
  -- To each client of the event stream.
  unfoldable pub broadcast_sse : (step status message : String) → Exec (Wizard E) (Unit {0})
  broadcast_sse step status message w =
      let event : Event = record { step = step; status = status; message = message } in
      pure tt (record w { written = w.written ++ map (λ client. (client, event)) w.sse_clients })

  unfoldable pub respond : ℕ → Bool → String → Exec (Wizard E) (Unit {0})
  respond status success message w = pure tt (record w {
    answers = record { status = status; success = success; message = message } ∷ w.answers;
  })

  -- setTimeout(() => { shutdown(); resolve(); }, …)
  abbrev pub schedule_finish : Exec (Wizard E) (Unit {0})
  schedule_finish w = pure tt (record w { finishes = suc w.finishes })

  unfoldable pub shutdown : Wizard E → Wizard E
  shutdown w = record w { sse_clients = []; open_sockets = [] }

  -- The timer runs.
  unfoldable pub finish : Wizard E → Wizard E
  finish w = record (shutdown w) { resolved = true }

  -- GET /setup/status
  unfoldable pub subscribe : ℕ → Wizard E → Wizard E
  subscribe client w = record w { sse_clients = w.sse_clients ++ (client ∷ []) }

  unfoldable pub unsubscribe : ℕ → Wizard E → Wizard E
  unsubscribe client w = record w { sse_clients = without client w.sse_clients }

  -- POST /setup/skip
  unfoldable pub skip_setup : Exec (Wizard E) (Unit {0})
  skip_setup = respond 200 true "기존 설정으로 시작합니다." >> schedule_finish

-- GET /: the page that is rendered, with the values of the form.
pub data Page : Type 0 where
  choice_page : Page
  setup_page : Values → Page

abbrev shown_values : Option Values → Option Page
shown_values none = none
shown_values (some values) = some (setup_page values)

-- `file` is the content of .env, none where there is no file; an answer none: the handler throws.
unfoldable pub main_page :
    (force_setup : Bool) (mode : Option String) (file : Option String) → Option Page
main_page force_setup mode none = some (setup_page [])
main_page force_setup mode (some content) =
    if not force_setup && not (elim mode [ none ↦ false | some m ↦ m == "setup" ])
    then some choice_page
    else shown_values (enrich_with_db_fields (parse_env_file (some content)))

abbrev pub conn_opts : Values → DbConnectOptions
conn_opts form =
    let f = url_fields form in
    record { host = f.host; port = parse_int f.port; user = f.user; password = f.password }

-- if (dbResult.error)
abbrev pub error_of : EnsureResult → Option String
error_of r = elim r.error [ none ↦ none | some e ↦ if e == "" then none else some e ]

abbrev pub quoted : String → String
quoted name = "'" ⧺ (name ⧺ "'")

module _ {E C : Type 0} (mysql : Mysql E C) (system : System E) where
  -- POST /setup/test-db, behind each of its steps. `port` is the text of the number.
  unfoldable pub test_db_ensured : Values → EnsureResult → Exec (Wizard E) (Unit {0})
  test_db_ensured form r =
      let name = (url_fields form).db_name in
      elim (error_of r) [
        | some e ↦ respond 200 false ("데이터베이스 " ⧺ (quoted name ⧺ (" 생성 실패 - " ⧺ e)))
        | none ↦ respond 200 true (
            if r.created
            then "연결 성공! 데이터베이스 " ⧺ (quoted name ⧺ "을(를) 새로 생성했습니다.")
            else "연결 성공! 데이터베이스 " ⧺ (quoted name ⧺ "이(가) 존재합니다."))
      ]

  unfoldable pub test_db_connected :
      (Option ℕ → String) → Values → Option String → Exec (Wizard E) (Unit {0})
  test_db_connected number_text form (some message) = respond 200 false (
      "MySQL 서버 연결 실패 ("
      ⧺ ((conn_opts form).host ⧺ (":" ⧺ (number_text (conn_opts form).port ⧺ (") - " ⧺ message)))))
  test_db_connected number_text form none =
      on_env (ensure_database mysql (conn_opts form) (url_fields form).db_name)
      >>= test_db_ensured form

  unfoldable pub test_db : (Option ℕ → String) → Values → Exec (Wizard E) (Unit {0})
  test_db number_text form =
      on_env (test_mysql_connection mysql (conn_opts form)) >>= test_db_connected number_text form

  -- POST /setup, from its last step to its first.
  unfoldable pub complete : Exec (Wizard E) (Unit {0})
  complete = do
    broadcast_sse "prisma-push" "done" "DB 테이블 생성 완료"
    broadcast_sse "finish" "complete" "초기화 완료! NestJS 앱을 시작합니다..."
    respond 200 true "Setup 완료"
    schedule_finish

  -- A command that is answered with status 500 where it throws. The message of the exception is
  -- `e.message`, since each thrown value is an Error.
  abbrev pub command_ran :
      (step failed : String)
      → Exec (Wizard E) (Unit {0})
      → Result (Unit {0})
      → Exec (Wizard E) (Unit {0})
  command_ran step failed next (Result.ok done) = next
  command_ran step failed next (Result.err e) =
      broadcast_sse step "error" (failed ⧺ message_of e)
      >> respond 500 false (failed ⧺ message_of e)

  unfoldable pub run_command :
      (step failed command : String)
      → Option String
      → Exec (Wizard E) (Unit {0})
      → Exec (Wizard E) (Unit {0})
  run_command step failed command url next w =
      command_ran step failed next (on_env (system.exec_sync command url) w).0
        (on_env (system.exec_sync command url) w).1

  unfoldable pub push_schema : Values → Exec (Wizard E) (Unit {0})
  push_schema form =
      broadcast_sse "prisma-generate" "done" "Prisma Client 생성 완료"
      >> broadcast_sse "prisma-push" "running" "DB 테이블 생성 중 (prisma db push)..."
      >> run_command "prisma-push" "DB 테이블 생성 실패: " "npx prisma db push --accept-data-loss"
          (some (database_url form)) complete

  unfoldable pub generate_client : Values → Exec (Wizard E) (Unit {0})
  generate_client form =
      broadcast_sse "prisma-generate" "running" "Prisma Client 생성 중..."
      >> run_command "prisma-generate" "Prisma Client 생성 실패: " "npx prisma generate" none
          (push_schema form)

  abbrev pub database_checked : Values → Bool → Option String → Exec (Wizard E) (Unit {0})
  database_checked form created (some e) =
      broadcast_sse "db-create" "error" ("데이터베이스 생성 실패: " ⧺ e)
      >> respond 400 false ("데이터베이스 " ⧺ (quoted (url_fields form).db_name ⧺ (" 생성에 실패했습니다: " ⧺ e)))
  database_checked form created none =
      broadcast_sse "db-create" "done" (
        "데이터베이스 "
        ⧺ (quoted (url_fields form).db_name ⧺ (if created then " 새로 생성 완료" else " 존재 확인 완료")))
      >> generate_client form

  unfoldable pub database_ensured : Values → EnsureResult → Exec (Wizard E) (Unit {0})
  database_ensured form r = database_checked form r.created (error_of r)

  unfoldable pub server_tested : Values → Option String → Exec (Wizard E) (Unit {0})
  server_tested form (some message) =
      broadcast_sse "db-test" "error" ("MySQL 서버 연결 실패 - " ⧺ message)
      >> respond 400 false ("MySQL 서버에 연결할 수 없습니다: " ⧺ message)
  server_tested form none =
      broadcast_sse "db-test" "done" "MySQL 서버 연결 성공"
      >> broadcast_sse "db-create" "running"
          ("데이터베이스 " ⧺ (quoted (url_fields form).db_name ⧺ " 확인 중..."))
      >> (on_env (ensure_database mysql (conn_opts form) (url_fields form).db_name)
          >>= database_ensured form)

  -- The body of the outer `try`.
  unfoldable pub initialize : String → Values → Exec (Wizard E) (Unit {0})
  initialize now form =
      broadcast_sse "env" "running" ".env 파일 저장 중..."
      >> on_env (system.write_file (build_env_content now form))
      >> broadcast_sse "env" "done" ".env 파일 저장 완료"
      >> broadcast_sse "db-test" "running" "MySQL 서버 연결 테스트 중..."
      >> (on_env (test_mysql_connection mysql (conn_opts form)) >>= server_tested form)

  abbrev pub report_failure : Exception → Exec (Wizard E) (Unit {0})
  report_failure e =
      broadcast_sse "unknown" "error" (message_of e) >> respond 500 false (message_of e)

  -- POST /setup
  unfoldable pub set_up : String → Values → Exec (Wizard E) (Unit {0})
  set_up now form = try_catch (initialize now form) report_failure
