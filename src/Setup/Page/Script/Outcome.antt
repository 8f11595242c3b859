-- ===== src/Setup/Page/Script/Outcome.antt =====
-- What the page shows in the end of a submission to the route POST /setup of Setup/Server, if it is
-- the only page that listens.
use nestjs_vibe_engine.Prelude.{
  ℕ, String, ◌≡◌, refl, sym, ap, subst, Bool, true, Option, none, some, List, [], ◌∷◌, inl, inr,
  if◌then◌else◌,
}
use nestjs_vibe_engine.Exec.{Exec, Result, ok, err, Result-cases, recover}
use nestjs_vibe_engine.Js.Text.{◌⧺◌}
use nestjs_vibe_engine.Setup.EnvFile.{Values, database_url, url_fields, build_env_content}
use nestjs_vibe_engine.Setup.Mysql.{
  Mysql, EnsureResult, message_of, test_mysql_connection, ensure_database,
}
use nestjs_vibe_engine.Setup.Server.{
  Wizard, System, Answer, Event, broadcast_sse, respond, complete, run_command, push_schema,
  generate_client, database_ensured, server_tested, initialize, set_up, error_of, conn_opts,
  report_failure, command_ran, database_checked, quoted,
}
use nestjs_vibe_engine.Setup.Page.Script.{SetupPage, on_answer, submit}
use nestjs_vibe_engine.Setup.Page.Script.Steps.{
  told, Ready, Ended, Settled, quiet, failed, after_env,
}
use nestjs_vibe_engine.Setup.Page.Script.Progress.{
  events_of, handle_events, shown, shown-broadcast, Waiting, Over, on_message_complete,
  on_answer-Over,
}

module _ {E C : Type 0} (mysql : Mysql E C) (system : System E) (client : ℕ) (start : SetupPage)
    (earlier : List Answer) where
  abbrev Before : Wizard E → Type 0
  Before = Ready client start earlier

  abbrev After : Result (Unit {0}) × Wizard E → Type 0
  After = Settled client start earlier

  complete-Settled : (w : Wizard E) → Before w → After (complete mysql system w)
  unfolding complete broadcast_sse respond
  complete-Settled w ready =
      let (clients, answers, waiting) =
        quiet client start earlier "prisma-push" "done" "DB 테이블 생성 완료" w refl refl ready in
      let pushed = (broadcast_sse "prisma-push" "done" "DB 테이블 생성 완료" w).1 in
      let a : Answer = record { status = 200; success = true; message = "Setup 완료" } in
      (
        a,
        ap (λ (l : List Answer). a ∷ l) answers,
        refl,
        subst (Over true)
            (sym (
              shown-broadcast client start "finish" "complete" "초기화 완료! NestJS 앱을 시작합니다..." pushed
                clients))
            (on_message_complete "finish" "초기화 완료! NestJS 앱을 시작합니다..." (shown client start pushed)
              waiting),
      )

  command_ran-Settled :
      (step failed_text : String) (next : Exec (Wizard E) (Unit {0})) (r : Result (Unit {0}))
      (w : Wizard E)
      → Before w
      → ((v : Wizard E) → Before v → After (next v))
      → After (command_ran mysql system step failed_text next r w)
  unfolding broadcast_sse respond
  command_ran-Settled step failed_text next (ok done) w ready settled = settled w ready
  command_ran-Settled step failed_text next (err e) w ready settled =
      failed client start earlier step (failed_text ⧺ message_of e) (failed_text ⧺ message_of e) 500
        w refl ready

  run_command-Settled :
      (step failed_text command : String) (url : Option String) (next : Exec (Wizard E) (Unit {0}))
      (w : Wizard E)
      → Before w
      → ((v : Wizard E) → Before v → After (next v))
      → After (run_command mysql system step failed_text command url next w)
  unfolding run_command
  run_command-Settled step failed_text command url next w ready settled =
      command_ran-Settled step failed_text next (system.exec_sync command url w.env).0
        (record w { env = (system.exec_sync command url w.env).1 }) ready settled

  push_schema-Settled :
      (form : Values) (w : Wizard E) → Before w → After (push_schema mysql system form w)
  unfolding push_schema broadcast_sse
  push_schema-Settled form w ready =
      let generated = told "prisma-generate" "done" "Prisma Client 생성 완료" w in
      let pushing = told "prisma-push" "running" "DB 테이블 생성 중 (prisma db push)..." generated in
      run_command-Settled "prisma-push" "DB 테이블 생성 실패: " "npx prisma db push --accept-data-loss"
        (some (database_url form)) (complete mysql system) pushing
        (quiet {E = E} client start earlier "prisma-push" "running"
          "DB 테이블 생성 중 (prisma db push)..." generated refl refl
          (quiet {E = E} client start earlier "prisma-generate" "done" "Prisma Client 생성 완료" w refl
            refl ready))
        complete-Settled

  generate_client-Settled :
      (form : Values) (w : Wizard E) → Before w → After (generate_client mysql system form w)
  unfolding generate_client broadcast_sse
  generate_client-Settled form w ready =
      run_command-Settled "prisma-generate" "Prisma Client 생성 실패: " "npx prisma generate" none
        (push_schema mysql system form) (told "prisma-generate" "running" "Prisma Client 생성 중..." w)
        (quiet {E = E} client start earlier "prisma-generate" "running" "Prisma Client 생성 중..." w
          refl refl ready)
        (push_schema-Settled form)

  abbrev made : Values → Bool → String
  made form created =
      "데이터베이스 "
      ⧺ (quoted (url_fields form).db_name ⧺ (if created then " 새로 생성 완료" else " 존재 확인 완료"))

  database_checked-Settled :
      (form : Values) (created : Bool) (error : Option String) (w : Wizard E)
      → Before w
      → After (database_checked mysql system form created error w)
  unfolding broadcast_sse respond
  database_checked-Settled form created none w ready =
      generate_client-Settled form (told "db-create" "done" (made form created) w) (
        quiet {E = E} client start earlier "db-create" "done" (made form created) w refl refl ready)
  database_checked-Settled form created (some e) w ready =
      failed {E = E} client start earlier "db-create" ("데이터베이스 생성 실패: " ⧺ e)
        ("데이터베이스 " ⧺ (quoted (url_fields form).db_name ⧺ (" 생성에 실패했습니다: " ⧺ e))) 400 w refl ready

  database_ensured-Settled :
      (form : Values) (r : EnsureResult) (w : Wizard E)
      → Before w
      → After (database_ensured mysql system form r w)
  unfolding database_ensured
  database_ensured-Settled form r w ready =
      database_checked-Settled form r.created (error_of r) w ready

  abbrev checking : Values → String
  checking form = "데이터베이스 " ⧺ (quoted (url_fields form).db_name ⧺ " 확인 중...")

  server_tested-Settled :
      (form : Values) (r : Option String) (w : Wizard E)
      → Before w
      → After (server_tested mysql system form r w)
  unfolding server_tested broadcast_sse respond
  server_tested-Settled form (some message) w ready =
      failed {E = E} client start earlier "db-test" ("MySQL 서버 연결 실패 - " ⧺ message)
        ("MySQL 서버에 연결할 수 없습니다: " ⧺ message) 400 w refl ready
  server_tested-Settled form none w ready =
      let done = told "db-test" "done" "MySQL 서버 연결 성공" w in
      after_env {E = E} client start earlier
        (ensure_database mysql (conn_opts form) (url_fields form).db_name)
        (database_ensured mysql system form) (told "db-create" "running" (checking form) done)
        (quiet {E = E} client start earlier "db-create" "running" (checking form) done refl refl
          (quiet {E = E} client start earlier "db-test" "done" "MySQL 서버 연결 성공" w refl refl ready))
        (database_ensured-Settled form)

  initialize-Settled :
      (now : String) (form : Values) (w : Wizard E)
      → Before w
      → After (initialize mysql system now form w)
  unfolding initialize broadcast_sse
  initialize-Settled now form w ready =
      let write = system.write_file (build_env_content now form) in
      let writing = told "env" "running" ".env 파일 저장 중..." w in
      let written = record writing { env = (write w.env).1 } in
      let stored = told "env" "done" ".env 파일 저장 완료" written in
      let running =
        quiet {E = E} client start earlier "env" "running" ".env 파일 저장 중..." w refl refl ready in
      elim (Result-cases (write w.env).0) [
        | inl (a, e) ↦ rw e (
            after_env {E = E} client start earlier (test_mysql_connection mysql (conn_opts form))
              (server_tested mysql system form)
              (told "db-test" "running" "MySQL 서버 연결 테스트 중..." stored)
              (quiet {E = E} client start earlier "db-test" "running" "MySQL 서버 연결 테스트 중..." stored
                refl refl
                (quiet {E = E} client start earlier "env" "done" ".env 파일 저장 완료" written refl refl
                  running))
              (server_tested-Settled form))
        | inr (x, e) ↦ rw e running
      ]

  recover-Ended :
      (p : Result (Unit {0}) × Wizard E)
      → After p
      → Ended client start earlier (recover p.0 (report_failure mysql system) p.1).1
  unfolding broadcast_sse respond
  recover-Ended (ok done, w) ended = ended
  recover-Ended (err e, w) ready =
      failed {E = E} client start earlier "unknown" (message_of e) (message_of e) 500 w refl ready

submit-Waiting :
    (page : SetupPage) (events : List Event)
    → events ≡ []
    → Waiting (handle_events events (submit page))
unfolding submit
submit-Waiting page events none_yet = rw none_yet (refl, refl, refl)

-- Answered once, and what the page shows of it.
abbrev pub ShowsAnswer : {E : Type 0} → ℕ → SetupPage → Wizard E → Wizard E → Type 0
ShowsAnswer client page w w' =
    (a : Answer) × (w'.answers ≡ a ∷ w.answers)
    × Over a.success (on_answer a (shown client page w'))

-- A submission from the page of `client`, if it is the only one that listens and nothing was written
-- to it before, is answered once; once the page has handled the events and then the answer, the
-- stream is closed, an error is shown exactly if the answer is not one of success, and the button can
-- be pressed again exactly if it is not.
pub set_up-Over :
    {E C : Type 0} (mysql : Mysql E C) (system : System E) (client : ℕ) (page : SetupPage)
    (now : String) (form : Values) (w : Wizard E)
    → w.sse_clients ≡ client ∷ []
    → events_of client w.written ≡ []
    → ShowsAnswer client (submit page) w (set_up mysql system now form w).1
unfolding set_up
set_up-Over mysql system client page now form w clients none_yet =
    let waiting = submit-Waiting page (events_of client w.written) none_yet in
    let (a, answered, fits, over) =
      recover-Ended mysql system client (submit page) w.answers (initialize mysql system now form w)
        (initialize-Settled mysql system client (submit page) w.answers now form w
          (clients, refl, waiting)) in
    (a, answered, on_answer-Over a.success a _ fits over)
