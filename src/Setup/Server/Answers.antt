-- ===== src/Setup/Server/Answers.antt =====
-- How POST /setup ends, on every path.
use nestjs_vibe_engine.Prelude.{
  arith, ℕ, ◌+◌, String, ◌≡◌, refl, ap, Bool, true, false, Option, none, some, ◌∷◌, inl, inr,
}
use nestjs_vibe_engine.Exec.{Exec, Result, ok, err, Result-cases, recover, ◌>>=◌}
use nestjs_vibe_engine.Js.Text.{◌⧺◌}
use nestjs_vibe_engine.Setup.EnvFile.{Values, database_url, url_fields, build_env_content}
use nestjs_vibe_engine.Setup.Mysql.{
  Mysql, EnsureResult, message_of, test_mysql_connection, ensure_database,
}
use nestjs_vibe_engine.Setup.Server.{
  Wizard, System, Answer, on_env, broadcast_sse, respond, complete, run_command, push_schema,
  generate_client, database_ensured, server_tested, initialize, set_up, error_of, conn_opts,
  report_failure, command_ran, database_checked,
}

abbrev pub as_number : Bool → ℕ
as_number true = 1
as_number false = 0

module _ {E : Type 0} where
  -- One more answer, and a timer that ends the server exactly if it is one of success.
  abbrev pub AnsweredOnce : Wizard E → Wizard E → Type 0
  AnsweredOnce w w' =
      (a : Answer) × (w'.answers ≡ a ∷ w.answers) × (w'.finishes ≡ w.finishes + as_number a.success)

  abbrev Unanswered : Wizard E → Wizard E → Type 0
  Unanswered w w' = (w'.answers ≡ w.answers) × (w'.finishes ≡ w.finishes)

  -- The way a part of the body ends: answered, or with an exception and not answered.
  abbrev Settled : Wizard E → Result (Unit {0}) × Wizard E → Type 0
  Settled w (ok done, w') = AnsweredOnce w w'
  Settled w (err e, w') = Unanswered w w'

  module _ {A : Type 0} where
    -- An outside step in front of a part.
    after_env :
        (m : Exec E A) (f : A → Exec (Wizard E) (Unit {0})) (w : Wizard E)
        → ((a : A) (v : Wizard E) → Settled v (f a v))
        → Settled w ((on_env m >>= f) w)
    after_env m f w settled = elim (Result-cases (m w.env).0) [
      | inl (a, e) ↦ rw e (settled a (record w { env = (m w.env).1 }))
      | inr (x, e) ↦ rw e (refl, refl)
    ]

module _ {E C : Type 0} (mysql : Mysql E C) (system : System E) where
  command_ran-Settled :
      (step failed : String) (next : Exec (Wizard E) (Unit {0})) (r : Result (Unit {0}))
      (w : Wizard E)
      → ((v : Wizard E) → Settled v (next v))
      → Settled w (command_ran mysql system step failed next r w)
  unfolding broadcast_sse respond
  command_ran-Settled step failed next (ok done) w settled = settled w
  command_ran-Settled step failed next (err e) w settled =
      (record { status = 500; success = false; message = failed ⧺ message_of e }, refl, omega arith)

  run_command-Settled :
      (step failed command : String) (url : Option String) (next : Exec (Wizard E) (Unit {0}))
      (w : Wizard E)
      → ((v : Wizard E) → Settled v (next v))
      → Settled w (run_command mysql system step failed command url next w)
  unfolding run_command
  run_command-Settled step failed command url next w settled =
      command_ran-Settled step failed next (system.exec_sync command url w.env).0 _ settled

  push_schema-Settled : (form : Values) (w : Wizard E) → Settled w (push_schema mysql system form w)
  unfolding push_schema complete broadcast_sse respond
  push_schema-Settled form w =
      run_command-Settled "prisma-push" "DB 테이블 생성 실패: " "npx prisma db push --accept-data-loss"
        (some (database_url form)) (complete mysql system) _
        (λ v. (record { status = 200; success = true; message = "Setup 완료" }, refl, omega arith))

  generate_client-Settled :
      (form : Values) (w : Wizard E) → Settled w (generate_client mysql system form w)
  unfolding generate_client broadcast_sse
  generate_client-Settled form w =
      run_command-Settled "prisma-generate" "Prisma Client 생성 실패: " "npx prisma generate" none
        (push_schema mysql system form) _ (push_schema-Settled form)

  database_checked-Settled :
      (form : Values) (created : Bool) (error : Option String) (w : Wizard E)
      → Settled w (database_checked mysql system form created error w)
  unfolding broadcast_sse respond
  database_checked-Settled form created none w = generate_client-Settled form _
  database_checked-Settled form created (some e) w = (_, refl, omega arith)

  database_ensured-Settled :
      (form : Values) (r : EnsureResult) (w : Wizard E)
      → Settled w (database_ensured mysql system form r w)
  unfolding database_ensured
  database_ensured-Settled form r w = database_checked-Settled form r.created (error_of r) w

  server_tested-Settled :
      (form : Values) (r : Option String) (w : Wizard E)
      → Settled w (server_tested mysql system form r w)
  unfolding server_tested broadcast_sse respond
  server_tested-Settled form (some message) w = (_, refl, omega arith)
  server_tested-Settled form none w =
      after_env (ensure_database mysql (conn_opts form) (url_fields form).db_name)
        (database_ensured mysql system form) _ (database_ensured-Settled form)

  initialize-Settled :
      (now : String) (form : Values) (w : Wizard E) → Settled w (initialize mysql system now form w)
  unfolding initialize broadcast_sse
  initialize-Settled now form w =
      elim (Result-cases (system.write_file (build_env_content now form) w.env).0) [
        | inl (a, e) ↦ rw e (
            after_env (test_mysql_connection mysql (conn_opts form))
              (server_tested mysql system form) _ (server_tested-Settled form))
        | inr (x, e) ↦ rw e (refl, refl)
      ]

  recover-AnsweredOnce :
      (w : Wizard E) (p : Result (Unit {0}) × Wizard E)
      → Settled w p
      → AnsweredOnce w (recover p.0 (report_failure mysql system) p.1).1
  unfolding broadcast_sse respond
  recover-AnsweredOnce w (ok done, w') settled = settled
  recover-AnsweredOnce w (err e, w') (same, still) =
      let failed : Answer = record { status = 500; success = false; message = message_of e } in
      (failed, ap (λ l. failed ∷ l) same, omega (arith, still))

  -- Whatever the database, the file system and the commands do, POST /setup is answered exactly once,
  -- and a timer to end the wizard is set exactly if the answer is one of success.
  pub set_up-AnsweredOnce :
      (now : String) (form : Values) (w : Wizard E)
      → AnsweredOnce w (set_up mysql system now form w).1
  unfolding set_up
  set_up-AnsweredOnce now form w =
      recover-AnsweredOnce w (initialize mysql system now form w) (initialize-Settled now form w)
