-- ===== src/Setup/Server/Success.antt =====
-- What has been done when POST /setup answers success.
use nestjs_vibe_engine.Prelude.{
  arith, ℕ, suc, ◌+◌, String, ◌≡◌, refl, sym, ap, ◌∙◌, subst, Bool, true, List, Option, none, some,
  ◌∷◌, inl, inr, ◌⊎◌, ◌||◌, ◌==◌, eq_iff, Option-cases, Bool-cases,
}
use nestjs_vibe_engine.Exec.{Exec, Result, ok, err, Result-cases, recover, continue, ◌>>=◌}
use nestjs_vibe_engine.Setup.EnvFile.{Values, database_url, url_fields, build_env_content}
use nestjs_vibe_engine.Setup.Mysql.{Mysql, EnsureResult, test_mysql_connection, ensure_database}
use nestjs_vibe_engine.Setup.Mysql.Ensured.{Reports, ensure_database-Reports}
use nestjs_vibe_engine.Setup.Server.{
  Wizard, System, Answer, on_env, broadcast_sse, respond, complete, run_command, push_schema,
  generate_client, database_ensured, server_tested, initialize, set_up, error_of, conn_opts,
  report_failure, command_ran, database_checked,
}
use nestjs_vibe_engine.Setup.Server.Answers.{as_number, set_up-AnsweredOnce}

module _ {E C : Type 0} (mysql : Mysql E C) (system : System E) where
  -- The steps outside, as commands on the world.
  abbrev pub write_env : String → Values → Exec E (Unit {0})
  write_env now form = system.write_file (build_env_content now form)

  abbrev pub test : Values → Exec E (Option String)
  test form = test_mysql_connection mysql (conn_opts form)

  abbrev pub ensure : Values → Exec E EnsureResult
  ensure form = ensure_database mysql (conn_opts form) (url_fields form).db_name

  abbrev pub generate : Exec E (Unit {0})
  generate = system.exec_sync "npx prisma generate" none

  abbrev pub push : Values → Exec E (Unit {0})
  push form = system.exec_sync "npx prisma db push --accept-data-loss" (some (database_url form))

  -- A part that sets the timer of success.
  abbrev Finishes : Exec (Wizard E) (Unit {0}) → Wizard E → Type 0
  Finishes part w = (part w).1.finishes ≡ suc w.finishes

  command_ran-done :
      (step failed : String) (next : Exec (Wizard E) (Unit {0})) (r : Result (Unit {0}))
      (w : Wizard E)
      → Finishes (command_ran mysql system step failed next r) w
      → (r ≡ ok tt) × (command_ran mysql system step failed next r w ≡ next w)
  unfolding broadcast_sse respond
  command_ran-done step failed next (ok done) w h = (refl, refl)
  command_ran-done step failed next (err e) w h = absurd (omega (arith, h))

  -- A command that was run on the way to success did not throw.
  run_command-done :
      (step failed command : String) (url : Option String) (next : Exec (Wizard E) (Unit {0}))
      (w : Wizard E)
      → Finishes (run_command mysql system step failed command url next) w
      → ((system.exec_sync command url w.env).0 ≡ ok tt)
        × (run_command mysql system step failed command url next w
            ≡ next (record w { env = (system.exec_sync command url w.env).1 }))
  unfolding run_command
  run_command-done step failed command url next w h =
      command_ran-done step failed next (system.exec_sync command url w.env).0
        (record w { env = (system.exec_sync command url w.env).1 }) h

  push_schema-done :
      (form : Values) (w : Wizard E)
      → Finishes (push_schema mysql system form) w
      → ((push form w.env).0 ≡ ok tt)
        × ((push_schema mysql system form w).1.env ≡ (push form w.env).1)
  unfolding push_schema complete broadcast_sse respond
  push_schema-done form w h =
      let (done, run) =
        run_command-done "prisma-push" "DB 테이블 생성 실패: " "npx prisma db push --accept-data-loss"
          (some (database_url form)) (complete mysql system) _ h in
      (done, ap (λ r. r.1.env) run)

  generate_client-done :
      (form : Values) (w : Wizard E)
      → Finishes (generate_client mysql system form) w
      → ((generate w.env).0 ≡ ok tt)
        × ((push form (generate w.env).1).0 ≡ ok tt)
        × ((generate_client mysql system form w).1.env ≡ (push form (generate w.env).1).1)
  unfolding generate_client broadcast_sse
  generate_client-done form w h =
      let (done, run) =
        run_command-done "prisma-generate" "Prisma Client 생성 실패: " "npx prisma generate" none
          (push_schema mysql system form) _ h in
      let (pushed, last) = push_schema-done form _ (ap (λ r. r.1.finishes) (sym run) ∙ h) in
      (done, pushed, ap (λ r. r.1.env) run ∙ last)

  database_checked-done :
      (form : Values) (created : Bool) (error : Option String) (w : Wizard E)
      → Finishes (database_checked mysql system form created error) w
      → (error ≡ none)
        × ((generate w.env).0 ≡ ok tt)
        × ((push form (generate w.env).1).0 ≡ ok tt)
        × ((database_checked mysql system form created error w).1.env
            ≡ (push form (generate w.env).1).1)
  unfolding broadcast_sse respond
  database_checked-done form created none w h =
      let (done, pushed, last) = generate_client-done form _ h in (refl, done, pushed, last)
  database_checked-done form created (some e) w h = absurd (omega (arith, h))

  -- A step outside on the way to success did not throw.
  on_env-done :
      {A : Type 0} (m : Exec E A) (f : A → Exec (Wizard E) (Unit {0})) (w : Wizard E)
      → Finishes (on_env m >>= f) w
      → (a : A) × ((m w.env).0 ≡ ok a) × ((on_env m >>= f) w ≡ f a (record w { env = (m w.env).1 }))
  on_env-done m f w h = elim (Result-cases (m w.env).0) [
    | inl (a, e) ↦ (a, e, ap (λ r. continue r f (record w { env = (m w.env).1 })) e)
    | inr (x, e) ↦
        let failed = ap (λ r. (continue r f (record w { env = (m w.env).1 })).1.finishes) e in
        absurd (omega (arith, failed, h))
  ]

  -- The database was there or was created, unless an empty message of its failure passed for none, and
  -- both commands have run, one after the other, from one world to another.
  abbrev pub DatabaseReady : Values → E → E → Type 0
  DatabaseReady form start end =
      (r : EnsureResult) × ((ensure form start).0 ≡ ok r)
      × (((r.created || r.existed) ≡ true) ⊎ (r.error ≡ some ""))
      × ((generate (ensure form start).1).0 ≡ ok tt)
      × ((push form (generate (ensure form start).1).1).0 ≡ ok tt)
      × (end ≡ (push form (generate (ensure form start).1).1).1)

  -- The file is written and the server has answered before that.
  abbrev pub AllDone : String → Values → E → E → Type 0
  AllDone now form start end =
      ((write_env now form start).0 ≡ ok tt)
      × ((test form (write_env now form start).1).0 ≡ ok none)
      × DatabaseReady form (test form (write_env now form start).1).1 end

  there_or_unsaid :
      (r : EnsureResult)
      → Reports r
      → error_of r ≡ none
      → ((r.created || r.existed) ≡ true) ⊎ (r.error ≡ some "")
  there_or_unsaid r (inl there) fine = inl there
  there_or_unsaid r (inr is_error) fine = elim (Option-cases r.error) [
    | inl e ↦ absurd (ground (arith, e, is_error))
    | inr (message, e) ↦ elim (Bool-cases (message == "")) [
      | inl empty ↦ inr (e ∙ ap some ((eq_iff message "").0 empty))
      | inr given ↦ absurd (ground (arith, (rw (e, given) at fine)))
    ]
  ]

  server_tested-done :
      (form : Values) (failed : Option String) (w : Wizard E)
      → Finishes (server_tested mysql system form failed) w
      → (failed ≡ none) × DatabaseReady form w.env (server_tested mysql system form failed w).1.env
  unfolding server_tested broadcast_sse respond database_ensured
  server_tested-done form (some message) w h = absurd (omega (arith, h))
  server_tested-done form none w h =
      let (r, ensured, run) = on_env-done (ensure form) (database_ensured mysql system form) _ h in
      let (fine, done, pushed, last) =
        database_checked-done form r.created (error_of r) _
          (ap (λ p. p.1.finishes) (sym run) ∙ h) in
      (
        refl,
        (
          r,
          ensured,
          there_or_unsaid r (ensure_database-Reports mysql _ _ _ r ensured) fine,
          done,
          pushed,
          ap (λ p. p.1.env) run ∙ last,
        ),
      )

  initialize-done :
      (now : String) (form : Values) (w : Wizard E)
      → Finishes (initialize mysql system now form) w
      → AllDone now form w.env (initialize mysql system now form w).1.env
  unfolding initialize broadcast_sse
  initialize-done now form w =
      elim (Result-cases (system.write_file (build_env_content now form) w.env).0) [
        | inl (a, e) ↦ rw e (λ h.
            let (failed, tested, run) =
              on_env-done (test form) (server_tested mysql system form) _ h in
            let (fine, ready) =
              server_tested-done form failed _ (ap (λ p. p.1.finishes) (sym run) ∙ h) in
            (
              refl,
              tested ∙ ap ok fine,
              subst (λ (end : E). DatabaseReady form (test form (write_env now form w.env).1).1 end)
                  (ap (λ p. p.1.env) (sym run)) ready,
            ))
        | inr (x, e) ↦ rw e (λ h. absurd (omega (arith, h)))
      ]

  recover-done :
      (w : Wizard E) (p : Result (Unit {0}) × Wizard E)
      → (recover p.0 (report_failure mysql system) p.1).1.finishes ≡ suc w.finishes
      → (p.1.finishes ≡ suc w.finishes)
  unfolding broadcast_sse respond
  recover-done w (ok done, w') h = h
  recover-done w (err e, w') h = h

  recover-env :
      (p : Result (Unit {0}) × Wizard E)
      → (recover p.0 (report_failure mysql system) p.1).1.env ≡ p.1.env
  unfolding broadcast_sse respond
  recover-env (ok done, w) = refl
  recover-env (err e, w) = refl

  timer_of_success :
      (n m : ℕ) (a b : Answer) (l : List Answer)
      → a ∷ l ≡ b ∷ l
      → b.success ≡ true
      → m ≡ n + as_number a.success
      → m ≡ suc n
  timer_of_success n m a b l same yes_b h = ground (arith, same, yes_b, h)

  -- If POST /setup answers success, the file was written, the server was reached, the database was
  -- there or created unless the step for it failed with an empty message, and both commands ran, each
  -- in the world that the one before left; and nothing else was done to it.
  pub set_up-AllDone :
      (now : String) (form : Values) (w : Wizard E) (a : Answer)
      → (set_up mysql system now form w).1.answers ≡ a ∷ w.answers
      → a.success ≡ true
      → AllDone now form w.env (set_up mysql system now form w).1.env
  unfolding set_up
  set_up-AllDone now form w a answered success =
      let (b, once, timer) = set_up-AnsweredOnce mysql system now form w in
      let finishes =
        timer_of_success w.finishes _ b a w.answers (sym once ∙ answered) success timer in
      subst (λ (end : E). AllDone now form w.env end)
        (sym (recover-env (initialize mysql system now form w)))
        (initialize-done now form w (recover-done w (initialize mysql system now form w) finishes))
