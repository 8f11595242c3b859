-- ===== src/Startup/Order.antt =====
-- What the start has asked for when it fails at some point.
use nestjs_vibe_engine.Prelude.{
  ◌==◌, ◌≡◌, ap, refl, ◌∙◌, Bool, true, false, not, ◌||◌, Option, none, some, List, [], ◌∷◌, ◌++◌,
  if◌then◌else◌, Option-cases, inl, inr, is_some,
}
use mathlib.Core.List.{append_assoc}
use nestjs_vibe_engine.Exec.{Exec, Exception, Result, ok, err, ◌>>◌}
use nestjs_vibe_engine.Startup.Plan.{plan, wizard, code_server, code-plan}
use nestjs_vibe_engine.Startup.{
  Env, Action, start_setup_server, create_app, get_or, is_swagger_on, wizard_if, serve, run_app,
  bootstrap,
}

abbrev answer_of : Option Exception → Result (Unit {0})
answer_of none = ok tt
answer_of (some e) = err e

-- An outside that notes each action that it is asked for, and that may refuse any.
abbrev pub noted : (Action → Option Exception) → Action → Exec (List Action) (Unit {0})
noted refusal a done = (answer_of (refusal a), done ++ (a ∷ []))

-- The actions up to the first one that is refused, which is the last.
abbrev pub until_refused : (Action → Option Exception) → List Action → List Action
until_refused refusal [] = []
until_refused refusal (a ∷ more) =
    a ∷ (if is_some (refusal a) then [] else until_refused refusal more)

module _ (refusal : Action → Option Exception) where
  abbrev run_all : Action → List Action → Exec (List Action) (Unit {0})
  run_all a [] = noted refusal a
  run_all a (b ∷ more) = noted refusal a >> run_all b more

  run_all-log :
      (a : Action) (more done : List Action)
      → (run_all a more done).1 ≡ done ++ until_refused refusal (a ∷ more)
  run_all-log a [] done = elim (Option-cases (refusal a)) [
    | inl e ↦ rw e refl
    | inr (x, e) ↦ rw e refl
  ]
  run_all-log a (b ∷ more) done = elim (Option-cases (refusal a)) [
    | inr (x, e) ↦ rw e refl
    | inl e ↦ rw e (
        run_all-log b more (done ++ (a ∷ []))
        ∙ append_assoc done (a ∷ []) (until_refused refusal (b ∷ more)))
  ]

  serve-log :
      (env : Env) (on : Bool) (done : List Action)
      → (serve (noted refusal) env on done).1
        ≡ done ++ until_refused refusal (create_app ∷ code_server env on)
  unfolding serve
  serve-log env true done = run_all-log create_app (code_server env true) done
  serve-log env false done = run_all-log create_app (code_server env false) done

  -- The start asks, in this order, for the wizard where there is no file .env or FORCE_SETUP is true, the
  -- server with its settings, every origin where CORS_ORIGINS is unset or a star, the page of the API
  -- unless SWAGGER_ENABLED is not true or NODE_ENV is prod, and the port, 3000 where it is not given, at
  -- the end; it stops behind the first of these that is refused, whichever that is.
  pub bootstrap-plan :
      (env_exists : Bool) (process_env env : Env)
      → (bootstrap (noted refusal) env_exists process_env env []).1
        ≡ until_refused refusal (plan env_exists process_env env)
  unfolding bootstrap run_app
  bootstrap-plan env_exists process_env env =
      wizard_first (not env_exists || get_or "" (process_env "FORCE_SETUP") == "true")
      ∙ ap (until_refused refusal) (code-plan env_exists process_env env)
    where
      wizard_first :
          (needed : Bool)
          → ((wizard_if (noted refusal) needed >> serve (noted refusal) env (is_swagger_on env))
              []).1
            ≡ until_refused refusal
                (wizard needed ++ (create_app ∷ code_server env (is_swagger_on env)))
      wizard_first false = serve-log env (is_swagger_on env) []
      wizard_first true = elim (Option-cases (refusal (start_setup_server 4321 true))) [
        | inl e ↦ rw e (serve-log env (is_swagger_on env) (start_setup_server 4321 true ∷ []))
        | inr (x, e) ↦ rw e refl
      ]
