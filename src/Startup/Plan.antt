-- ===== src/Startup/Plan.antt =====
-- What a start is documented to do, by the variables of its environment.
use nestjs_vibe_engine.Prelude.{
  ℕ, String, ◌==◌, ◌≡◌, refl, sym, ap, Bool, true, false, not, ◌&&◌, ◌||◌, Option, none, some, List,
  [], ◌∷◌, ◌++◌, if◌then◌else◌, Bool-cases, inl, inr, eq_iff,
}
use nestjs_vibe_engine.Js.Text.{◌⧺◌, split, strip_prefix, trim_start, is_space}
use nestjs_vibe_engine.Setup.Mysql.{parse_int, digits_from}
use nestjs_vibe_engine.Startup.{
  Env, env_or, Action, start_setup_server, create_app, use_helmet, enable_cors, use_validation_pipe,
  set_global_prefix, setup_swagger, listen, app_config, get_or, cors_origin, resolved_swagger_path,
  path_of, is_swagger_on,
}

-- The variable is set to the text.
abbrev is_set_to : String → Option String → Bool
is_set_to t none = false
is_set_to t (some v) = v == t

abbrev is_unset_or : String → Option String → Bool
is_unset_or t none = true
is_unset_or t (some v) = v == t

-- Every origin is admitted where no list is set or where it is a star.
abbrev origins_of : Option String → Option (List String)
origins_of none = none
origins_of (some origins) = if origins == "*" then none else some (split "," origins)

abbrev version_of : Option String → String
version_of none = "v1"
version_of (some version) = if version == "" then "v1" else version

abbrev port_of : Option String → Option ℕ
port_of none = some 3000
port_of (some port) = if port == "" then some 3000 else parse_int port

-- A slash in front is left out.
abbrev page_path_of : Option String → String
page_path_of none = "api-docs"
page_path_of (some path) = elim (strip_prefix "/" path) [ none ↦ path | some rest ↦ rest ]

-- The page of the API is there unless it is turned off or the environment is prod.
abbrev page : Env → List Action
page env =
    if is_unset_or "true" (env "SWAGGER_ENABLED") && not (is_set_to "prod" (env "NODE_ENV"))
    then setup_swagger (page_path_of (env "SWAGGER_PATH")) (version_of (env "API_VERSION")) ∷ []
    else []

abbrev pub wizard : Bool → List Action
wizard needed = if needed then start_setup_server 4321 true ∷ [] else []

-- All that a start without a failure asks for, in order: the wizard where there is no file .env or
-- where it is forced, then the server with its settings, the page, and the port at the end.
abbrev pub plan : Bool → Env → Env → List Action
plan env_exists process_env env =
    wizard (not env_exists || is_set_to "true" (process_env "FORCE_SETUP"))
    ++ (create_app
        ∷ use_helmet
        ∷ enable_cors (origins_of (env "CORS_ORIGINS"))
        ∷ use_validation_pipe
        ∷ set_global_prefix ("api/" ⧺ version_of (env "API_VERSION"))
        ∷ (page env ++ (listen (port_of (env "PORT")) ∷ [])))

get_or-star : (o : Option String) → cors_origin (get_or "*" o) ≡ origins_of o
get_or-star none = refl
get_or-star (some t) = refl

get_or-true : (o : Option String) → (get_or "true" o == "true") ≡ is_unset_or "true" o
get_or-true none = refl
get_or-true (some t) = refl

get_or-forced : (o : Option String) → (get_or "" o == "true") ≡ is_set_to "true" o
get_or-forced none = refl
get_or-forced (some t) = refl

env_or-version : (o : Option String) → env_or "v1" o ≡ version_of o
env_or-version none = refl
env_or-version (some t) = refl

env_or-prod : (o : Option String) → (env_or "local" o == "prod") ≡ is_set_to "prod" o
env_or-prod none = refl
env_or-prod (some t) = elim (Bool-cases (t == "")) [
  | inl e ↦ rw e (sym (ap (λ s. s == "prod") ((eq_iff t "").0 e)))
  | inr e ↦ rw e refl
]

env_or-port : (o : Option String) → parse_int (env_or "3000" o) ≡ port_of o
unfolding parse_int digits_from trim_start is_space
env_or-port none = refl
env_or-port (some t) = elim (Bool-cases (t == "")) [ inl e ↦ rw e refl | inr e ↦ rw e refl ]

resolved-page_path :
    (o : Option String) → resolved_swagger_path (get_or "/api-docs" o) ≡ page_path_of o
unfolding strip_prefix
resolved-page_path none = refl
resolved-page_path (some path) = path_of-elim (strip_prefix "/" path) path
  where
    path_of-elim :
        (rest : Option String) (path : String)
        → path_of rest path ≡ elim rest [ none ↦ path | some r ↦ r ]
    path_of-elim none path = refl
    path_of-elim (some r) path = refl

-- The actions as the code picks them.
abbrev pub code_wizard : Bool → Env → List Action
code_wizard env_exists process_env =
    wizard (not env_exists || get_or "" (process_env "FORCE_SETUP") == "true")

abbrev pub code_page : Env → Bool → List Action
code_page env on =
    if on
    then setup_swagger (resolved_swagger_path (get_or "/api-docs" (env "SWAGGER_PATH")))
        (app_config env).api_version
      ∷ []
    else []

abbrev pub code_server : Env → Bool → List Action
code_server env on =
    use_helmet
    ∷ enable_cors (cors_origin (get_or "*" (env "CORS_ORIGINS")))
    ∷ use_validation_pipe
    ∷ set_global_prefix ("api/" ⧺ (app_config env).api_version)
    ∷ (code_page env on ++ (listen (app_config env).port ∷ []))

-- The code's tests and defaults are those of the plan.
pub code-plan :
    (env_exists : Bool) (process_env env : Env)
    → code_wizard env_exists process_env ++ (create_app ∷ code_server env (is_swagger_on env))
      ≡ plan env_exists process_env env
unfolding app_config
code-plan env_exists process_env env =
    rw
      (
        get_or-forced (process_env "FORCE_SETUP"),
        get_or-star (env "CORS_ORIGINS"),
        get_or-true (env "SWAGGER_ENABLED"),
        env_or-version (env "API_VERSION"),
        env_or-prod (env "NODE_ENV"),
        env_or-port (env "PORT"),
        resolved-page_path (env "SWAGGER_PATH"),
      )
      refl
