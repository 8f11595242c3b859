-- ===== src/Setup/Page/Script/Tests.antt =====
-- The script at concrete inputs.
use nestjs_vibe_engine.Prelude.{String, ◌≡◌, refl, false, some, [], ◌∷◌}
use nestjs_vibe_engine.Exec.{ok, err, failure}
use nestjs_vibe_engine.Js.Map
use nestjs_vibe_engine.Js.Uri.{encode_uri_component}
use nestjs_vibe_engine.Setup.EnvFile.{Values}
use nestjs_vibe_engine.Setup.Mysql.{Mysql}
use nestjs_vibe_engine.Setup.Server.{Wizard, System, set_up}
use nestjs_vibe_engine.Setup.Page.Script.{
  SetupPage, auto_generate, update_db_url, submit, on_message, add_progress_step, step_html,
}
use nestjs_vibe_engine.Setup.Page.Script.Outcome.{ShowsAnswer, set_up-Over}

generated : auto_generate (0 ∷ 69 ∷ 70 ∷ 255 ∷ []) ≡ "A*At"
unfolding auto_generate
generated = refl

abbrev form : Values
form = ("DB_HOST", "db") ∷ ("DB_PORT", "") ∷ []

previewed : update_db_url form ≡ "mysql://root:@db:3306/nestjs_engine_db"
unfolding update_db_url encode_uri_component Map.get
previewed = refl

-- A server that cannot be reached.
abbrev mysql : Mysql String (Unit {0})
mysql = record {
  create_connection = λ opts e. (err (failure "ECONNREFUSED"), e);
  query = λ conn sql params e. (ok [], e);
  end = λ conn e. (ok tt, e);
}

abbrev system : System String
system = record {
  write_file = λ content e. (ok tt, content);
  exec_sync = λ command url e. (ok tt, e);
}

abbrev wizard : Wizard String
wizard = record {
  env = "";
  sse_clients = 7 ∷ [];
  written = [];
  answers = [];
  finishes = 0;
  open_sockets = [];
  resolved = false;
}

abbrev page : SetupPage
page = record { submit_disabled = false; steps = []; error = some "before"; listening = false }

set_up-Over_example : ShowsAnswer 7 (submit page) wizard (set_up mysql system "now" form wizard).1
set_up-Over_example = set_up-Over mysql system 7 page "now" form wizard refl refl

-- A later event of a step takes the place of the earlier one.
step_replaced :
    Map.get
      (on_message
        (record { step = "env"; status = "done"; message = "b" })
        (on_message
          (record { step = "env"; status = "running"; message = "a" })
          (submit page))).steps
      "env"
    ≡ some (step_html (record { step = "env"; status = "done"; message = "b" }))
unfolding on_message submit add_progress_step Map.set Map.get
step_replaced = refl
