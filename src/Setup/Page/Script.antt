-- ===== src/Setup/Page/Script.antt =====
-- The script of the form in src/setup/setup.html.ts, on what it keeps in the document: the fields by
-- their ids, the steps, the text of the error and whether the button can be pressed. Labels of
-- buttons, styles and the visibility of groups and fields are left out.
pub mod Progress
pub mod Preview
pub mod Steps
pub mod Outcome
mod Tests
use Prim.Native.String.{char_at}
use nestjs_vibe_engine.Prelude.{
  ℕ, ◌%◌, String, Bool, true, false, Option, none, some, List, [], ◌∷◌, ◌&&◌, leb, ltb, is_some,
  if◌then◌else◌, ◌==◌,
}
use nestjs_vibe_engine.Js.Text.{◌⧺◌}
use nestjs_vibe_engine.Js.Map
use nestjs_vibe_engine.Js.Map.{TextMap}
use nestjs_vibe_engine.Js.Uri.{encode_uri_component}
use nestjs_vibe_engine.Setup.EnvFile.{Values}
use nestjs_vibe_engine.Setup.Server.{Event, Answer}

-- `bytes` are the random ones, one for each character.
unfoldable pub auto_generate : List ℕ → String
auto_generate [] = ""
auto_generate (byte ∷ bytes) =
    let rest = auto_generate bytes in
    String.◌∷◌
      (char_at "ABCDEFGHIJKLMNOPQRSTUVWXYZabcdefghijklmnopqrstuvwxyz0123456789!@#$%^&*" (byte % 70))
      rest

-- value || fallback
abbrev pub value_or : String → Option String → String
value_or fallback none = fallback
value_or fallback (some t) = if t == "" then fallback else t

-- document.getElementById(id)?.value || fallback
abbrev pub input_or : Values → String → String → String
input_or form id fallback = value_or fallback (Map.get form id)

-- The text of the preview.
unfoldable pub update_db_url : Values → String
update_db_url form =
    let host = input_or form "DB_HOST" "localhost" in
    let port = input_or form "DB_PORT" "3306" in
    let user = input_or form "DB_USER" "root" in
    let pass = input_or form "DB_PASSWORD" "" in
    let db = input_or form "DB_NAME" "nestjs_engine_db" in
    let encoded = encode_uri_component pass in
    "mysql://" ⧺ (user ⧺ (":" ⧺ (encoded ⧺ ("@" ⧺ (host ⧺ (":" ⧺ (port ⧺ ("/" ⧺ db))))))))

-- What the test of the connection posts.
unfoldable pub test_data : Values → Values
test_data form =
    ("DB_HOST", input_or form "DB_HOST" "localhost")
    ∷ ("DB_PORT", input_or form "DB_PORT" "3306")
    ∷ ("DB_USER", input_or form "DB_USER" "root")
    ∷ ("DB_PASSWORD", input_or form "DB_PASSWORD" "")
    ∷ ("DB_NAME", input_or form "DB_NAME" "nestjs_engine_db")
    ∷ []

-- `steps` are the elements of progressSteps by the step of their id; `error` is the text that is
-- shown, none where it is hidden; `listening`: the stream of events is open.
pub record SetupPage : Type 0 where
  pub submit_disabled : Bool
  pub steps : TextMap String
  pub error : Option String
  pub listening : Bool

unfoldable pub icon_of : String → String
icon_of status =
    if status == "pending"
    then "⏳"
    else if status == "running"
    then "🔄"
    else if status == "done"
    then "✅"
    else if status == "error"
    then "❌"
    else if status == "complete"
    then "🎉"
    else "⏳"

unfoldable pub step_html : Event → String
step_html step =
    "<div class=\"step-item step-"
    ⧺ (step.status
        ⧺ ("\" id=\"step-"
            ⧺ (step.step
                ⧺ ("\"><span class=\"step-icon\">"
                    ⧺ (icon_of step.status
                        ⧺ ("</span><span class=\"step-text\">"
                            ⧺ (step.message ⧺ "</span></div>")))))))

-- existing.outerHTML = html, or container.innerHTML += html
unfoldable pub add_progress_step : Event → TextMap String → TextMap String
add_progress_step step steps = Map.set steps step.step (step_html step)

-- handleSubmit up to the request.
unfoldable pub submit : SetupPage → SetupPage
submit page = record { submit_disabled = true; steps = []; error = none; listening = true }

abbrev pub show_error : String → SetupPage → SetupPage
show_error message page = record page { submit_disabled = false; error = some message }

abbrev pub step_received : Event → SetupPage → SetupPage
step_received step page =
    if step.status == "complete"
    then record page { listening = false }
    else if step.status == "error"
    then show_error step.message (record page { listening = false })
    else page

-- evtSource.onmessage, which a closed stream does not call.
unfoldable pub on_message : Event → SetupPage → SetupPage
on_message step page =
    if page.listening
    then step_received step (record page { steps = add_progress_step step page.steps })
    else page

-- evtSource.onerror
unfoldable pub on_stream_error : SetupPage → SetupPage
on_stream_error page = record page { listening = false }

-- res.ok
abbrev pub is_ok_status : ℕ → Bool
is_ok_status status = leb 200 status && ltb status 300

-- The answer of POST /setup, whose error is the message where it is not one of success.
unfoldable pub on_answer : Answer → SetupPage → SetupPage
on_answer a page =
    if is_ok_status a.status
    then page
    else show_error (value_or "설정 중 오류가 발생했습니다." (some a.message)) page

-- The request fails.
unfoldable pub on_no_answer : String → SetupPage → SetupPage
on_no_answer message page = show_error ("서버 연결에 실패했습니다: " ⧺ message) page
