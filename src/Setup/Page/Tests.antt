-- ===== src/Setup/Page/Tests.antt =====
-- Tests of the form's fields.
use nestjs_vibe_engine.Prelude.{String, ◌≡◌, refl, true}
use nestjs_vibe_engine.Js.Cut.{all_codes, lacks}
use nestjs_vibe_engine.Setup.Page.{escape_html, replace_all, digits, number_text}
use nestjs_vibe_engine.Setup.Page.Escaped.{escape_html-safe}

abbrev breaking_out : String
breaking_out = "\"><script>&"

escaped : escape_html breaking_out ≡ "&quot;&gt;&lt;script&gt;&amp;"
unfolding escape_html replace_all
escaped = refl

button_length : number_text 64 ≡ "64"
unfolding digits
button_length = refl

escape_html-safe_example : all_codes (lacks "\"") (escape_html breaking_out) ≡ true
escape_html-safe_example = (escape_html-safe breaking_out).0
