-- ===== src/Setup/Page.antt =====
-- The fields of the form in src/setup/setup.html.ts: renderGroupFields, renderField and escapeHtml.
-- The page around them, with its styles, is left out; Script is its script.
pub mod Escaped
mod Digits
pub mod Script
mod Tests
use Prim.Native.Char.{Char, code}
use Prim.Native.String.{char_at}
use nestjs_vibe_engine.Prelude.{
  ℕ, zero, suc, ◌/◌, ◌%◌, String, Bool, true, false, Option, none, some, List, [], ◌∷◌, ltb, nat_eq,
  if◌then◌else◌, ◌==◌,
}
use nestjs_vibe_engine.Js.Text.{◌⧺◌}
use nestjs_vibe_engine.Js.Map
use nestjs_vibe_engine.Setup.EnvDefinition.{
  EnvDefinition, FieldType, text, password, number, select,
}
use nestjs_vibe_engine.Setup.Env.{env_definitions}
use nestjs_vibe_engine.Setup.EnvFile.{Values, in_group, value_of}

-- str.replace(/c/g, replacement)
unfoldable pub replace_all : Char → String → String → String
replace_all c replacement String.[] = ""
replace_all c replacement (String.◌∷◌ d s) =
    let rest = replace_all c replacement s in
    if nat_eq (code d) (code c) then replacement ⧺ rest else String.◌∷◌ d rest

unfoldable pub escape_html : String → String
escape_html str =
    replace_all ">" "&gt;"
      (replace_all "<" "&lt;" (replace_all "\"" "&quot;" (replace_all "&" "&amp;" str)))

abbrev pub type_text : FieldType → String
type_text text = "text"
type_text password = "password"
type_text number = "number"
type_text select = "select"

-- The decimal digits of a number; its size is more than enough fuel.
unfoldable pub digits : ℕ → ℕ → String
digits zero n = ""
digits (suc fuel) n =
    let front = digits fuel (n / 10) in
    let last = String.◌∷◌ (char_at "0123456789" (n % 10)) "" in
    if ltb n 10 then last else front ⧺ last

abbrev pub number_text : ℕ → String
number_text n = digits (suc n) n

-- def.autoGenerateLength || 32
abbrev pub length_or_default : Option ℕ → ℕ
length_or_default none = 32
length_or_default (some n) = if nat_eq n 0 then 32 else n

-- An HTML attribute.
abbrev pub attribute : String → String → String
attribute name value = name ⧺ ("=\"" ⧺ (value ⧺ "\""))

unfoldable pub render_options : String → List String → String
render_options value [] = ""
render_options value (opt ∷ opts) =
    "<option "
    ⧺ (attribute "value" opt
        ⧺ ((if opt == value then " selected" else "")
            ⧺ (">" ⧺ (opt ⧺ ("</option>" ⧺ render_options value opts)))))

abbrev pub render_select : EnvDefinition → String → List String → String
render_select def value options =
    "<select "
    ⧺ (attribute "id" def.key
        ⧺ (" "
            ⧺ (attribute "name" def.key
                ⧺ (" class=\"form-input\">" ⧺ (render_options value options ⧺ "</select>")))))

abbrev pub render_text_input : EnvDefinition → String → String
render_text_input def value =
    "<input\n      "
    ⧺ (attribute "type" (type_text def.type)
        ⧺ ("\n      "
            ⧺ (attribute "id" def.key
                ⧺ ("\n      "
                    ⧺ (attribute "name" def.key
                        ⧺ ("\n      class=\"form-input\"\n      "
                            ⧺ (attribute "value" (escape_html value)
                                ⧺ ("\n      "
                                    ⧺ (attribute "placeholder" (escape_html def.placeholder)
                                        ⧺ ("\n      "
                                            ⧺ ((if def.required then "required" else "")
                                                ⧺ "\n    />")))))))))))

abbrev pub input_by_type : EnvDefinition → String → FieldType → Option (List String) → String
input_by_type def value select (some options) = render_select def value options
input_by_type def value select none = render_text_input def value
input_by_type def value text options = render_text_input def value
input_by_type def value password options = render_text_input def value
input_by_type def value number options = render_text_input def value

-- An optional text: nothing for undefined and for "".
abbrev pub when_given : Option String → (String → String) → String
when_given none render = ""
when_given (some t) render = if t == "" then "" else render t

abbrev pub render_auto_button : EnvDefinition → String
render_auto_button def =
    if def.auto_generate
    then "<button type=\"button\" class=\"btn-auto\" onclick=\"autoGenerate('"
      ⧺ (def.key
          ⧺ ("', "
              ⧺ (number_text (length_or_default def.auto_generate_length) ⧺ ")\">자동 생성</button>")))
    else ""

unfoldable pub render_field : Values → EnvDefinition → String
render_field existing_values def =
    "\n    <div class=\"field-row\""
    ⧺ (when_given def.hide_when_env (λ e. " data-hide-env=\"" ⧺ (e ⧺ "\""))
        ⧺ (">\n      <label for=\""
            ⧺ (def.key
                ⧺ ("\" class=\"field-label\">\n        "
                    ⧺ (def.label
                        ⧺ (" "
                            ⧺ ((if def.required then "<span class=\"required\">*</span>" else "")
                                ⧺ ("\n      </label>\n      <div class=\"field-input-wrap\">\n        "
                                    ⧺ (input_by_type def (value_of existing_values def) def.type
                                          def.options
                                        ⧺ ("\n        "
                                            ⧺ (render_auto_button def
                                                ⧺ ("\n      </div>\n      "
                                                    ⧺ (when_given def.description (λ d.
                                                          "<p class=\"field-desc\">" ⧺ (d ⧺ "</p>"))
                                                        ⧺ "\n    </div>")))))))))))))

-- fields.map(…).join('\n')
unfoldable pub join_fields : Values → List EnvDefinition → String
join_fields existing_values [] = ""
join_fields existing_values (def ∷ []) = render_field existing_values def
join_fields existing_values (def ∷ next ∷ defs) =
    render_field existing_values def ⧺ ("\n" ⧺ join_fields existing_values (next ∷ defs))

unfoldable pub render_group_fields : String → Values → String
render_group_fields group_id existing_values =
    join_fields existing_values (in_group group_id env_definitions)
