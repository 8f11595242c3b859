-- ===== src/Setup/EnvFile.antt =====
-- The file .env in src/setup/setup.server.ts: parseEnvFile on its content, enrichWithDbFields and
-- buildEnvContent. An object with text values is a map; no key is a name of Object.prototype.
pub mod Lines
pub mod RoundTrip
pub mod Reopened
use Prim.Native.Char.{Char, code}
use nestjs_vibe_engine.Prelude.{
  ℕ, String, Bool, true, false, not, ◌&&◌, ◌||◌, Option, none, some, List, [], ◌∷◌, ◌++◌, nat_eq,
  any, is_some, if◌then◌else◌, ◌==◌,
}
use nestjs_vibe_engine.Js.Text.{◌⧺◌, trim, strip_prefix, split}
use nestjs_vibe_engine.Js.Cut.{cut}
use nestjs_vibe_engine.Js.Map
use nestjs_vibe_engine.Js.Map.{TextMap}
use nestjs_vibe_engine.Setup.EnvDefinition.{EnvDefinition}
use nestjs_vibe_engine.Setup.Env.{env_definitions}
use nestjs_vibe_engine.Setup.DatabaseUrl.{DbFields, build_database_url, parse_database_url}

abbrev pub Values : Type 0
Values = TextMap String

abbrev pub starts_with : Char → String → Bool
starts_with c String.[] = false
starts_with c (String.◌∷◌ d s) = nat_eq (code d) (code c)

unfoldable pub ends_with : Char → String → Bool
ends_with c String.[] = false
ends_with c (String.◌∷◌ d s) = if s == "" then nat_eq (code d) (code c) else ends_with c s

-- s.slice(1)
abbrev drop_first : String → String
drop_first String.[] = ""
drop_first (String.◌∷◌ c s) = s

-- s.slice(0, -1)
unfoldable drop_last : String → String
drop_last String.[] = ""
drop_last (String.◌∷◌ c s) = if s == "" then "" else String.◌∷◌ c (drop_last s)

-- In quotation marks of the same kind; a single mark is, too.
abbrev pub is_quoted : String → Bool
is_quoted v = (starts_with "\"" v && ends_with "\"" v) || (starts_with "'" v && ends_with "'" v)

unfoldable pub unquote : String → String
unfolding drop_last
unquote v = if is_quoted v then drop_last (drop_first v) else v

-- The body of the loop, on the line without the white space around it.
abbrev pub parse_pair : Option (String × String) → Values → Values
parse_pair none result = result
parse_pair (some (k, v)) result = Map.set result (trim k) (unquote (trim v))

unfoldable pub parse_line : String → Values → Values
parse_line trimmed result =
    if trimmed == "" || starts_with "#" trimmed then result else parse_pair (cut "=" trimmed) result

unfoldable pub parse_lines : List String → Values → Values
parse_lines [] result = result
parse_lines (line ∷ lines) result = parse_lines lines (parse_line (trim line) result)

-- none: there is no such file
unfoldable pub parse_env_file : Option String → Values
parse_env_file none = []
parse_env_file (some content) = parse_lines (split "\n" content) []

-- `values[key]`, where undefined and "" are false.
abbrev pub truthy : Option String → Option String
truthy none = none
truthy (some v) = if v == "" then none else some v

abbrev pub or_default : Option String → String → String
or_default none fallback = fallback
or_default (some v) fallback = v

abbrev set_if_missing : String → String → Values → Values
set_if_missing k v values = elim (truthy (Map.get values k)) [
  | none ↦ Map.set values k v
  | some old ↦ values
]

abbrev pub with_db_fields : Values → Option DbFields → Option Values
with_db_fields values none = none
with_db_fields values (some f) = some (
    set_if_missing "DB_NAME" f.db_name (
      set_if_missing "DB_PASSWORD" f.password (
        set_if_missing "DB_USER" f.user
          (set_if_missing "DB_PORT" f.port (set_if_missing "DB_HOST" f.host values)))))

-- none: the parsing of the URL throws
unfoldable pub enrich_with_db_fields : Values → Option Values
enrich_with_db_fields values = elim (truthy (Map.get values "DATABASE_URL")) [
  | none ↦ some values
  | some url ↦ with_db_fields values (parse_database_url url)
]

-- data[key] || fallback
unfoldable pub field : Values → String → String → String
field values k fallback = or_default (truthy (Map.get values k)) fallback

unfoldable pub url_fields : Values → DbFields
url_fields values = record {
  host = field values "DB_HOST" "localhost";
  port = field values "DB_PORT" "3306";
  user = field values "DB_USER" "root";
  password = field values "DB_PASSWORD" "";
  db_name = field values "DB_NAME" "nestjs_engine_db";
}

unfoldable pub database_url : Values → String
database_url values =
    let f = url_fields values in build_database_url f.host f.port f.user f.password f.db_name

abbrev pub is_db_key : String → Bool
is_db_key k =
    is_some (strip_prefix "DB_" k)
    && any (λ name. k == name) ("DB_HOST" ∷ "DB_PORT" ∷ "DB_USER" ∷ "DB_PASSWORD" ∷ "DB_NAME" ∷ [])

abbrev pub line_of : String → String → String
line_of k v = k ⧺ ("=" ⧺ v)

-- data[def.key] ?? def.defaultValue
unfoldable pub value_of : Values → EnvDefinition → String
value_of values def = or_default (Map.get values def.key) def.default_value

-- The definitions of a group.
unfoldable pub in_group : String → List EnvDefinition → List EnvDefinition
in_group group [] = []
in_group group (def ∷ defs) =
    let rest = in_group group defs in if def.group == group then def ∷ rest else rest

unfoldable pub definition_lines : Values → List EnvDefinition → List String
definition_lines values [] = []
definition_lines values (def ∷ defs) =
    let rest = definition_lines values defs in
    if is_db_key def.key then rest else line_of def.key (value_of values def) ∷ rest

abbrev pub group_order : List (String × String)
group_order =
    ("app", "# App")
    ∷ ("database", "# Database")
    ∷ ("redis", "# Redis")
    ∷ ("auth", "# Auth / Security")
    ∷ ("etc", "# Etc")
    ∷ []

abbrev pub entry_lines : Values → String → List String
entry_lines values group =
    if group == "database"
    then line_of "DATABASE_URL" (database_url values) ∷ []
    else definition_lines values (in_group group env_definitions)

unfoldable pub group_lines : Values → List (String × String) → List String
group_lines values [] = "" ∷ []
group_lines values ((group, comment) ∷ groups) =
    "" ∷ comment ∷ (entry_lines values group ++ group_lines values groups)

-- lines.join('\n')
unfoldable pub join_lines : List String → String
join_lines [] = ""
join_lines (line ∷ []) = line
join_lines (line ∷ next ∷ lines) = line ⧺ ("\n" ⧺ join_lines (next ∷ lines))

-- `now` is the text of the present time.
unfoldable pub env_lines : String → Values → List String
env_lines now values =
    "# NestJS Engine Environment Configuration"
    ∷ ("# Generated by Setup Wizard at " ⧺ now)
    ∷ ""
    ∷ "# App"
    ∷ group_lines values group_order

unfoldable pub build_env_content : String → Values → String
build_env_content now values = join_lines (env_lines now values)
