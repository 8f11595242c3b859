-- ===== src/Setup/EnvFile/RoundTrip.antt =====
-- What parseEnvFile reads back from the file that buildEnvContent wrote.
use text.Mathlib.TextLemmas.{cons-append}
use nestjs_vibe_engine.Prelude.{
  String, ◌≡◌, refl, sym, ap, ◌∙◌, Bool, true, ◌&&◌, some, List, [], ◌∷◌, ◌++◌, arith,
  if◌then◌else◌, ◌==◌, all, Bool-cases, inl, inr, and-intro, and-left, and-right,
}
use nestjs_vibe_engine.Js.Text.{◌⧺◌, trim, trim_start, trim_end, is_space}
use nestjs_vibe_engine.Js.Cut.{all_codes, lacks, all_codes-append}
use nestjs_vibe_engine.Js.Map
use nestjs_vibe_engine.Setup.EnvDefinition.{EnvDefinition}
use nestjs_vibe_engine.Setup.Env.{env_definitions}
use nestjs_vibe_engine.Setup.EnvFile.{
  Values, starts_with, parse_line, parse_lines, parse_env_file, line_of, value_of, in_group,
  definition_lines, entry_lines, group_lines, group_order, env_lines, build_env_content,
  database_url, is_db_key,
}
use nestjs_vibe_engine.Setup.EnvFile.Lines.{
  is_key, is_plain, parse_line-line_of, split-join_lines, key-lacks, all_keys,
}

abbrev pub set_all : List (String × String) → Values → Values
set_all [] result = result
set_all ((k, v) ∷ entries) result = set_all entries (Map.set result k v)

-- A variable for each definition whose value is not a part of the URL.
abbrev pub definition_entries : Values → List EnvDefinition → List (String × String)
definition_entries values [] = []
definition_entries values (def ∷ defs) =
    let rest = definition_entries values defs in
    if is_db_key def.key then rest else (def.key, value_of values def) ∷ rest

abbrev entries_of : Values → String → List (String × String)
entries_of values group =
    if group == "database"
    then ("DATABASE_URL", database_url values) ∷ []
    else definition_entries values (in_group group env_definitions)

abbrev group_entries : Values → List (String × String) → List (String × String)
group_entries values [] = []
group_entries values ((group, comment) ∷ groups) =
    entries_of values group ++ group_entries values groups

-- The variables of the file, in its order.
abbrev pub saved_entries : Values → List (String × String)
saved_entries values = group_entries values group_order

abbrev carries : Values → EnvDefinition → Bool
carries values def = is_key def.key && is_plain (value_of values def)

-- Each value that is written is one that a line carries.
unfoldable pub all_plain : Values → Bool
all_plain values = is_plain (database_url values) && all (carries values) env_definitions

in_group-all :
    (p : EnvDefinition → Bool) (group : String) (defs : List EnvDefinition)
    → all p defs ≡ true
    → all p (in_group group defs) ≡ true
unfolding in_group
in_group-all p group [] h = refl
in_group-all p group (def ∷ defs) h =
    let rest = in_group-all p group defs (ground (arith, h)) in ground (arith, h, rest)

parse_lines-definition_lines :
    (values : Values) (defs : List EnvDefinition) (more : List String) (result : Values)
    → all (carries values) defs ≡ true
    → parse_lines (definition_lines values defs ++ more) result
      ≡ parse_lines more (set_all (definition_entries values defs) result)
unfolding definition_lines parse_lines
parse_lines-definition_lines values [] more result h = refl
parse_lines-definition_lines values (def ∷ defs) more result h =
    elim (Bool-cases (is_db_key def.key)) [
      | inl e ↦ rw e (parse_lines-definition_lines values defs more result (ground (arith, h)))
      | inr e ↦ rw e (
          ap (parse_lines (definition_lines values defs ++ more)) (
            parse_line-line_of def.key (value_of values def) result (ground (arith, h))
              (ground (arith, h)))
          ∙ parse_lines-definition_lines values defs more
              (Map.set result def.key (value_of values def)) (ground (arith, h)))
    ]

parse_lines-entry_lines :
    (values : Values) (group : String) (more : List String) (result : Values)
    → all_plain values ≡ true
    → parse_lines (entry_lines values group ++ more) result
      ≡ parse_lines more (set_all (entries_of values group) result)
unfolding parse_lines all_plain all_codes
parse_lines-entry_lines values group more result h = elim (Bool-cases (group == "database")) [
  | inl e ↦ rw e (
      ap (parse_lines more)
        (parse_line-line_of "DATABASE_URL" (database_url values) result refl (ground (arith, h))))
  | inr e ↦ rw e (
      parse_lines-definition_lines values (in_group group env_definitions) more result
        (in_group-all (carries values) group env_definitions (ground (arith, h))))
]

abbrev is_comment : String → Bool
is_comment line = starts_with "#" (trim line)

set_all-append :
    (xs ys : List (String × String)) (result : Values)
    → set_all (xs ++ ys) result ≡ set_all ys (set_all xs result)
set_all-append [] ys result = refl
set_all-append ((k, v) ∷ xs) ys result = set_all-append xs ys (Map.set result k v)

parse_comment :
    (line : String) (result : Values)
    → is_comment line ≡ true
    → parse_line (trim line) result ≡ result
unfolding parse_line
parse_comment line result h = ground (arith, h)

parse_lines-group_lines :
    (values : Values) (groups : List (String × String)) (result : Values)
    → all_plain values ≡ true
    → all (λ g. is_comment g.1) groups ≡ true
    → parse_lines (group_lines values groups) result ≡ set_all (group_entries values groups) result
unfolding group_lines parse_lines parse_line trim trim_start trim_end
parse_lines-group_lines values [] result h c = refl
parse_lines-group_lines values ((group, comment) ∷ groups) result h c =
    ap (parse_lines (entry_lines values group ++ group_lines values groups))
      (parse_comment comment result (ground (arith, c)))
    ∙ parse_lines-entry_lines values group (group_lines values groups) result h
    ∙ parse_lines-group_lines values groups (set_all (entries_of values group) result) h
        (ground (arith, c))
    ∙ sym (set_all-append (entries_of values group) (group_entries values groups) result)

abbrev on_a_line : String → Bool
on_a_line = all_codes (lacks "\n")

all-append :
    (xs ys : List String)
    → all on_a_line xs ≡ true
    → all on_a_line ys ≡ true
    → all on_a_line (xs ++ ys) ≡ true
all-append [] ys h k = k
all-append (x ∷ xs) ys h k =
    let rest = all-append xs ys (ground (arith, h)) k in ground (arith, h, rest)

line_of-on_a_line :
    (k v : String) → is_key k ≡ true → is_plain v ≡ true → on_a_line (line_of k v) ≡ true
unfolding all_codes
line_of-on_a_line k v key plain =
    all_codes-append (lacks "\n") k ("=" ⧺ v) (key-lacks "\n" k refl (all_keys k key))
      (all_codes-append (lacks "\n") "=" v refl (ground (arith, plain)))

definition_lines-on_a_line :
    (values : Values) (defs : List EnvDefinition)
    → all (carries values) defs ≡ true
    → all on_a_line (definition_lines values defs) ≡ true
unfolding definition_lines
definition_lines-on_a_line values [] h = refl
definition_lines-on_a_line values (def ∷ defs) h =
    let here = and-left (carries values def) (all (carries values) defs) h in
    let rest =
      definition_lines-on_a_line values defs
        (and-right (carries values def) (all (carries values) defs) h) in
    let first =
      line_of-on_a_line def.key (value_of values def)
        (and-left (is_key def.key) (is_plain (value_of values def)) here)
        (and-right (is_key def.key) (is_plain (value_of values def)) here) in
    elim (Bool-cases (is_db_key def.key)) [
      | inl e ↦ rw e rest
      | inr e ↦ rw e (
          and-intro (on_a_line (line_of def.key (value_of values def)))
            (all on_a_line (definition_lines values defs)) first rest)
    ]

entry_lines-on_a_line :
    (values : Values) (group : String)
    → all_plain values ≡ true
    → all on_a_line (entry_lines values group) ≡ true
unfolding all_plain all_codes
entry_lines-on_a_line values group h = elim (Bool-cases (group == "database")) [
  | inl e ↦ rw e (
      let url = line_of-on_a_line "DATABASE_URL" (database_url values) refl (ground (arith, h)) in
      ground (arith, url))
  | inr e ↦ rw e (
      definition_lines-on_a_line values (in_group group env_definitions)
        (in_group-all (carries values) group env_definitions (ground (arith, h))))
]

group_lines-on_a_line :
    (values : Values) (groups : List (String × String))
    → all_plain values ≡ true
    → all (λ g. on_a_line g.1) groups ≡ true
    → all on_a_line (group_lines values groups) ≡ true
unfolding group_lines all_codes
group_lines-on_a_line values [] h c = refl
group_lines-on_a_line values ((group, comment) ∷ groups) h c =
    let rest =
      all-append (entry_lines values group) (group_lines values groups)
        (entry_lines-on_a_line values group h)
        (group_lines-on_a_line values groups h (ground (arith, c))) in
    ground (arith, c, rest)

abbrev first_line : String
first_line = "# NestJS Engine Environment Configuration"

abbrev dated_by : String
dated_by = "# Generated by Setup Wizard at "

dated_comment : (now : String) → is_comment (dated_by ⧺ now) ≡ true
unfolding trim trim_start trim_end is_space
dated_comment now = ap is_comment (cons-append "#" " Generated by Setup Wizard at " now)

parse_lines-env_lines :
    (now : String) (values : Values)
    → all_plain values ≡ true
    → parse_lines (env_lines now values) [] ≡ set_all (saved_entries values) []
unfolding env_lines parse_lines parse_line trim trim_start trim_end is_space
parse_lines-env_lines now values h =
    ap (λ r. parse_lines (group_lines values group_order) r)
      (parse_comment (dated_by ⧺ now) [] (dated_comment now))
    ∙ parse_lines-group_lines values group_order [] h refl

-- Reading the file that was written for some values gives the URL of the database and the value or
-- default of each other variable, in the order of the file, when each of them is of one line, has
-- no white space around it and no quotation marks, and the time is of one line.
pub parse_env_file-build_env_content :
    (now : String) (values : Values)
    → all_codes (lacks "\n") now ≡ true
    → all_plain values ≡ true
    → parse_env_file (some (build_env_content now values)) ≡ set_all (saved_entries values) []
unfolding parse_env_file build_env_content env_lines all_codes
parse_env_file-build_env_content now values line h =
    let dated = all_codes-append (lacks "\n") dated_by now refl line in
    let groups = group_lines-on_a_line values group_order h refl in
    ap (λ lines. parse_lines lines [])
      (split-join_lines first_line
        ((dated_by ⧺ now) ∷ "" ∷ "# App" ∷ group_lines values group_order)
        (ground (arith, dated, groups)))
    ∙ parse_lines-env_lines now values h
