-- ===== src/Setup/EnvFile/Reopened.antt =====
-- The settings that the wizard shows when it is opened again on the file it wrote.
use text.Mathlib.TextLemmas.{cons-append, cons-ne-nil}
use nestjs_vibe_engine.Prelude.{
  String, ◌≡◌, ◌≢◌, refl, sym, ap, ◌∙◌, true, Option, none, some, [], ne→eq-false,
}
use nestjs_vibe_engine.Js.Text
use nestjs_vibe_engine.Js.Text.{◌⧺◌}
use nestjs_vibe_engine.Js.Cut.{all_codes, lacks}
use nestjs_vibe_engine.Js.Map
use nestjs_vibe_engine.Setup.DatabaseUrl.{DbFields, build_database_url, parse_database_url}
use nestjs_vibe_engine.Setup.DatabaseUrl.RoundTrip.{UrlFields, parse-build_database_url}
use nestjs_vibe_engine.Setup.EnvFile.{
  Values, parse_env_file, build_env_content, database_url, url_fields, with_db_fields,
  enrich_with_db_fields, in_group,
}
use nestjs_vibe_engine.Setup.EnvFile.RoundTrip.{
  set_all, saved_entries, all_plain, parse_env_file-build_env_content,
}

url_given :
    (host port user password db_name : String)
    → build_database_url host port user password db_name ≢ ""
unfolding build_database_url
url_given host port user password db_name e =
    cons-ne-nil "m" _ (sym (cons-append "m" "ysql://" _) ∙ e)

saved_url :
    (values : Values)
    → Map.get (set_all (saved_entries values) []) "DATABASE_URL" ≡ some (database_url values)
unfolding Map.get Map.set in_group Text.strip_prefix
saved_url values = refl

enriched :
    (result : Values) (url : String) (f : DbFields)
    → Map.get result "DATABASE_URL" ≡ some url
    → url ≢ ""
    → parse_database_url url ≡ some f
    → enrich_with_db_fields result ≡ with_db_fields result (some f)
unfolding enrich_with_db_fields
enriched result url f e given parsed =
    rw (e, enrich_with_db_fields) (rw (ne→eq-false url "" given) (rw parsed refl))

-- The five fields of the database that a result holds.
abbrev pub shown : Option Values → String → Option String
shown none k = none
shown (some result) k = Map.get result k

fields_shown :
    (values : Values) (f : DbFields)
    → let r = with_db_fields (set_all (saved_entries values) []) (some f) in
      (shown r "DB_HOST" ≡ some f.host)
      × (shown r "DB_PORT" ≡ some f.port)
      × (shown r "DB_USER" ≡ some f.user)
      × (shown r "DB_PASSWORD" ≡ some f.password)
      × (shown r "DB_NAME" ≡ some f.db_name)
unfolding Map.get Map.set in_group Text.strip_prefix
fields_shown values f = (refl, refl, refl, refl, refl)

-- The form of the wizard, opened again on the file that it wrote, shows the five fields of the
-- database that were saved, under the conditions of the two round trips: what is written is plain,
-- and the fields are ones that a URL can carry.
pub reopened_fields :
    (now : String) (values : Values)
    → all_codes (lacks "\n") now ≡ true
    → all_plain values ≡ true
    → UrlFields (url_fields values)
    → let f = url_fields values in
      let result = enrich_with_db_fields (parse_env_file (some (build_env_content now values))) in
      (shown result "DB_HOST" ≡ some f.host)
      × (shown result "DB_PORT" ≡ some f.port)
      × (shown result "DB_USER" ≡ some f.user)
      × (shown result "DB_PASSWORD" ≡ some f.password)
      × (shown result "DB_NAME" ≡ some f.db_name)
unfolding database_url
reopened_fields now values line plain fields =
    let f = url_fields values in
    let stored = parse_env_file-build_env_content now values line plain in
    let filled =
      ap enrich_with_db_fields stored
      ∙ enriched (set_all (saved_entries values) []) (database_url values) f (saved_url values)
          (url_given f.host f.port f.user f.password f.db_name)
          (parse-build_database_url f fields) in
    let (host, port, user, password, name) = fields_shown values f in
    (
      ap (λ r. shown r "DB_HOST") filled ∙ host,
      ap (λ r. shown r "DB_PORT") filled ∙ port,
      ap (λ r. shown r "DB_USER") filled ∙ user,
      ap (λ r. shown r "DB_PASSWORD") filled ∙ password,
      ap (λ r. shown r "DB_NAME") filled ∙ name,
    )
