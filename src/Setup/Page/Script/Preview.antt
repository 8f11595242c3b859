-- ===== src/Setup/Page/Script/Preview.antt =====
-- The script and the server read the fields of the database in the same way.
use nestjs_vibe_engine.Prelude.{
  String, ◌≡◌, refl, sym, ◌∙◌, Option, none, some, ◌==◌, Bool-cases, inl, inr,
}
use nestjs_vibe_engine.Js.Map
use nestjs_vibe_engine.Setup.DatabaseUrl.{DbFields, build_database_url}
use nestjs_vibe_engine.Setup.EnvFile.{Values, truthy, or_default, field, url_fields, database_url}
use nestjs_vibe_engine.Setup.Page.Script.{value_or, input_or, update_db_url, test_data}

default-truthy :
    (o : Option String) (fallback : String) → or_default (truthy o) fallback ≡ value_or fallback o
default-truthy none fallback = refl
default-truthy (some t) fallback = elim (Bool-cases (t == "")) [
  | inl e ↦ rw e refl
  | inr e ↦ rw e refl
]

text_or_same : (fallback : String) → value_or fallback (some fallback) ≡ fallback
text_or_same fallback = elim (Bool-cases (fallback == "")) [ inl e ↦ rw e refl | inr e ↦ rw e refl ]

value_or-value_or :
    (o : Option String) (fallback : String)
    → value_or fallback (some (value_or fallback o)) ≡ value_or fallback o
value_or-value_or none fallback = text_or_same fallback
value_or-value_or (some t) fallback = elim (Bool-cases (t == "")) [
  | inl e ↦ rw e (text_or_same fallback)
  | inr e ↦ rw (e, e) refl
]

-- The fields as the script reads them.
abbrev shown_fields : Values → DbFields
shown_fields form = record {
  host = input_or form "DB_HOST" "localhost";
  port = input_or form "DB_PORT" "3306";
  user = input_or form "DB_USER" "root";
  password = input_or form "DB_PASSWORD" "";
  db_name = input_or form "DB_NAME" "nestjs_engine_db";
}

url_fields-shown : (form : Values) → url_fields form ≡ shown_fields form
unfolding url_fields field
url_fields-shown form =
    rw
      (
        default-truthy (Map.get form "DB_HOST") "localhost",
        default-truthy (Map.get form "DB_PORT") "3306",
        default-truthy (Map.get form "DB_USER") "root",
        default-truthy (Map.get form "DB_PASSWORD") "",
        default-truthy (Map.get form "DB_NAME") "nestjs_engine_db",
      )
      refl

shown_fields-test_data : (form : Values) → shown_fields (test_data form) ≡ shown_fields form
unfolding test_data Map.get
shown_fields-test_data form =
    rw
      (
        value_or-value_or (Map.get form "DB_HOST") "localhost",
        value_or-value_or (Map.get form "DB_PORT") "3306",
        value_or-value_or (Map.get form "DB_USER") "root",
        value_or-value_or (Map.get form "DB_PASSWORD") "",
        value_or-value_or (Map.get form "DB_NAME") "nestjs_engine_db",
      )
      refl

-- For every state of the form, the preview is the DATABASE_URL that the server writes for the posted
-- form, and the test of the connection uses the fields that the set-up will use.
pub preview_is_written :
    (form : Values)
    → (update_db_url form ≡ database_url form) × (url_fields (test_data form) ≡ url_fields form)
unfolding update_db_url database_url build_database_url
preview_is_written form = (
  rw (url_fields-shown form) refl,
  url_fields-shown (test_data form) ∙ shown_fields-test_data form ∙ sym (url_fields-shown form),
)
