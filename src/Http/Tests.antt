-- ===== src/Http/Tests.antt =====
-- Tests of the error filter and of the time zones.
use nestjs_vibe_engine.Prelude.{ℕ, ◌≡◌, refl}
use nestjs_vibe_engine.Http.ErrorFilter.{
  texts, catch_exception, http_exception, with_message, get_error_code, error_body,
  formatted_message, join,
}
use nestjs_vibe_engine.Prelude.{none, some, [], ◌∷◌}
use nestjs_vibe_engine.Http.Timezone.{
  Payload, text as text_of, date, array, object, no_items, item, no_entries, entry, Dayjs,
  convert_to_timezone, transform_dates,
}
use nestjs_vibe_engine.Http.Timezone.Dates.{transform_dates-no_dates}

abbrev unauthorized : ℕ
unauthorized = 401

joined_message :
    catch_exception (http_exception 400 (with_message (texts ("a" ∷ "b" ∷ []))))
    ≡ (400, record { code = "REQ_001"; message = "a, b" })
unfolding catch_exception error_body get_error_code formatted_message join
joined_message = refl

abbrev dayjs : Dayjs
dayjs = record { format_in = λ time tz. some "1970-01-01 09:00:00"; parse_in = λ date_str tz. none }

abbrev profile : Payload
profile =
    object
      (entry "createdAt" (date 0) (entry "tags" (array (item (text_of "a") no_items)) no_entries))

abbrev shown_profile : Payload
shown_profile = object (
    entry "createdAt" (text_of "1970-01-01 09:00:00")
      (entry "tags" (array (item (text_of "a") no_items)) no_entries))

profile_shown : transform_dates dayjs profile "Asia/Seoul" ≡ some shown_profile
unfolding transform_dates convert_to_timezone
profile_shown = refl

transform_dates-no_dates_example : transform_dates dayjs shown_profile "UTC" ≡ some shown_profile
transform_dates-no_dates_example =
    (transform_dates-no_dates dayjs profile shown_profile "Asia/Seoul" "UTC" profile_shown).1
