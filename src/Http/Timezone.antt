-- ===== src/Http/Timezone.antt =====
-- src/core/timezone: the interceptor that turns the dates of a response into texts, and the service.
-- dayjs is a parameter, and a format that throws answers none. A response is a tree; objects other
-- than arrays and dates are read by their own entries.
pub mod Dates
use nestjs_vibe_engine.Prelude.{
  ℕ, String, ◌≡◌, refl, ap, Bool, true, false, ◌||◌, ◌&&◌, Option, none, some, List, [], ◌∷◌,
  if◌then◌else◌, ◌==◌, Option-cases, inl, inr, arith,
}

mutual
  pub data Payload : Type 0 where
    null undefined : Payload
    boolean : Bool → Payload
    number : ℕ → Payload
    text : String → Payload
    date : ℕ → Payload
    array : Items → Payload
    object : Entries → Payload

  pub data Items : Type 0 where
    no_items : Items
    item : Payload → Items → Items

  pub data Entries : Type 0 where
    no_entries : Entries
    entry : String → Payload → Entries → Entries

pub record Dayjs : Type 0 where
  -- dayjs.utc(date).tz(tz).format(DATE_FORMAT)
  pub format_in : (time : ℕ) (tz : String) → Option String
  -- dayjs.tz(text, tz).utc().toDate()
  pub parse_in : (date_str tz : String) → Option ℕ

abbrev pub as_text : Option String → Option Payload
as_text none = none
as_text (some t) = some (text t)

abbrev pub as_array : Option Items → Option Payload
as_array none = none
as_array (some items) = some (array items)

abbrev pub as_object : Option Entries → Option Payload
as_object none = none
as_object (some entries) = some (object entries)

abbrev pub item_of : Option Payload → Option Items → Option Items
item_of none items = none
item_of (some p) none = none
item_of (some p) (some items) = some (item p items)

abbrev pub entry_of : String → Option Payload → Option Entries → Option Entries
entry_of k none entries = none
entry_of k (some p) none = none
entry_of k (some p) (some entries) = some (entry k p entries)

module _ (dayjs : Dayjs) where
  unfoldable pub convert_to_timezone : ℕ → String → Option String
  convert_to_timezone t tz = dayjs.format_in t tz

  unfoldable pub convert_to_utc : String → String → Option ℕ
  convert_to_utc date_str tz = dayjs.parse_in date_str tz

  -- none: a date could not be formatted.
  unfoldable mutual
    pub transform_dates : Payload → String → Option Payload
    transform_dates (date t) tz = as_text (convert_to_timezone t tz)
    transform_dates (array items) tz = as_array (transform_items items tz)
    transform_dates (object entries) tz = as_object (transform_entries entries tz)
    transform_dates null tz = some null
    transform_dates undefined tz = some undefined
    transform_dates (boolean b) tz = some (boolean b)
    transform_dates (number n) tz = some (number n)
    transform_dates (text s) tz = some (text s)

    pub transform_items : Items → String → Option Items
    transform_items no_items tz = some no_items
    transform_items (item p items) tz = item_of (transform_dates p tz) (transform_items items tz)

    pub transform_entries : Entries → String → Option Entries
    transform_entries no_entries tz = some no_entries
    transform_entries (entry k p entries) tz =
        entry_of k (transform_dates p tz) (transform_entries entries tz)

  -- `defaultTimezone`
  unfoldable pub default_timezone : Option String → String
  default_timezone none = "Asia/Seoul"
  default_timezone (some tz) = if tz == "" then "Asia/Seoul" else tz

  unfoldable pub format_date : Option String → ℕ → Option String → Option String
  format_date configured t none = dayjs.format_in t (default_timezone configured)
  format_date configured t (some tz) =
      dayjs.format_in t (if tz == "" then default_timezone configured else tz)

  -- `header` is the header X-Timezone.
  unfoldable pub resolve_timezone : (configured header : Option String) → String
  resolve_timezone configured none = default_timezone configured
  resolve_timezone configured (some tz) = if tz == "" then default_timezone configured else tz

  unfoldable pub intercept : (configured header : Option String) → Payload → Option Payload
  intercept configured header null = some null
  intercept configured header undefined = some undefined
  intercept configured header body = transform_dates body (resolve_timezone configured header)
