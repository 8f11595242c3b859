-- ===== src/Http/Timezone/Dates.antt =====
-- What is left of the dates of a response.
use nestjs_vibe_engine.Prelude.{
  String, ◌≡◌, refl, subst, ap, Bool, true, false, ◌&&◌, Option, none, some, arith, and-intro,
  and-left, and-right,
}
use nestjs_vibe_engine.Http.Timezone.{
  Payload, null, undefined, boolean, number, text, date, array, object, Items, no_items, item,
  Entries, no_entries, entry, Dayjs, as_text, as_array, as_object, item_of, entry_of,
  convert_to_timezone, transform_dates, transform_items, transform_entries,
}

unfoldable mutual
  pub no_dates : Payload → Bool
  no_dates (date t) = false
  no_dates (array items) = no_dates_items items
  no_dates (object entries) = no_dates_entries entries
  no_dates null = true
  no_dates undefined = true
  no_dates (boolean b) = true
  no_dates (number n) = true
  no_dates (text s) = true

  pub no_dates_items : Items → Bool
  no_dates_items no_items = true
  no_dates_items (item p items) = no_dates p && no_dates_items items

  pub no_dates_entries : Entries → Bool
  no_dates_entries no_entries = true
  no_dates_entries (entry k p entries) = no_dates p && no_dates_entries entries

abbrev free : Option Payload → Bool
free none = true
free (some p) = no_dates p

abbrev free_items : Option Items → Bool
free_items none = true
free_items (some items) = no_dates_items items

abbrev free_entries : Option Entries → Bool
free_entries none = true
free_entries (some entries) = no_dates_entries entries

free-as_text : (o : Option String) → free (as_text o) ≡ true
unfolding no_dates
free-as_text none = refl
free-as_text (some t) = refl

free-as_array : (o : Option Items) → free_items o ≡ true → free (as_array o) ≡ true
unfolding no_dates
free-as_array none h = refl
free-as_array (some items) h = h

free-as_object : (o : Option Entries) → free_entries o ≡ true → free (as_object o) ≡ true
unfolding no_dates
free-as_object none h = refl
free-as_object (some members) h = h

free-item_of :
    (o : Option Payload) (os : Option Items)
    → free o ≡ true
    → free_items os ≡ true
    → free_items (item_of o os) ≡ true
unfolding no_dates
free-item_of none os h k = refl
free-item_of (some p) none h k = refl
free-item_of (some p) (some items) h k = and-intro (no_dates p) (no_dates_items items) h k

free-entry_of :
    (name : String) (o : Option Payload) (os : Option Entries)
    → free o ≡ true
    → free_entries os ≡ true
    → free_entries (entry_of name o os) ≡ true
unfolding no_dates
free-entry_of name none os h k = refl
free-entry_of name (some p) none h k = refl
free-entry_of name (some p) (some entries) h k =
    and-intro (no_dates p) (no_dates_entries entries) h k

module _ (dayjs : Dayjs) where
  mutual
    unfolding transform_dates no_dates

    free-transform_dates : (p : Payload) (tz : String) → free (transform_dates dayjs p tz) ≡ true
    free-transform_dates (date t) tz = free-as_text (convert_to_timezone dayjs t tz)
    free-transform_dates (array items) tz =
        free-as_array (transform_items dayjs items tz) (free-transform_items items tz)
    free-transform_dates (object entries) tz =
        free-as_object (transform_entries dayjs entries tz) (free-transform_entries entries tz)
    free-transform_dates null tz = refl
    free-transform_dates undefined tz = refl
    free-transform_dates (boolean b) tz = refl
    free-transform_dates (number n) tz = refl
    free-transform_dates (text s) tz = refl

    free-transform_items :
        (items : Items) (tz : String) → free_items (transform_items dayjs items tz) ≡ true
    free-transform_items no_items tz = refl
    free-transform_items (item p items) tz =
        free-item_of (transform_dates dayjs p tz) (transform_items dayjs items tz)
          (free-transform_dates p tz) (free-transform_items items tz)

    free-transform_entries :
        (entries : Entries) (tz : String) → free_entries (transform_entries dayjs entries tz) ≡ true
    free-transform_entries no_entries tz = refl
    free-transform_entries (entry k p entries) tz =
        free-entry_of k (transform_dates dayjs p tz) (transform_entries dayjs entries tz)
          (free-transform_dates p tz) (free-transform_entries entries tz)

  mutual
    unfolding transform_dates no_dates

    transform_dates-free :
        (p : Payload) (tz : String) → no_dates p ≡ true → transform_dates dayjs p tz ≡ some p
    transform_dates-free (date t) tz h = absurd (ground (arith, h))
    transform_dates-free (array items) tz h = ap as_array (transform_items-free items tz h)
    transform_dates-free (object entries) tz h = ap as_object (transform_entries-free entries tz h)
    transform_dates-free null tz h = refl
    transform_dates-free undefined tz h = refl
    transform_dates-free (boolean b) tz h = refl
    transform_dates-free (number n) tz h = refl
    transform_dates-free (text s) tz h = refl

    transform_items-free :
        (items : Items) (tz : String)
        → no_dates_items items ≡ true
        → transform_items dayjs items tz ≡ some items
    transform_items-free no_items tz h = refl
    transform_items-free (item p items) tz h =
        rw (transform_dates-free p tz (and-left (no_dates p) (no_dates_items items) h)) (
          rw (transform_items-free items tz (and-right (no_dates p) (no_dates_items items) h)) refl)

    transform_entries-free :
        (entries : Entries) (tz : String)
        → no_dates_entries entries ≡ true
        → transform_entries dayjs entries tz ≡ some entries
    transform_entries-free no_entries tz h = refl
    transform_entries-free (entry k p entries) tz h =
        rw (transform_dates-free p tz (and-left (no_dates p) (no_dates_entries entries) h)) (
          rw
            (transform_entries-free entries tz
              (and-right (no_dates p) (no_dates_entries entries) h))
            refl)

  -- A response that is answered has no dates left, so that transforming it again, for any time zone,
  -- gives it as it is.
  pub transform_dates-no_dates :
      (p q : Payload) (tz tz' : String)
      → transform_dates dayjs p tz ≡ some q
      → (no_dates q ≡ true) × (transform_dates dayjs q tz' ≡ some q)
  transform_dates-no_dates p q tz tz' e =
      let clear : no_dates q ≡ true = subst (λ o. free o ≡ true) e (free-transform_dates p tz) in
      (clear, transform_dates-free q tz' clear)
