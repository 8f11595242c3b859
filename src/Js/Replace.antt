-- ===== src/Js/Replace.antt =====
-- JavaScript's `s.replace(pattern, replacement)` for texts: the first place only, and what `$` means in
-- a replacement when there are no groups.
use Prim.Native.Char.{Char, code}
use nestjs_vibe_engine.Prelude.{
  ℕ, String, ◌≡◌, refl, ap, true, false, Option, none, some, nat_eq, if◌then◌else◌, arith,
}
use nestjs_vibe_engine.Js.Text.{◌⧺◌, strip_prefix}
use nestjs_vibe_engine.Js.Cut.{all_codes, lacks}

abbrev in_front : Char → Option (String × String) → Option (String × String)
in_front c none = none
in_front c (some (s, t)) = some (String.◌∷◌ c s, t)

-- The texts around a match at the beginning, else around a later one.
abbrev first_of : Option String → Option (String × String) → Option (String × String)
first_of none later = later
first_of (some rest) later = some ("", rest)

-- What is in front of the first place of a pattern, and what is behind it.
unfoldable pub around : String → String → Option (String × String)
around pattern_text String.[] = first_of (strip_prefix pattern_text "") none
around pattern_text (String.◌∷◌ c s) =
    first_of (strip_prefix pattern_text (String.◌∷◌ c s)) (in_front c (around pattern_text s))

-- What `$` and a character stand for; none where the two stand for themselves.
abbrev sign : String → String → String → ℕ → Option String
sign matched front behind n =
    if nat_eq n (code "$")
    then some "$"
    else if nat_eq n (code "&")
    then some matched
    else if nat_eq n (code "`")
    then some front
    else if nat_eq n (code "'")
    then some behind
    else none

abbrev signed : Char → Option String → String → String → String
signed c none expanded_next expanded_rest = String.◌∷◌ c expanded_next
signed c (some t) expanded_next expanded_rest = t ⧺ expanded_rest

-- A replacement with its signs put in.
unfoldable pub expand : String → String → String → String → String
expand matched front behind String.[] = ""
expand matched front behind (String.◌∷◌ c String.[]) = String.◌∷◌ c ""
expand matched front behind (String.◌∷◌ c (String.◌∷◌ d r)) =
    let next = expand matched front behind (String.◌∷◌ d r) in
    let rest = expand matched front behind r in
    if nat_eq (code c) (code "$")
    then signed c (sign matched front behind (code d)) next rest
    else String.◌∷◌ c next

abbrev put_between : String → String → String → Option (String × String) → String
put_between s pattern_text replacement none = s
put_between s pattern_text replacement (some (front, behind)) =
    front ⧺ (expand pattern_text front behind replacement ⧺ behind)

unfoldable pub replace : String → String → String → String
replace s pattern_text replacement = put_between s pattern_text replacement (around pattern_text s)

-- A replacement without `$` is put in as it is.
pub expand-plain :
    (matched front behind t : String)
    → all_codes (lacks "$") t ≡ true
    → expand matched front behind t ≡ t
unfolding expand all_codes
expand-plain matched front behind String.[] h = refl
expand-plain matched front behind (String.◌∷◌ c String.[]) h = refl
expand-plain matched front behind (String.◌∷◌ c (String.◌∷◌ d r)) h =
    let other : nat_eq (code c) (code "$") ≡ false = ground (arith, h) in
    rw other
      (ap (String.◌∷◌ c) (expand-plain matched front behind (String.◌∷◌ d r) (ground (arith, h))))
