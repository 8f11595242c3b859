-- ===== src/Setup/Page/Escaped.antt =====
-- What an escaped text cannot contain.
use Prim.Native.Char.{Char, code}
use nestjs_vibe_engine.Prelude.{
  ℕ, String, ◌≡◌, refl, Bool, true, Bool-cases, inl, inr, nat_eq, and-intro, and-left, and-right,
}
use nestjs_vibe_engine.Js.Cut.{all_codes, lacks, all_codes-append}
use nestjs_vibe_engine.Setup.Page.{replace_all, escape_html}

-- A replacement without the character leaves none of it.
replace_all-lacks :
    (c : Char) (replacement s : String)
    → all_codes (lacks c) replacement ≡ true
    → all_codes (lacks c) (replace_all c replacement s) ≡ true
unfolding replace_all all_codes
replace_all-lacks c replacement String.[] h = refl
replace_all-lacks c replacement (String.◌∷◌ d s) h =
    let rest = replace_all-lacks c replacement s h in
    elim (Bool-cases (nat_eq (code d) (code c))) [
      | inl e ↦ rw e (all_codes-append (lacks c) replacement (replace_all c replacement s) h rest)
      | inr e ↦ rw e (rw e rest)
    ]

replace_all-keeps :
    (p : ℕ → Bool) (c : Char) (replacement s : String)
    → all_codes p replacement ≡ true
    → all_codes p s ≡ true
    → all_codes p (replace_all c replacement s) ≡ true
unfolding replace_all all_codes
replace_all-keeps p c replacement String.[] h k = refl
replace_all-keeps p c replacement (String.◌∷◌ d s) h k =
    let rest = replace_all-keeps p c replacement s h (and-right (p (code d)) (all_codes p s) k) in
    elim (Bool-cases (nat_eq (code d) (code c))) [
      | inl e ↦ rw e (all_codes-append p replacement (replace_all c replacement s) h rest)
      | inr e ↦ rw e (
          and-intro (p (code d)) (all_codes p (replace_all c replacement s))
            (and-left (p (code d)) (all_codes p s) k) rest)
    ]

-- An escaped text contains no quotation mark and no angle bracket, whatever the text is: as the value
-- of an attribute it cannot end the attribute or the tag.
pub escape_html-safe :
    (str : String)
    → (all_codes (lacks "\"") (escape_html str) ≡ true)
      × (all_codes (lacks "<") (escape_html str) ≡ true)
      × (all_codes (lacks ">") (escape_html str) ≡ true)
unfolding escape_html all_codes
escape_html-safe str =
    let amp = replace_all "&" "&amp;" str in
    let quot = replace_all "\"" "&quot;" amp in
    let angle = replace_all "<" "&lt;" quot in
    (
      replace_all-keeps (lacks "\"") ">" "&gt;" angle refl (
          replace_all-keeps (lacks "\"") "<" "&lt;" quot refl
            (replace_all-lacks "\"" "&quot;" amp refl)),
      replace_all-keeps (lacks "<") ">" "&gt;" angle refl (replace_all-lacks "<" "&lt;" quot refl),
      replace_all-lacks ">" "&gt;" angle refl,
    )
