-- ===== src/Js/Text.antt =====
-- Texts: `codes` walks the characters, and `key` is the template literal `${prefix}:${id}`.
use Prim.Native.Char.{Char, code}
use Prim.Native.String.{◌++◌}
use text.Mathlib.TextLemmas.{append_cancel_left, cons-append, head-eq_of_cons-eq}
use nestjs_vibe_engine.Prelude.{
  ℕ, String, ◌≡◌, ◌≢◌, sym, ap, ◌∙◌, List, [], ◌∷◌, arith, ◌==◌, eq_iff, Bool, ◌&&◌, ◌||◌, Option,
  none, some, leb, nat_eq, if◌then◌else◌,
}

abbrev pub codes : String → List ℕ
codes String.[] = []
codes (String.◌∷◌ c s) = code c ∷ codes s

infixr 65 ◌⧺◌
abbrev pub ◌⧺◌ : String → String → String
s ⧺ t = s ++ t

unfoldable pub key : String → String → String
key prefix id = prefix ⧺ (":" ⧺ id)

pub key-injective : (p a b : String) → key p a ≡ key p b → a ≡ b
unfolding key
key-injective p a b h = append_cancel_left ":" a b (append_cancel_left p (":" ⧺ a) (":" ⧺ b) h)

pub key_eq : (p a b : String) → (key p a == key p b) ≡ (a == b)
key_eq p a b = ground (arith, eq_iff a b, eq_iff (key p a) (key p b), key-injective p a b)

-- Keys whose prefixes begin with different characters differ.
pub key-ne_of_head :
    (c d : Char) (p q a b : String)
    → code c ≢ code d
    → key (String.◌∷◌ c p) a ≢ key (String.◌∷◌ d q) b
unfolding key
key-ne_of_head c d p q a b differ e =
    differ (
      ap code
        (head-eq_of_cons-eq (sym (cons-append c p (":" ⧺ a)) ∙ e ∙ cons-append d q (":" ⧺ b))))

-- The white space that `trim` removes.
unfoldable pub is_space : Char → Bool
is_space c =
    let n = code c in
    (leb 9 n && leb n 13)
    || nat_eq n 32
    || nat_eq n 160
    || nat_eq n 5760
    || (leb 8192 n && leb n 8202)
    || nat_eq n 8232
    || nat_eq n 8233
    || nat_eq n 8239
    || nat_eq n 8287
    || nat_eq n 12288
    || nat_eq n 65279

unfoldable pub trim_start : String → String
trim_start String.[] = ""
trim_start (String.◌∷◌ c s) = let rest = trim_start s in if is_space c then rest else String.◌∷◌ c s

unfoldable pub trim_end : String → String
trim_end String.[] = ""
trim_end (String.◌∷◌ c s) =
    let rest = trim_end s in if is_space c && rest == "" then "" else String.◌∷◌ c rest

unfoldable pub trim : String → String
trim s = trim_start (trim_end s)

-- The text behind a prefix; none if it does not start with the prefix.
unfoldable pub strip_prefix : String → String → Option String
strip_prefix String.[] s = some s
strip_prefix (String.◌∷◌ c p) String.[] = none
strip_prefix (String.◌∷◌ c p) (String.◌∷◌ d s) =
    let rest = strip_prefix p s in if nat_eq (code c) (code d) then rest else none

-- s.split(c)[0]
unfoldable pub before : Char → String → String
before c String.[] = ""
before c (String.◌∷◌ d s) =
    let rest = before c s in if nat_eq (code c) (code d) then "" else String.◌∷◌ d rest

-- s.split(c)
abbrev pub push_char : Char → List String → List String
push_char c [] = []
push_char c (t ∷ ts) = String.◌∷◌ c t ∷ ts

unfoldable pub split : Char → String → List String
split c String.[] = "" ∷ []
split c (String.◌∷◌ d s) =
    let rest = split c s in if nat_eq (code c) (code d) then "" ∷ rest else push_char d rest
