-- ===== src/Setup/EnvFile/Lines.antt =====
-- Lines `KEY=value`, and a text of lines.
use Prim.Native.Char.{Char, code}
use text.Mathlib.TextLemmas.{
  cons-append, nil-append, append-ne-nil_of_right_ne-nil, cons-ne-nil, append-nil,
}
use nestjs_vibe_engine.Prelude.{
  ℕ, String, ◌≡◌, ◌≢◌, refl, sym, ap, ◌∙◌, Bool, true, false, not, ◌&&◌, ◌||◌, List, [], ◌∷◌, arith,
  leb, nat_eq, nat_eq_iff, ◌==◌, eq_iff, ne→eq-false, all,
}
use nestjs_vibe_engine.Js.Text.{◌⧺◌, is_space, trim, trim_start, trim_end, split}
use nestjs_vibe_engine.Js.Cut.{all_codes, lacks, cut_at, split-nil, split-append}
use nestjs_vibe_engine.Js.Map
use nestjs_vibe_engine.Setup.EnvFile.{
  Values, starts_with, is_quoted, unquote, parse_line, line_of, join_lines,
}

-- The characters of the environment variables' names.
abbrev pub key_code : ℕ → Bool
key_code n = (leb 65 n && leb n 90) || (leb 48 n && leb n 57) || nat_eq n 95

abbrev pub is_key : String → Bool
is_key String.[] = false
is_key (String.◌∷◌ c s) = key_code (code c) && all_codes key_code s

-- A value that a line carries: of one line, without white space around it and not in quotation
-- marks.
abbrev pub is_plain : String → Bool
is_plain v =
    all_codes (lacks "\n") v && (trim_start v == v) && (trim_end v == v) && not (is_quoted v)

key_not_space : (c : Char) → key_code (code c) ≡ true → is_space c ≡ false
unfolding is_space
key_not_space c h = ground (arith, h)

trim_end_key : (k : String) → all_codes key_code k ≡ true → trim_end k ≡ k
unfolding trim_end all_codes
trim_end_key String.[] h = refl
trim_end_key (String.◌∷◌ c s) h =
    let seen = key_not_space c (ground (arith, h)) in
    rw seen (ap (String.◌∷◌ c) (trim_end_key s (ground (arith, h))))

trim_start_key : (k : String) → is_key k ≡ true → (s : String) → trim_start (k ⧺ s) ≡ k ⧺ s
unfolding trim_start
trim_start_key String.[] h s = absurd (ground (arith, h))
trim_start_key (String.◌∷◌ c k) h s =
    let seen = key_not_space c (ground (arith, h)) in
    ap trim_start (cons-append c k s) ∙ rw (seen, trim_start) (sym (cons-append c k s))

-- What stands in front of a text that does not end in white space keeps its own.
trim_end-append : (s t : String) → t ≢ "" → trim_end t ≡ t → trim_end (s ⧺ t) ≡ s ⧺ t
unfolding trim_end
trim_end-append String.[] t more h = rw (nil-append t) h
trim_end-append (String.◌∷◌ d s) t more h =
    let kept = trim_end-append s t more h in
    let longer = ne→eq-false (s ⧺ t) "" (append-ne-nil_of_right_ne-nil s more) in
    rw (cons-append d s t) (rw (kept, trim_end) (rw longer (ground arith)))

pub all_keys : (k : String) → is_key k ≡ true → all_codes key_code k ≡ true
unfolding all_codes
all_keys String.[] h = absurd (ground (arith, h))
all_keys (String.◌∷◌ c s) h = h

pub key-lacks :
    (d : Char) (k : String)
    → key_code (code d) ≡ false
    → all_codes key_code k ≡ true
    → all_codes (lacks d) k ≡ true
unfolding all_codes
key-lacks d String.[] other h = refl
key-lacks d (String.◌∷◌ c s) other h =
    let rest = key-lacks d s other (ground (arith, h)) in
    ground (arith, h, rest, other, nat_eq_iff (code c) (code d))

trim_end_value : (v : String) → trim_end v ≡ v → trim_end ("=" ⧺ v) ≡ "=" ⧺ v
unfolding trim_end is_space
trim_end_value v h =
    let front : "=" ⧺ v ≡ String.◌∷◌ "=" v =
      cons-append "=" "" v ∙ ap (String.◌∷◌ "=") (nil-append v) in
    ap trim_end front ∙ rw (h, trim_end) (sym front)

trim-line_of : (k v : String) → is_key k ≡ true → trim_end v ≡ v → trim (line_of k v) ≡ line_of k v
unfolding trim
trim-line_of k v key h =
    let more : "=" ⧺ v ≢ "" = λ e.
      cons-ne-nil "=" v (sym (cons-append "=" "" v ∙ ap (String.◌∷◌ "=") (nil-append v)) ∙ e) in
    ap trim_start (trim_end-append k ("=" ⧺ v) more (trim_end_value v h))
    ∙ trim_start_key k key ("=" ⧺ v)

trim_key : (k : String) → is_key k ≡ true → trim k ≡ k
unfolding trim
trim_key k key =
    ap trim_start (trim_end_key k (all_keys k key) ∙ sym (append-nil k))
    ∙ trim_start_key k key ""
    ∙ append-nil k

line_not_empty : (k v : String) → is_key k ≡ true → (line_of k v == "") ≡ false
line_not_empty String.[] v key = absurd (ground (arith, key))
line_not_empty (String.◌∷◌ c k) v key =
    ne→eq-false _ "" (λ e. cons-ne-nil c (k ⧺ ("=" ⧺ v)) (sym (cons-append c k ("=" ⧺ v)) ∙ e))

line_no_comment : (k v : String) → is_key k ≡ true → starts_with "#" (line_of k v) ≡ false
line_no_comment String.[] v key = absurd (ground (arith, key))
line_no_comment (String.◌∷◌ c k) v key =
    ap (starts_with "#") (cons-append c k ("=" ⧺ v)) ∙ ground (arith, key)

unquote-trim : (v : String) → is_plain v ≡ true → unquote (trim v) ≡ v
unfolding unquote trim
unquote-trim v plain =
    let ends : trim_end v ≡ v = (eq_iff (trim_end v) v).0 (ground (arith, plain)) in
    let starts : trim_start v ≡ v = (eq_iff (trim_start v) v).0 (ground (arith, plain)) in
    let bare : is_quoted v ≡ false = ground (arith, plain) in rw ends (rw starts (rw bare refl))

-- A line `KEY=value` is read back.
pub parse_line-line_of :
    (k v : String) (result : Values)
    → is_key k ≡ true
    → is_plain v ≡ true
    → parse_line (trim (line_of k v)) result ≡ Map.set result k v
unfolding parse_line
parse_line-line_of k v result key plain =
    let ends : trim_end v ≡ v = (eq_iff (trim_end v) v).0 (ground (arith, plain)) in
    rw (trim-line_of k v key ends, parse_line)
      (rw (line_not_empty k v key) (
        rw (line_no_comment k v key) (
          rw (cut_at "=" k v (key-lacks "=" k refl (all_keys k key)))
            (rw (trim_key k key) (ap (Map.set result k) (unquote-trim v plain))))))

pub split-join_lines :
    (line : String) (lines : List String)
    → all (all_codes (lacks "\n")) (line ∷ lines) ≡ true
    → split "\n" (join_lines (line ∷ lines)) ≡ line ∷ lines
unfolding join_lines
split-join_lines line [] h = split-nil "\n" line (ground (arith, h))
split-join_lines line (next ∷ lines) h =
    split-append "\n" line (join_lines (next ∷ lines)) (ground (arith, h))
    ∙ ap (λ ls. line ∷ ls) (split-join_lines next lines (ground (arith, h)))
