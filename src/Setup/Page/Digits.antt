-- ===== src/Setup/Page/Digits.antt =====
-- The decimal digits of a number read as that number, so their fuel is enough.
use Prim.Native.Char.{code}
use Prim.Native.String.{char_at}
use text.Mathlib.TextLemmas.{cons-append, nil-append, append-nil, append_assoc}
use nestjs_vibe_engine.Prelude.{
  ℕ, zero, suc, ◌+◌, ◌-◌, ◌*◌, ◌/◌, ◌%◌, ◌<◌, String, ◌≡◌, refl, sym, ap, ◌∙◌, true, ◌&&◌, leb, ltb,
  arith, Bool-cases, inl, inr,
}
use nestjs_vibe_engine.Js.Text.{◌⧺◌}
use nestjs_vibe_engine.Setup.Mysql.{digits_from}
use nestjs_vibe_engine.Setup.Page.{digits, number_text}

digit_code : (d : ℕ) → d < 10 → code (char_at "0123456789" d) ≡ 48 + d
digit_code zero h = refl
digit_code (suc zero) h = refl
digit_code (suc (suc zero)) h = refl
digit_code (suc (suc (suc zero))) h = refl
digit_code (suc (suc (suc (suc zero)))) h = refl
digit_code (suc (suc (suc (suc (suc zero))))) h = refl
digit_code (suc (suc (suc (suc (suc (suc zero)))))) h = refl
digit_code (suc (suc (suc (suc (suc (suc (suc zero))))))) h = refl
digit_code (suc (suc (suc (suc (suc (suc (suc (suc zero)))))))) h = refl
digit_code (suc (suc (suc (suc (suc (suc (suc (suc (suc zero))))))))) h = refl
digit_code (suc (suc (suc (suc (suc (suc (suc (suc (suc (suc d)))))))))) h =
    absurd (omega (arith, h))

digits_from-digit :
    (a d : ℕ) (t : String)
    → d < 10
    → digits_from a (String.◌∷◌ (char_at "0123456789" d) "" ⧺ t) ≡ digits_from (a * 10 + d) t
unfolding digits_from
digits_from-digit a d t h =
    let e = digit_code d h in
    let is_digit : (leb 48 (48 + d) && leb (48 + d) 57) ≡ true = ground (arith, h) in
    let value : a * 10 + (48 + d - 48) ≡ a * 10 + d = omega arith in
    ap (digits_from a) (
      cons-append (char_at "0123456789" d) "" t
      ∙ ap (String.◌∷◌ (char_at "0123456789" d)) (nil-append t))
    ∙ rw (e, digits_from) (rw is_digit (ap (λ n. digits_from n t) value))

digits_from-digits :
    (fuel n : ℕ) (t : String) → n < fuel → digits_from 0 (digits fuel n ⧺ t) ≡ digits_from n t
unfolding digits
digits_from-digits zero n t h = absurd (omega (arith, h))
digits_from-digits (suc fuel) n t h = elim (Bool-cases (ltb n 10)) [
  | inl e ↦
      let small : n % 10 ≡ n = ground (arith, e) in
      rw (e, digits)
        (digits_from-digit 0 (n % 10) t (omega arith)
          ∙ ap (λ m. digits_from m t) (omega (arith, small)))
  | inr e ↦
      let last = String.◌∷◌ (char_at "0123456789" (n % 10)) "" in
      rw (e, digits)
        (ap (digits_from 0) (append_assoc (digits fuel (n / 10)) last t)
          ∙ digits_from-digits fuel (n / 10) (last ⧺ t) (ground (arith, e, h))
          ∙ digits_from-digit (n / 10) (n % 10) t (omega arith)
          ∙ ap (λ m. digits_from m t) (omega arith))
]

-- Reading the digits of a number gives the number.
digits_from-number_text : (n : ℕ) → digits_from 0 (number_text n) ≡ n
unfolding digits_from
digits_from-number_text n =
    ap (digits_from 0) (sym (append-nil (number_text n)))
    ∙ digits_from-digits (suc n) n "" (omega arith)
