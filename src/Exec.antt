-- ===== src/Exec.antt =====
-- Asynchronous methods that change a state and may throw. What was changed before a throw stays
-- changed, so the state comes back beside an exception too. `await` runs the next step at once:
-- a method is modelled as it runs with no other request in between.
use nestjs_vibe_engine.Prelude.{ℕ, String, ◌≡◌, ◌≢◌, refl, sym, ap, ◌∙◌, ◌⊎◌, inl, inr}

pub data Exception : Type 0 where
  -- an HttpException of NestJS: status and message
  http : (status : ℕ) → (message : String) → Exception
  -- any other thrown value, by its message
  failure : (message : String) → Exception

pub data Result {ℓ} (A : Type ℓ) : Type ℓ where
  ok : A → Result A
  err : Exception → Result A

abbrev pub Exec : Type 0 → Type 0 → Type 0
Exec S A = S → Result A × S

pub Result-cases {ℓ} :
    {A : Type ℓ} → (r : Result A) → ((a : A) × (r ≡ ok a)) ⊎ ((x : Exception) × (r ≡ err x))
Result-cases (ok a) = inl (a, refl)
Result-cases (err x) = inr (x, refl)

err-ne-ok {ℓ} : {A : Type ℓ} (x : Exception) (a : A) → err x ≢ ok a
err-ne-ok x a h = cc

module _ {S A : Type 0} where
  abbrev pub pure : A → Exec S A
  pure a s = (ok a, s)

  abbrev pub throw : Exception → Exec S A
  throw e s = (err e, s)

  abbrev pub recover : Result A → (Exception → Exec S A) → Exec S A
  recover (ok a) handler s = (ok a, s)
  recover (err e) handler s = handler e s

  -- try { m } catch (e) { handler(e) }
  abbrev pub try_catch : Exec S A → (Exception → Exec S A) → Exec S A
  try_catch m handler s = recover (m s).0 handler (m s).1

module _ {S A B : Type 0} where
  abbrev pub continue : Result A → (A → Exec S B) → Exec S B
  continue (ok a) f s = f a s
  continue (err e) f s = (err e, s)

  infixl 10 ◌>>=◌ ◌>>◌
  abbrev pub ◌>>=◌ : Exec S A → (A → Exec S B) → Exec S B
  ◌>>=◌ m f s = continue (m s).0 f (m s).1

  abbrev pub ◌>>◌ : Exec S A → Exec S B → Exec S B
  m >> n = m >>= λ _. n

module _ {S A B : Type 0} where
  -- A computation that begins with a step whose outcome is known.
  pub run-step :
      (m : Exec S A) (f : A → Exec S B) (s s' : S) (a : A) → m s ≡ (ok a, s') → (m >>= f) s ≡ f a s'
  run-step m f s s' a e = ap (λ p. continue p.0 f p.1) e

  -- A computation that succeeds has passed its first step.
  pub >>=-eq-ok :
      (m : Exec S A) (f : A → Exec S B) (s : S) (b : B)
      → ((m >>= f) s).0 ≡ ok b
      → (a : A) × ((m s).0 ≡ ok a) × ((m >>= f) s ≡ f a (m s).1) × ((f a (m s).1).0 ≡ ok b)
  >>=-eq-ok m f s b h = elim (Result-cases (m s).0) [
    | inl (a, e) ↦
        let run : (m >>= f) s ≡ f a (m s).1 = ap (λ r. continue r f (m s).1) e in
        (a, e, run, ap (λ p. p.0) (sym run) ∙ h)
    | inr (x, e) ↦ absurd (err-ne-ok x b (ap (λ r. (continue r f (m s).1).0) (sym e) ∙ h))
  ]

-- The state of a request that works on the database and on the cache.
pub record World (D C : Type 0) : Type 0 where
  pub db : D
  pub cache : C

module _ {D C A : Type 0} where
  abbrev pub on_db : Exec D A → Exec (World D C) A
  on_db m w = ((m w.db).0, record w { db = (m w.db).1 })

  abbrev pub on_cache : Exec C A → Exec (World D C) A
  on_cache m w = ((m w.cache).0, record w { cache = (m w.cache).1 })
