-- ===== src/Setup/Page/Script/Steps.antt =====
-- What the parts of POST /setup in src/setup/setup.server.ts leave on the page of `client`.
use nestjs_vibe_engine.Prelude.{
  ℕ, String, ◌≡◌, sym, ap, subst, false, List, [], ◌∷◌, inl, inr, ◌==◌,
}
use nestjs_vibe_engine.Exec.{Exec, Result, ok, err, Result-cases, ◌>>=◌}
use nestjs_vibe_engine.Setup.Server.{Wizard, Answer, Event, on_env, broadcast_sse, respond}
use nestjs_vibe_engine.Setup.Page.Script.{SetupPage, is_ok_status}
use nestjs_vibe_engine.Setup.Page.Script.Progress.{
  shown, shown-broadcast, Waiting, Over, on_message-quiet, on_message-error,
}

-- The state behind an event.
abbrev pub told : {E : Type 0} → (step status message : String) → Wizard E → Wizard E
told step status message w = (broadcast_sse step status message w).1

module _ {E : Type 0} (client : ℕ) (start : SetupPage) (earlier : List Answer) where
  -- In the middle of the body: the page waits, and there is no answer yet.
  abbrev pub Ready : Wizard E → Type 0
  Ready w = (w.sse_clients ≡ client ∷ []) × (w.answers ≡ earlier) × Waiting (shown client start w)

  -- Answered, and the page has closed the stream.
  abbrev pub Ended : Wizard E → Type 0
  Ended w =
      (a : Answer) × (w.answers ≡ a ∷ earlier)
      × (is_ok_status a.status ≡ a.success)
      × Over a.success (shown client start w)

  abbrev pub Settled : Result (Unit {0}) × Wizard E → Type 0
  Settled (ok done, w) = Ended w
  Settled (err e, w) = Ready w

  pub quiet :
      (step status message : String) (w : Wizard E)
      → (status == "complete") ≡ false
      → (status == "error") ≡ false
      → Ready w
      → Ready (told step status message w)
  unfolding broadcast_sse
  quiet step status message w c e (clients, answers, waiting) =
      let event : Event = record { step = step; status = status; message = message } in
      (
        clients,
        answers,
        subst Waiting (sym (shown-broadcast client start step status message w clients))
            (on_message-quiet event (shown client start w) c e waiting),
      )

  pub failed :
      (step message text : String) (status : ℕ) (w : Wizard E)
      → is_ok_status status ≡ false
      → Ready w
      → Ended (respond status false text (broadcast_sse step "error" message w).1).1
  unfolding broadcast_sse respond
  failed step message text status w fits (clients, answers, waiting) =
      let a : Answer = record { status = status; success = false; message = text } in
      (
        a,
        ap (λ (l : List Answer). a ∷ l) answers,
        fits,
        subst (Over false) (sym (shown-broadcast client start step "error" message w clients))
            (on_message-error step message (shown client start w) waiting),
      )

  module _ {A : Type 0} where
    pub after_env :
        (m : Exec E A) (f : A → Exec (Wizard E) (Unit {0})) (w : Wizard E)
        → Ready w
        → ((a : A) (v : Wizard E) → Ready v → Settled (f a v))
        → Settled ((on_env m >>= f) w)
    after_env m f w ready settled = elim (Result-cases (m w.env).0) [
      | inl (a, e) ↦ rw e (settled a (record w { env = (m w.env).1 }) ready)
      | inr (x, e) ↦ rw e ready
    ]
