-- ===== src/Setup/Page/Script/Progress.antt =====
-- What the page of src/setup/setup.html.ts shows of the events that the server writes to it, which it
-- handles in their order.
use nestjs_vibe_engine.Prelude.{
  ℕ, String, ◌≡◌, refl, Bool, true, false, not, none, List, [], ◌∷◌, ◌++◌, is_some, if◌then◌else◌,
  ◌==◌, nat_eq, arith,
}
use nestjs_vibe_engine.Setup.Server.{Wizard, Answer, Event, broadcast_sse}
use nestjs_vibe_engine.Setup.Page.Script.{SetupPage, is_ok_status, on_message, on_answer}

-- The events of a client, in their order.
abbrev pub events_of : ℕ → List (ℕ × Event) → List Event
events_of client [] = []
events_of client ((c, event) ∷ written) =
    let rest = events_of client written in if nat_eq c client then event ∷ rest else rest

abbrev pub handle_events : List Event → SetupPage → SetupPage
handle_events [] page = page
handle_events (event ∷ events) page = handle_events events (on_message event page)

nat_eq_refl : (n : ℕ) → nat_eq n n ≡ true
nat_eq_refl n = ground arith

pub events_of-snoc :
    (client : ℕ) (event : Event) (written : List (ℕ × Event))
    → events_of client (written ++ ((client, event) ∷ []))
      ≡ events_of client written ++ (event ∷ [])
events_of-snoc client event [] = rw (nat_eq_refl client) refl
events_of-snoc client event ((c, e) ∷ written) = ground (arith, events_of-snoc client event written)

pub handle_events-snoc :
    (event : Event) (events : List Event) (page : SetupPage)
    → handle_events (events ++ (event ∷ [])) page ≡ on_message event (handle_events events page)
handle_events-snoc event [] page = refl
handle_events-snoc event (e ∷ events) page = handle_events-snoc event events (on_message e page)

module _ {E : Type 0} (client : ℕ) (start : SetupPage) where
  -- The page once it has handled what was written to it.
  abbrev pub shown : Wizard E → SetupPage
  shown w = handle_events (events_of client w.written) start

  pub shown-broadcast :
      (step status message : String) (w : Wizard E)
      → w.sse_clients ≡ client ∷ []
      → shown (broadcast_sse step status message w).1
        ≡ on_message (record { step = step; status = status; message = message }) (shown w)
  unfolding broadcast_sse
  shown-broadcast step status message w h =
      let event : Event = record { step = step; status = status; message = message } in
      rw (h, events_of-snoc client event w.written)
        (handle_events-snoc event (events_of client w.written) start)

-- The page of a submission that goes on.
abbrev pub Waiting : SetupPage → Type 0
Waiting page = (page.listening ≡ true) × (page.error ≡ none) × (page.submit_disabled ≡ true)

-- The page once the stream is closed.
abbrev pub Over : Bool → SetupPage → Type 0
Over success page =
    (page.listening ≡ false) × (is_some page.error ≡ not success) × (page.submit_disabled ≡ success)

pub on_message-quiet :
    (event : Event) (page : SetupPage)
    → (event.status == "complete") ≡ false
    → (event.status == "error") ≡ false
    → Waiting page
    → Waiting (on_message event page)
unfolding on_message
on_message-quiet event page c e (listening, error, disabled) =
    rw (listening, c, e) (refl, error, disabled)

pub on_message-error :
    (step message : String) (page : SetupPage)
    → Waiting page
    → Over false (on_message (record { step = step; status = "error"; message = message }) page)
unfolding on_message
on_message-error step message page (listening, error, disabled) = rw listening (refl, refl, refl)

pub on_message_complete :
    (step message : String) (page : SetupPage)
    → Waiting page
    → Over true (on_message (record { step = step; status = "complete"; message = message }) page)
unfolding on_message
on_message_complete step message page (listening, error, disabled) =
    rw (listening, error) (refl, refl, disabled)

pub on_answer-Over :
    (success : Bool) (a : Answer) (page : SetupPage)
    → is_ok_status a.status ≡ success
    → Over success page
    → Over success (on_answer a page)
unfolding on_answer
on_answer-Over true a page fits over = rw fits over
on_answer-Over false a page fits (listening, error, disabled) = rw fits (listening, refl, refl)
