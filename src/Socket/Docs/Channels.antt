-- ===== src/Socket/Docs/Channels.antt =====
-- What the document says of the events that the scan finds.
use nestjs_vibe_engine.Prelude.{
  String, ◌≡◌, refl, sym, ap, ◌∙◌, Option, none, some, List, [], ◌∷◌, ◌++◌, if◌then◌else◌, ◌==◌,
  arith, inl, inr, Option-cases,
}
use mathlib.Core.List.{append-nil, append_assoc}
use nestjs_vibe_engine.Js.Map
use nestjs_vibe_engine.Js.Map.{TextMap}
use nestjs_vibe_engine.Exec.{
  Result, Exception, Result-cases, ok, err, pure, recover, continue, ◌>>◌,
}
use nestjs_vibe_engine.Socket.Docs.{
  MethodMeta, EventMeta, Wrapper, WsEventMetadata, WsDocsChannelItem, metadata_of, push_event,
  scan_methods, scan_providers, scan_metadata, channel_item, add_channels, build_channels,
}

module _ {V : Type 0} where
  -- The reads of all methods, one provider after the other.
  abbrev pub all_reads : List (Wrapper V) → List (Result (MethodMeta V))
  all_reads [] = []
  all_reads (none ∷ wrappers) = all_reads wrappers
  all_reads (some reads ∷ wrappers) = reads ++ all_reads wrappers

  abbrev pub event_of : MethodMeta V → Option EventMeta → List (WsEventMetadata V)
  event_of method none = []
  event_of method (some event) = metadata_of event method ∷ []

  -- The events of the methods in front of the first one that cannot be read.
  abbrev pub readable_events : List (Result (MethodMeta V)) → List (WsEventMetadata V)
  readable_events [] = []
  readable_events (ok method ∷ reads) = event_of method method.event ++ readable_events reads
  readable_events (err e ∷ reads) = []

  abbrev all_ok : List (Result (MethodMeta V)) → Result (Unit {0})
  all_ok [] = ok tt
  all_ok (ok method ∷ reads) = all_ok reads
  all_ok (err e ∷ reads) = err e

  push_event_lem :
      (method : MethodMeta V) (event : Option EventMeta) (events : List (WsEventMetadata V))
      → push_event method event events ≡ (ok tt, events ++ event_of method event)
  push_event_lem method none events = ap (λ l. (ok tt, l)) (sym (append-nil events))
  push_event_lem method (some event) events = refl

  scan_methods_lem :
      (reads : List (Result (MethodMeta V))) (events : List (WsEventMetadata V))
      → scan_methods reads events ≡ (all_ok reads, events ++ readable_events reads)
  unfolding scan_methods
  scan_methods_lem [] events = ap (λ l. (ok tt, l)) (sym (append-nil events))
  scan_methods_lem (err e ∷ reads) events = ap (λ l. (err e, l)) (sym (append-nil events))
  scan_methods_lem (ok method ∷ reads) events =
      ap (λ r. continue r.0 (λ _. scan_methods reads) r.1)
        (push_event_lem method method.event events)
      ∙ scan_methods_lem reads (events ++ event_of method method.event)
      ∙ ap (λ l. (all_ok reads, l))
          (append_assoc events (event_of method method.event) (readable_events reads))

  scan_then :
      (reads : List (Result (MethodMeta V))) (wrappers : List (Wrapper V))
      (events : List (WsEventMetadata V))
      → (scan_methods reads >> scan_providers wrappers) events
        ≡ continue (all_ok reads) (λ _. scan_providers wrappers) (events ++ readable_events reads)
  scan_then reads wrappers events =
      ap (λ r. continue r.0 (λ _. scan_providers wrappers) r.1) (scan_methods_lem reads events)

  all_read :
      (reads more : List (Result (MethodMeta V)))
      → all_ok reads ≡ ok tt
      → (all_ok (reads ++ more) ≡ all_ok more)
        × (readable_events (reads ++ more) ≡ readable_events reads ++ readable_events more)
  all_read [] more h = (refl, refl)
  all_read (err e ∷ reads) more h = absurd (cc)
  all_read (ok method ∷ reads) more h =
      let (done, rest) = all_read reads more h in
      (
        done,
        ap (λ l. event_of method method.event ++ l) rest
            ∙ sym (
                append_assoc (event_of method method.event) (readable_events reads)
                  (readable_events more)),
      )

  some_unread :
      (reads more : List (Result (MethodMeta V))) (e : Exception)
      → all_ok reads ≡ err e
      → (all_ok (reads ++ more) ≡ err e) × (readable_events (reads ++ more) ≡ readable_events reads)
  some_unread [] more e h = absurd (cc)
  some_unread (err x ∷ reads) more e h = (h, refl)
  some_unread (ok method ∷ reads) more e h =
      let (failed, rest) = some_unread reads more e h in
      (failed, ap (λ l. event_of method method.event ++ l) rest)

  scan_providers_lem :
      (wrappers : List (Wrapper V)) (events : List (WsEventMetadata V))
      → scan_providers wrappers events
        ≡ (all_ok (all_reads wrappers), events ++ readable_events (all_reads wrappers))
  unfolding scan_providers
  scan_providers_lem [] events = ap (λ l. (ok tt, l)) (sym (append-nil events))
  scan_providers_lem (none ∷ wrappers) events = scan_providers_lem wrappers events
  scan_providers_lem (some reads ∷ wrappers) events =
      let rest = all_reads wrappers in
      scan_then reads wrappers events ∙ elim (Result-cases (all_ok reads)) [
        | inl (u, h) ↦
            let (done, both) = all_read reads rest h in
            rw h (
              scan_providers_lem wrappers (events ++ readable_events reads)
              ∙ rw (done, both)
                  (ap (λ l. (all_ok rest, l))
                    (append_assoc events (readable_events reads) (readable_events rest))))
        | inr (e, h) ↦
            let (failed, first) = some_unread reads rest e h in rw h (rw (failed, first) refl)
      ]

  -- The scan never throws. It adds the events of all documented methods in the order of the providers
  -- and of their methods, up to the first method that cannot be read.
  pub scan_metadata-events :
      (wrappers : List (Wrapper V)) (events : List (WsEventMetadata V))
      → scan_metadata (ok wrappers) events ≡ (ok tt, events ++ readable_events (all_reads wrappers))
  unfolding scan_metadata
  scan_metadata-events wrappers events =
      ap (λ r. recover r.0 (λ _. pure tt) r.1) (scan_providers_lem wrappers events)
      ∙ elim (Result-cases (all_ok (all_reads wrappers))) [
        | inl (u, h) ↦ rw h refl
        | inr (e, h) ↦ rw h refl
      ]

  -- The last event with a name.
  abbrev pub last_event : String → List (WsEventMetadata V) → Option (WsEventMetadata V)
  last_event name [] = none
  last_event name (event ∷ events) = elim (last_event name events) [
    | some later ↦ some later
    | none ↦ if event.event_name == name then some event else none
  ]

  abbrev pub item_or :
      Option (WsDocsChannelItem V) → Option (WsEventMetadata V) → Option (WsDocsChannelItem V)
  item_or before none = before
  item_or before (some event) = some (channel_item event)

  add_channels-get :
      (events : List (WsEventMetadata V)) (channels : TextMap (WsDocsChannelItem V)) (name : String)
      → Map.get (add_channels channels events) name
        ≡ item_or (Map.get channels name) (last_event name events)
  unfolding add_channels
  add_channels-get [] channels name = refl
  add_channels-get (event ∷ events) channels name =
      let later = Map.set channels event.event_name (channel_item event) in
      add_channels-get events later name ∙ elim (Option-cases (last_event name events)) [
        | inr (e, h) ↦ rw h refl
        | inl h ↦
            rw h (Map.get-set channels event.event_name name (channel_item event) ∙ ground arith)
      ]

  -- The document has a channel exactly for the names of events, and the channel of a name is that of
  -- the last event with the name: an earlier event with the same name is left out.
  pub build_channels-get :
      (events : List (WsEventMetadata V)) (name : String)
      → Map.get (build_channels events) name ≡ item_or none (last_event name events)
  unfolding build_channels Map.get
  build_channels-get events name = add_channels-get events [] name
