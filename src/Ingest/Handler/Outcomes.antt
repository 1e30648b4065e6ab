-- ===== src/Ingest/Handler/Outcomes.antt =====
-- What the handler does with an event, one that it fails on included.
use mathlib.Core.List.{append-nil, map-append}
use insider_threat_detection.Common.{
  String, ◌≡◌, refl, sym, ap, ◌∙◌, inl, inr, false, Option, none, some, List, [], ◌∷◌, ◌++◌, map,
  arith, ◌||◌, is_empty, Bool-cases, length, select,
}
use insider_threat_detection.Json.{Json, fields_of, obj}
use insider_threat_detection.Event.{Event, to_json}
use insider_threat_detection.Database.{Env, EventRow}
use insider_threat_detection.Database.Events.{event_row, insert_event}
use insider_threat_detection.Database.Audit.{append_audit_record}
use insider_threat_detection.Database.Audit.Linked.{IsFresh, IsSound, append_audit_record-IsSound}
use insider_threat_detection.Database.Baselines.{update_device_baseline}
use insider_threat_detection.AlertManager.Dedup.{IsSpaced}
use insider_threat_detection.Schema.{DeviceEvent, model_dump}
use insider_threat_detection.Ingest.{Setup, State, process_event}
use insider_threat_detection.Ingest.Guarantees.{
  process_event-events, process_event-IsSound, process_event-IsSpaced, same_chain-IsSound,
  insert_event-audit_chain,
}
use insider_threat_detection.Ingest.Handler.{Driver, event_of, handle_event}
use insider_threat_detection.Ingest.Handler.Stages.{
  fits, unstored, unalerted, by_user, handle_event-fits, handle_event_oversized,
}

-- The JSON of the stored events, oldest first.
abbrev pub stored_json : State → List Json
stored_json st = map (λ r. to_json r.raw_json) st.server.db.events

-- The JSON of an event as validated.
abbrev pub dumped : DeviceEvent → Json
dumped e = obj (fields_of (model_dump e))

module _ (d : Driver) (u : Setup) (env : Env) where
  -- What the handler of one event keeps, on each of its branches.
  pub record IsKept (before after : State) (added : List Json) : Type 0 where
    pub events : stored_json after ≡ stored_json before ++ added
    pub chains : IsFresh env → IsSound u.hasher before.server.db → IsSound u.hasher after.server.db
    pub alerts :
        IsSpaced u.dedup_window_secs before.server.db.alerts
        → IsSpaced u.dedup_window_secs after.server.db.alerts

  to_json-event_of : (user : String) (e : DeviceEvent) → to_json (event_of d user e) ≡ dumped e
  unfolding to_json model_dump
  to_json-event_of user e = refl

  unstored-IsKept : (e : Event) (st : State) → IsKept st (unstored u env e st) []
  unfolding unstored
  unstored-IsKept e st = record {
    events = sym (append-nil (stored_json st));
    chains = λ fresh s. s;
    alerts = λ s. s;
  }

  pub unalerted-events :
      (e : Event) (st : State)
      → (unalerted u env e st).server.db.events
        ≡ st.server.db.events ++ event_row env e st.server.db ∷ []
  unfolding unalerted update_device_baseline append_audit_record insert_event
  unalerted-events e st = ground arith

  pub unalerted-alerts :
      (e : Event) (st : State) → (unalerted u env e st).server.db.alerts ≡ st.server.db.alerts
  unfolding unalerted update_device_baseline append_audit_record insert_event
  unalerted-alerts e st = ground arith

  stored_row :
      (user : String) (e : DeviceEvent) (before : State) (rows : List EventRow)
      → rows ≡ before.server.db.events ++ event_row env (event_of d user e) before.server.db ∷ []
      → map (λ r. to_json r.raw_json) rows ≡ stored_json before ++ dumped e ∷ []
  unfolding event_row
  stored_row user e before rows same =
      rw same (map-append (λ r. to_json r.raw_json) before.server.db.events _)
      ∙ ap (λ j. stored_json before ++ j ∷ []) (to_json-event_of user e)

  unalerted-audit_chain :
      (e : Event) (st : State)
      → (unalerted u env e st).server.db.audit_chain
        ≡ (append_audit_record u.hasher env e.hostname
            (to_json e)
            (insert_event env e st.server.db).1).1.audit_chain
  unfolding unalerted update_device_baseline
  unalerted-audit_chain e st = ground arith

  unalerted-chains :
      (e : Event) (st : State)
      → IsFresh env
      → IsSound u.hasher st.server.db
      → IsSound u.hasher (unalerted u env e st).server.db
  unalerted-chains e st fresh sound =
      same_chain-IsSound u.hasher
        (append_audit_record u.hasher env e.hostname (to_json e)
          (insert_event env e st.server.db).1).1
        _ (unalerted-audit_chain e st)
        (append_audit_record-IsSound u.hasher env e.hostname (to_json e) _ fresh (
          same_chain-IsSound u.hasher st.server.db _ (insert_event-audit_chain env e st.server.db)
            sound))

  unalerted-IsKept :
      (e : DeviceEvent) (st : State)
      → IsKept st (unalerted u env (event_of d "" e) st) (dumped e ∷ [])
  unalerted-IsKept e st = record {
    events = stored_row "" e st _ (unalerted-events (event_of d "" e) st);
    chains = unalerted-chains (event_of d "" e) st;
    alerts = λ s. rw unalerted-alerts s;
  }

  processed-IsKept :
      (user : String) (e : DeviceEvent) (st : State)
      → IsKept st (process_event u env (event_of d user e) st) (dumped e ∷ [])
  processed-IsKept user e st = record {
    events = stored_row user e st _ (process_event-events u env (event_of d user e) st);
    chains = process_event-IsSound u env (event_of d user e) st;
    alerts = process_event-IsSpaced u env (event_of d user e) st;
  }

  by_user-IsKept :
      (user : Option String) (e : DeviceEvent) (st : State)
      → IsKept st (by_user d u env user e st) (dumped e ∷ [])
  by_user-IsKept none e st = elim (Bool-cases (is_empty e.hostname || is_empty e.device_id)) [
    | inl unnamed ↦ rw unnamed (processed-IsKept "" e st)
    | inr named ↦ rw named (unalerted-IsKept e st)
  ]
  by_user-IsKept (some user) e st = processed-IsKept user e st

  pub handle_event-IsKept :
      (e : DeviceEvent) (st : State)
      → ((handle_event d u env e st).0 ≡ length (select (fits d) (e ∷ [])))
        × IsKept st (handle_event d u env e st).1 (map dumped (select (fits d) (e ∷ [])))
  handle_event-IsKept e st = elim (Bool-cases (fits d e)) [
    | inl ok ↦ rw (handle_event-fits d u env e st ok, ok) (refl, by_user-IsKept _ e st)
    | inr big ↦ rw (handle_event_oversized d u env e st big, big) (refl, unstored-IsKept _ st)
  ]

  -- An event whose transfer_bytes are more than an integer column takes leaves all tables as they
  -- were and is neither forwarded nor counted, whatever the rules find in it.
  pub handle_event_dropped :
      (e : DeviceEvent) (st : State)
      → fits d e ≡ false
      → let (counted, after) = handle_event d u env e st in
        (counted ≡ 0) × (after.server.db ≡ st.server.db) × (after.server.outbox ≡ st.server.outbox)
  handle_event_dropped e st big =
      rw (handle_event_oversized d u env e st big)
        (refl, (unfold unstored in refl), (unfold unstored in refl))
