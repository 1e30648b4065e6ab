-- ===== src/Ingest/Guarantees.antt =====
-- What ingestion keeps, over any batch of events.
use mathlib.Core.List.{append-nil, append_assoc, map-append}
use insider_threat_detection.Common.{
  suc, ◌+◌, String, ◌≡◌, refl, sym, ap, ◌∙◌, false, none, List, [], ◌∷◌, ◌++◌, map, arith, ◌==◌,
  eq_refl, if◌then◌else◌, length, All, any-append,
}
use insider_threat_detection.Chain.{Hasher}
use insider_threat_detection.Event.{Event, to_json}
use insider_threat_detection.Database.{Env, Db}
use insider_threat_detection.Database.Events.{
  event_row, insert_event, device_is_new, device_is_new-any,
}
use insider_threat_detection.Database.Audit.Linked.{IsFresh, IsSound, append_audit_record-IsSound}
use insider_threat_detection.Database.Scores.{get_risk_score}
use insider_threat_detection.Rules.{evaluate, rule_unknown_device}
use insider_threat_detection.AlertManager.{delta_of}
use insider_threat_detection.AlertManager.Dedup.{IsSpaced, process_alerts-IsSpaced}
use insider_threat_detection.Ingest.{
  Setup, State, context, store_event, process_event, ingest_events,
}
use insider_threat_detection.Ingest.Effects.{
  store_event-events, store_event-alerts, store_event-risk_scores, store_event-audit_chain,
  handle_alerts-events, handle_alerts-audit_chain, handle_alerts-alerts, handle_alerts-score,
}

pub same_chain-IsSound :
    (h : Hasher) (a b : Db) → b.audit_chain ≡ a.audit_chain → IsSound h a → IsSound h b
same_chain-IsSound h a b e sound = record {
  growing = rw e sound.growing;
  linked = λ host. rw e (sound.linked host);
}

pub insert_event-audit_chain :
    (env : Env) (e : Event) (db : Db) → (insert_event env e db).1.audit_chain ≡ db.audit_chain
unfolding insert_event
insert_event-audit_chain env e db = refl

module _ (u : Setup) (env : Env) (e : Event) where
  store_event-IsSound :
      (db : Db) → IsFresh env → IsSound u.hasher db → IsSound u.hasher (store_event u env e db)
  store_event-IsSound db fresh sound =
      same_chain-IsSound u.hasher _ _ (store_event-audit_chain u env e db) (
        append_audit_record-IsSound u.hasher env e.hostname (to_json e) _ fresh
          (same_chain-IsSound u.hasher _ _ (insert_event-audit_chain env e db) sound))

  store_event-score :
      (host : String) (db : Db)
      → get_risk_score host (store_event u env e db) ≡ get_risk_score host db
  unfolding get_risk_score
  store_event-score host db = rw (store_event-risk_scores u env e db)

module _ (u : Setup) (env : Env) (e : Event) (st : State) where
  pub process_event-events :
      (process_event u env e st).server.db.events
      ≡ st.server.db.events ++ event_row env e st.server.db ∷ []
  unfolding process_event
  process_event-events = handle_alerts-events u env e _ _ ∙ store_event-events u env e st.server.db

  process_event-raw_json :
      map (λ r. r.raw_json) (process_event u env e st).server.db.events
      ≡ map (λ r. r.raw_json) st.server.db.events ++ e ∷ []
  unfolding event_row
  process_event-raw_json =
      rw process_event-events (map-append (λ r. r.raw_json) st.server.db.events _)

  pub process_event-IsSound :
      IsFresh env
      → IsSound u.hasher st.server.db
      → IsSound u.hasher (process_event u env e st).server.db
  unfolding process_event
  process_event-IsSound fresh sound =
      same_chain-IsSound u.hasher _ _ (handle_alerts-audit_chain u env e _ _)
        (store_event-IsSound u env e st.server.db fresh sound)

  pub process_event-IsSpaced :
      IsSpaced u.dedup_window_secs st.server.db.alerts
      → IsSpaced u.dedup_window_secs (process_event u env e st).server.db.alerts
  unfolding process_event
  process_event-IsSpaced h =
      rw handle_alerts-alerts
        (process_alerts-IsSpaced u.dedup_window_secs env e _ _ (rw store_event-alerts h))

  -- After an event is processed its host's score is up by the weights of all alerts that it fired,
  -- repeated ones included, and every other host's score is as it was.
  pub get_risk_score-process_event :
      (host : String)
      → get_risk_score host (process_event u env e st).server.db ≡ (
          if e.hostname == host
          then get_risk_score host st.server.db
            + delta_of (evaluate (context u env st) env e st.server.db)
          else get_risk_score host st.server.db)
  unfolding process_event
  get_risk_score-process_event host =
      handle_alerts-score u env e host (evaluate (context u env st) env e st.server.db) _
      ∙ rw (store_event-score u env e host st.server.db)

  seen-process_event :
      device_is_new e.hostname e.device_id (process_event u env e st).server.db ≡ false
  unfolding event_row
  seen-process_event =
      rw (device_is_new-any, process_event-events, any-append)
        (ground (arith, eq_refl e.hostname, eq_refl e.device_id))

  -- A device that a host has just reported is not an unknown device at its next event from that host.
  pub rule_unknown_device-process_event :
      (env' : Env) (e' : Event)
      → e'.hostname ≡ e.hostname
      → e'.device_id ≡ e.device_id
      → rule_unknown_device
          (context u env' (process_event u env e st))
          env'
          e'
          (process_event u env e st).server.db
        ≡ none
  unfolding rule_unknown_device
  rule_unknown_device-process_event env' e' h d = rw (h, d, seen-process_event) (ground arith)

module _ (u : Setup) where
  -- Over any batch, the number returned is the batch's length, the table of events gets the batch's
  -- events at its end, in the batch's order, and none of its rows is lost.
  pub ingest_events-stored :
      (events : List (Env × Event)) (st : State)
      → ((ingest_events u events st).0 ≡ length events)
        × (map (λ r. r.raw_json) (ingest_events u events st).1.server.db.events
            ≡ map (λ r. r.raw_json) st.server.db.events ++ map (λ p. p.1) events)
  unfolding ingest_events
  ingest_events-stored [] st = (refl, sym (append-nil _))
  ingest_events-stored ((env, event) ∷ events) st =
      let rest = ingest_events-stored events (process_event u env event st) in
      (
        ap suc rest.0,
        rest.1
            ∙ ap (λ xs. xs ++ map (λ p. p.1) events) (process_event-raw_json u env event st)
            ∙ append_assoc _ (event ∷ []) _,
      )

  -- Over any batch, if the keys of new rows are above those of their table, the chains of all hosts
  -- that were stored linked from the genesis hash stay so.
  pub ingest_events-IsSound :
      (events : List (Env × Event)) (st : State)
      → All (λ p. IsFresh p.0) events
      → IsSound u.hasher st.server.db
      → IsSound u.hasher (ingest_events u events st).1.server.db
  unfolding ingest_events
  ingest_events-IsSound [] st a s = s
  ingest_events-IsSound ((env, event) ∷ events) st a s =
      ingest_events-IsSound events (process_event u env event st) a.1
        (process_event-IsSound u env event st a.0 s)

  -- Over any batch, if no two stored alerts for one host, device and rule were within the
  -- suppression window of each other, none are afterwards.
  pub ingest_events-IsSpaced :
      (events : List (Env × Event)) (st : State)
      → IsSpaced u.dedup_window_secs st.server.db.alerts
      → IsSpaced u.dedup_window_secs (ingest_events u events st).1.server.db.alerts
  unfolding ingest_events
  ingest_events-IsSpaced [] st s = s
  ingest_events-IsSpaced ((env, event) ∷ events) st s =
      ingest_events-IsSpaced events (process_event u env event st)
        (process_event-IsSpaced u env event st s)
