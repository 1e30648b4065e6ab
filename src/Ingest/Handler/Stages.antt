-- ===== src/Ingest/Handler/Stages.antt =====
-- What the statements of the loop's body come to, on an event that is stored, one that is stored and
-- raises later, and one that is not stored.
use mathlib.Core.List.{append_assoc}
use insider_threat_detection.Common.{
  value_or, String, ◌≡◌, refl, ◌∙◌, ◌||◌, inl, inr, Bool, true, false, not, Option, none, some,
  List, [], ◌∷◌, ◌++◌, arith, ltb, if◌then◌else◌, is_empty, Bool-cases,
}
use insider_threat_detection.Json.{get}
use insider_threat_detection.Event.{Event, Alert, to_json}
use insider_threat_detection.Database.{Env}
use insider_threat_detection.Database.Events.{insert_event}
use insider_threat_detection.Database.Audit.{append_audit_record}
use insider_threat_detection.Database.Baselines.{update_device_baseline}
use insider_threat_detection.Rules.{evaluate}
use insider_threat_detection.Metrics.{inc_events_ingested}
use insider_threat_detection.AlertManager.{splunk_event, es_event}
use insider_threat_detection.Schema.{DeviceEvent}
use insider_threat_detection.Ingest.{
  Setup, State, context, feed_after, count_rules, store_event, update_baselines, process_event,
}
use insider_threat_detection.Ingest.Handler.{
  Driver, user_of, event_of, after_store, statements, run_statements, evaluated, handle_event,
}

-- The event's transfer_bytes fit into an integer column.
abbrev pub fits : Driver → DeviceEvent → Bool
fits d e = not (ltb d.max_integer e.transfer_bytes)

not-true : (b : Bool) → not b ≡ true → b ≡ false
not-true b e = ground (arith, e)

not-false : (b : Bool) → not b ≡ false → b ≡ true
not-false b e = ground (arith, e)

module _ (u : Setup) (env : Env) where
  -- `insert_event` raises: the rules have run, and nothing else has happened.
  unfoldable pub unstored : Event → State → State
  unstored event st = record st {
    server = record st.server {
      metrics =
          count_rules u env (evaluate (context u env st) env event st.server.db) st.server.metrics;
    };
    feed = feed_after u env event st.feed;
  }

  -- `update_user_baseline` raises: what comes before it has been done, and the alerts are lost.
  -- The rule on users drops the same exception, and so finds nothing, as for a user "".
  unfoldable pub unalerted : Event → State → State
  unalerted event st = record st {
    server = record {
      db =
          update_device_baseline env event.hostname event.device_id
            (append_audit_record u.hasher env event.hostname (to_json event)
              (insert_event env event st.server.db).1).1;
      metrics = inc_events_ingested (
          count_rules u env (evaluate (context u env st) env event st.server.db) st.server.metrics);
      outbox = st.server.outbox ++ splunk_event event ∷ es_event event ∷ [];
    };
    feed = feed_after u env event st.feed;
  }

module _ (d : Driver) (u : Setup) (env : Env) where
  -- What an event leaves that is stored.
  abbrev pub by_user : Option String → DeviceEvent → State → State
  by_user none e st =
      if is_empty e.hostname || is_empty e.device_id
      then process_event u env (event_of d "" e) st
      else unalerted u env (event_of d "" e) st
  by_user (some user) e st = process_event u env (event_of d user e) st

  -- The state once the event is stored.
  abbrev inserted : Event → State → State
  inserted event st = record st {
    server = record st.server {
      db = (insert_event env event st.server.db).1;
      metrics = inc_events_ingested st.server.metrics;
    };
  }

  run_statements-fits :
      (e : DeviceEvent) (user : Option String) (event : Event) (alerts : List Alert) (st : State)
      → fits d e ≡ true
      → run_statements d u env (statements d u env e user event alerts) (0, st)
        ≡ run_statements d u env (after_store d u env user event alerts) (1, inserted event st)
  unfolding statements
  run_statements-fits e user event alerts st ok = rw (run_statements, not-true _ ok) refl

  run_statements_oversized :
      (e : DeviceEvent) (user : Option String) (event : Event) (alerts : List Alert) (st : State)
      → fits d e ≡ false
      → run_statements d u env (statements d u env e user event alerts) (0, st) ≡ (0, st)
  unfolding statements
  run_statements_oversized e user event alerts st big = rw (run_statements, not-false _ big) refl

  -- All statements of an event with a user that can be kept are those of `process_event`.
  completed :
      (user : String) (e : DeviceEvent) (st : State)
      → fits d e ≡ true
      → let event = event_of d user e in
        let alerts = evaluate (context u env st) env event st.server.db in
        run_statements d u env
          (statements d u env e (some user) event alerts)
          (0, evaluated d u env event alerts st)
        ≡ (1, process_event u env event st)
  unfolding statements process_event store_event update_baselines
  completed user e st ok =
      run_statements-fits e (some user) (event_of d user e) _ _ ok
      ∙ elim (Bool-cases (is_empty e.hostname || is_empty e.device_id)) [
        | inl unnamed ↦ rw (append_assoc, unnamed) refl
        | inr named ↦ rw (append_assoc, named) refl
      ]

  -- Without such a user the statements end at the one that raises, where it is reached.
  cut_short :
      (e : DeviceEvent) (st : State)
      → fits d e ≡ true
      → let event = event_of d "" e in
        let alerts = evaluate (context u env st) env event st.server.db in
        run_statements d u env
          (statements d u env e none event alerts)
          (0, evaluated d u env event alerts st)
        ≡ (1, by_user none e st)
  unfolding statements process_event store_event update_baselines unalerted
  cut_short e st ok =
      run_statements-fits e none (event_of d "" e) _ _ ok
      ∙ elim (Bool-cases (is_empty e.hostname || is_empty e.device_id)) [
        | inl unnamed ↦ rw (run_statements, unnamed, append_assoc, unnamed) refl
        | inr named ↦ rw (run_statements, named, append_assoc, named) refl
      ]

  pub handle_event-fits :
      (e : DeviceEvent) (st : State)
      → fits d e ≡ true
      → handle_event d u env e st ≡ (1, by_user (user_of d (get "user" e.extra)) e st)
  unfolding handle_event
  handle_event-fits e st ok = go (user_of d (get "user" e.extra))
    where
      go :
          (user : Option String)
          → let event = event_of d (value_or "" user) e in
            let alerts = evaluate (context u env st) env event st.server.db in
            run_statements d u env
              (statements d u env e user event alerts)
              (0, evaluated d u env event alerts st)
            ≡ (1, by_user user e st)
      go none = cut_short e st ok
      go (some user) = completed user e st ok

  pub handle_event_oversized :
      (e : DeviceEvent) (st : State)
      → fits d e ≡ false
      → handle_event d u env e st
        ≡ (0, unstored u env (event_of d (value_or "" (user_of d (get "user" e.extra))) e) st)
  unfolding handle_event statements unstored
  handle_event_oversized e st big = run_statements_oversized e _ _ _ _ big
