-- ===== src/Ingest/Handler/Counted.antt =====
-- The counters and the messages agree with the tables, over any requests.
use mathlib.Core.List.{append-nil}
use insider_threat_detection.Common.{
  ℕ, suc, ◌+◌, min, String, ◌≡◌, refl, ap, ◌∙◌, inl, inr, Option, none, some, List, [], ◌∷◌, ◌++◌,
  arith, Bool-cases, is_empty, ◌||◌, length, length-append, select-append,
}
use insider_threat_detection.Auth.{Settings, Limiter}
use insider_threat_detection.Event.{Event, Alert}
use insider_threat_detection.Database.{Env, EventRow}
use insider_threat_detection.Database.Events.{event_row}
use insider_threat_detection.Metrics.{
  Metrics, no_metrics, sum_counts, inc_rule_fire, inc_alerts_fired, inc_events_ingested,
}
use insider_threat_detection.Metrics.Render.{render_lines, active_alerts}
use insider_threat_detection.Metrics.Scrape.{value_of, open_alerts, render_lines-samples}
use insider_threat_detection.Rules.{evaluate}
use insider_threat_detection.AlertManager.{
  Server, splunk_event, es_event, process_alert, process_alerts,
}
use insider_threat_detection.AlertManager.Delivery.{
  IsTold, payloads-append, Balanced, Balanced-trans, process_alerts-Balanced,
}
use insider_threat_detection.Schema.{Reading, DeviceEvent}
use insider_threat_detection.Ingest.{
  Setup, State, context, count_rules, store_event, handle_alerts, process_event,
}
use insider_threat_detection.Ingest.Effects.{
  store_event-alerts, handle_alerts-alerts, handle_alerts-events, store_event-events,
}
use insider_threat_detection.Ingest.Handler.{Driver, event_of, handle_event, handle_events}
use insider_threat_detection.Ingest.Handler.Stages.{
  fits, unstored, unalerted, by_user, handle_event-fits, handle_event_oversized,
}
use insider_threat_detection.Ingest.Handler.Outcomes.{unalerted-events, unalerted-alerts}
use insider_threat_detection.Ingest.Handler.Requests.{Post, answer, posts, post_events-guards}

-- As many events are stored as are counted, and as many alerts as are counted and as are notified,
-- since the state `s`.
pub record Agrees (s t : Server) : Type 0 where
  pub events :
      length t.db.events + s.metrics.events_ingested
      ≡ length s.db.events + t.metrics.events_ingested
  pub alerts : Balanced s t

Agrees-refl : (s : Server) → Agrees s s
Agrees-refl s = record {
  events = refl;
  alerts = record { counted = refl; sent = refl; told = λ h. h };
}

Agrees-trans : (s t v : Server) → Agrees s t → Agrees t v → Agrees s v
Agrees-trans s t v a b = record {
  events = omega (arith, a.events, b.events);
  alerts = Balanced-trans s t v a.alerts b.alerts;
}

module _ (u : Setup) (env : Env) where
  count_rules-kept :
      (alerts : List Alert) (m : Metrics)
      → ((count_rules u env alerts m).events_ingested ≡ m.events_ingested)
        × ((count_rules u env alerts m).alerts_fired ≡ m.alerts_fired)
  unfolding inc_rule_fire
  count_rules-kept [] m = (refl, refl)
  count_rules-kept (a ∷ rest) m = count_rules-kept rest (inc_rule_fire a.rule_name m)

  module _ (e : Event) where
    process_alerts-ingested :
        (w : ℕ) (alerts : List Alert) (s : Server)
        → (process_alerts w env e alerts s).metrics.events_ingested ≡ s.metrics.events_ingested
    unfolding process_alerts process_alert inc_alerts_fired
    process_alerts-ingested w [] s = refl
    process_alerts-ingested w (a ∷ rest) s =
        process_alerts-ingested w rest (process_alert w env e a s) ∙ ground arith

    handle_alerts-Agrees :
        (alerts : List Alert) (s : Server) → Agrees s (handle_alerts u env e alerts s)
    unfolding handle_alerts
    handle_alerts-Agrees [] s = Agrees-refl s
    handle_alerts-Agrees (a ∷ rest) s =
        let b = process_alerts-Balanced u.dedup_window_secs env e (a ∷ rest) s in
        let same = handle_alerts-alerts u env e (a ∷ rest) s in
        record {
          events = omega (
            arith,
            ap length (handle_alerts-events u env e (a ∷ rest) s),
            process_alerts-ingested u.dedup_window_secs (a ∷ rest) s,
          );
          alerts = record {
            counted = rw same b.counted;
            sent = rw same b.sent;
            told = λ before. rw same (b.told before);
          };
        }

    -- A server that has one event more, and its two messages, agrees with the one before.
    one_more_event :
        (s : Server) (alerts : List Alert) (t : Server) (row : EventRow)
        → t.db.events ≡ s.db.events ++ row ∷ []
        → t.db.alerts ≡ s.db.alerts
        → t.metrics ≡ inc_events_ingested (count_rules u env alerts s.metrics)
        → t.outbox ≡ s.outbox ++ splunk_event e ∷ es_event e ∷ []
        → Agrees s t
    unfolding inc_events_ingested
    one_more_event s alerts t row events same_alerts metrics outbox =
        let kept = count_rules-kept alerts s.metrics in
        record {
          events =
              rw (events, metrics, length-append s.db.events (row ∷ [])) (omega (arith, kept.0));
          alerts = record {
            counted = rw (same_alerts, metrics, kept.1) refl;
            sent = rw (same_alerts, outbox, select-append, length-append) (omega arith);
            told = λ before.
                rw (same_alerts, outbox) (payloads-append s.outbox _ ∙ append-nil _ ∙ before);
          };
        }

    process_event-Agrees : (st : State) → Agrees st.server (process_event u env e st).server
    unfolding process_event
    process_event-Agrees st =
        let alerts = evaluate (context u env st) env e st.server.db in
        Agrees-trans st.server _ _
          (one_more_event st.server alerts
            (record {
              db = store_event u env e st.server.db;
              metrics = inc_events_ingested (count_rules u env alerts st.server.metrics);
              outbox = st.server.outbox ++ splunk_event e ∷ es_event e ∷ [];
            })
            (event_row env e st.server.db) (store_event-events u env e st.server.db)
            (store_event-alerts u env e st.server.db) refl refl)
          (handle_alerts-Agrees alerts _)

    unalerted-Agrees : (d : Driver) (st : State) → Agrees st.server (unalerted u env e st).server
    unalerted-Agrees d st =
        one_more_event st.server (evaluate (context u env st) env e st.server.db) _
          (event_row env e st.server.db) (unalerted-events d u env e st)
          (unalerted-alerts d u env e st) (unfold unalerted in refl) (unfold unalerted in refl)

    unstored-Agrees : (st : State) → Agrees st.server (unstored u env e st).server
    unfolding unstored
    unstored-Agrees st =
        let kept =
          count_rules-kept (evaluate (context u env st) env e st.server.db) st.server.metrics in
        record {
          events = omega (arith, kept.0);
          alerts = record { counted = rw kept.1 refl; sent = refl; told = λ before. before };
        }

  module _ (d : Driver) where
    by_user-Agrees :
        (user : Option String) (e : DeviceEvent) (st : State)
        → Agrees st.server (by_user d u env user e st).server
    by_user-Agrees none e st = elim (Bool-cases (is_empty e.hostname || is_empty e.device_id)) [
      | inl unnamed ↦ rw unnamed (process_event-Agrees (event_of d "" e) st)
      | inr named ↦ rw named (unalerted-Agrees (event_of d "" e) d st)
    ]
    by_user-Agrees (some user) e st = process_event-Agrees (event_of d user e) st

    handle_event-Agrees :
        (e : DeviceEvent) (st : State) → Agrees st.server (handle_event d u env e st).1.server
    handle_event-Agrees e st = elim (Bool-cases (fits d e)) [
      | inl ok ↦ rw (handle_event-fits d u env e st ok) (by_user-Agrees _ e st)
      | inr big ↦ rw (handle_event_oversized d u env e st big) (unstored-Agrees _ st)
    ]

module _ (d : Driver) (u : Setup) where
  handle_events-Agrees :
      (envs : ℕ → Env) (n : ℕ) (es : List DeviceEvent) (st : State)
      → Agrees st.server (handle_events d u envs n es st).1.server
  unfolding handle_events
  handle_events-Agrees envs n [] st = Agrees-refl st.server
  handle_events-Agrees envs n (e ∷ es) st =
      Agrees-trans st.server _ _ (handle_event-Agrees u (envs n) d e st)
        (handle_events-Agrees envs (suc n) es (handle_event d u (envs n) e st).1)

  module _ (r : Reading) (settings : Settings) where
    answer-Agrees :
        (p : Post d u r settings) (s : Limiter settings × State)
        → Agrees s.1.server (answer d u r settings p s).1.1.server
    answer-Agrees p (limiter, st) = elim (post_events-guards d u r settings p limiter st) [
      | inl t ↦ rw t.unchanged (Agrees-refl st.server)
      | inr t ↦ rw t.handled_all (handle_events-Agrees p.envs 0 t.events st)
    ]

    -- Whatever POSTs of events come in, one after the other, with or without a key, valid or not: as many events are stored as the
    -- counter of events goes up by, and as many alerts are stored as the counters of alerts go up by
    -- and as are handed over for notification.
    pub posts-Agrees :
        (ps : List (Post d u r settings)) (s : Limiter settings × State)
        → Agrees s.1.server (posts d u r settings ps s).1.server
    posts-Agrees [] s = Agrees-refl s.1.server
    posts-Agrees (p ∷ ps) s =
        Agrees-trans s.1.server _ _ (answer-Agrees p s)
          (posts-Agrees ps (answer d u r settings p s).1)

    -- A server that starts with no events, no alerts and no counts, whatever POSTs of events come in,
    -- one after the other: a scrape reads as the number of events that of the stored ones, and as the
    -- gauge that of the open alerts, up to 100000; the counters of alerts add up to the number of
    -- stored alerts; and what was handed over for notification are the stored alerts, each once and in
    -- order, with its id, host, device, rule, severity, description and event.
    pub posts-scraped :
        (ps : List (Post d u r settings)) (limiter : Limiter settings) (st : State)
        → st.server.db.events ≡ []
        → st.server.db.alerts ≡ []
        → st.server.metrics ≡ no_metrics
        → st.server.outbox ≡ []
        → let server = (posts d u r settings ps (limiter, st)).1.server in
          let lines = render_lines server.metrics (active_alerts server.db) in
          (value_of "itdn_events_ingested_total" [] lines ≡ some (length server.db.events))
          × (value_of "itdn_alerts_active" [] lines
              ≡ some (min 100000 (length (open_alerts server.db))))
          × (sum_counts server.metrics.alerts_fired ≡ length server.db.alerts)
          × IsTold server
    unfolding sum_counts
    posts-scraped ps limiter st no_events no_alerts no_counts nothing_sent =
        let server = (posts d u r settings ps (limiter, st)).1.server in
        let a = posts-Agrees ps (limiter, st) in
        let samples = render_lines-samples server.metrics server.db "" "" in
        (
          samples.0
              ∙ ap some (
                  omega
                    (arith, a.events, ap length no_events, ap (λ m. m.events_ingested) no_counts)),
          samples.2,
          omega (
            arith,
            a.alerts.counted,
            ap length no_alerts,
            ap (λ m. sum_counts m.alerts_fired) no_counts,
          ),
          a.alerts.told (rw (no_alerts, nothing_sent) refl),
        )
