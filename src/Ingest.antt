-- ===== src/Ingest.antt =====
-- server/routers/events.py: what POST /api/v1/events does with a validated batch.
pub mod Effects
pub mod Handler
pub mod Guarantees
use insider_threat_detection.Common.{
  ℕ, suc, String, not, ◌&&◌, ◌||◌, Option, none, some, List, [], ◌∷◌, ◌++◌, if◌then◌else◌, is_empty,
}
use insider_threat_detection.Common.Int.{ℤ}
use insider_threat_detection.Chain.{Hasher}
use insider_threat_detection.Event.{Event, Alert, to_json, is_connected}
use insider_threat_detection.Database.{Env, Db}
use insider_threat_detection.Database.Events.{insert_event}
use insider_threat_detection.Database.Audit.{append_audit_record}
use insider_threat_detection.Database.Baselines.{update_device_baseline, update_user_baseline}
use insider_threat_detection.Database.Timezones.{update_host_timezone}
use insider_threat_detection.RuleConfig.{Config}
use insider_threat_detection.ThreatFeed.{TextOps, Feed, Sources, is_known_malicious, ensure_loaded}
use insider_threat_detection.Rules.{Context, evaluate}
use insider_threat_detection.Metrics.{Metrics, inc_rule_fire, inc_events_ingested}
use insider_threat_detection.AlertManager.{
  Server, splunk_event, es_event, process_alerts, score_event,
}

-- What a process is started with, and the library functions that it calls.
pub record Setup : Type 1 where
  pub hasher : Hasher
  pub text_ops : TextOps
  pub sources : Sources
  pub honeypots : List String
  pub strptime : String → Option ℕ
  pub max_time : ℕ
  pub dedup_window_secs : ℕ

pub record State : Type 0 where
  pub server : Server
  pub feed : Feed
  pub config : Config

module _ (u : Setup) (env : Env) where
  abbrev pub context : State → Context
  context st = record {
    config = st.config;
    honeypots = u.honeypots;
    is_known_malicious = λ dev. (is_known_malicious u.text_ops u.sources dev st.feed).0;
    strptime = u.strptime;
    max_time = u.max_time;
  }

  -- The malicious-device rule loads the feed when it gets as far as the lookup.
  abbrev pub feed_after : Event → Feed → Feed
  feed_after event feed =
      if is_connected event.event_type && not (is_empty event.device_id)
      then ensure_loaded u.text_ops u.sources feed
      else feed

  abbrev pub count_rules : List Alert → Metrics → Metrics
  count_rules [] m = m
  count_rules (alert ∷ alerts) m = count_rules alerts (inc_rule_fire alert.rule_name m)

  abbrev pub note_offset : String → Option ℤ → Db → Db
  note_offset hostname none db = db
  note_offset hostname (some offset) db = update_host_timezone env hostname offset db

  -- Baselines and time zone, where the event names a host and a device.
  unfoldable pub update_baselines : Event → Db → Db
  update_baselines event db =
      if is_empty event.hostname || is_empty event.device_id
      then db
      else note_offset event.hostname event.utc_offset_hours (
          if is_empty event.user
          then update_device_baseline env event.hostname event.device_id db
          else update_user_baseline env event.user event.hostname event.device_id
              (update_device_baseline env event.hostname event.device_id db))

  unfoldable pub store_event : Event → Db → Db
  unfolding update_baselines
  store_event event db =
      update_baselines event
        (append_audit_record u.hasher env event.hostname (to_json event)
          (insert_event env event db).1).1

  -- `if alerts:`
  unfoldable pub handle_alerts : Event → List Alert → Server → Server
  handle_alerts event [] s = s
  handle_alerts event (alert ∷ alerts) s =
      let s' = process_alerts u.dedup_window_secs env event (alert ∷ alerts) s in
      record s' { db = (score_event env event.hostname (alert ∷ alerts) s'.db).1 }

  -- The body of the loop: the rules see the database from before the event is stored.
  unfoldable pub process_event : Event → State → State
  unfolding store_event handle_alerts
  process_event event st =
      let alerts = evaluate (context st) env event st.server.db in
      record st {
        server = handle_alerts event alerts (record {
          db = store_event event st.server.db;
          metrics = inc_events_ingested (count_rules alerts st.server.metrics);
          outbox = st.server.outbox ++ splunk_event event ∷ es_event event ∷ [];
        });
        feed = feed_after event st.feed;
      }

module _ (u : Setup) where
  -- The loop, each event with the clock and the keys of its turn, and the number of events stored.
  unfoldable pub ingest_events : List (Env × Event) → State → ℕ × State
  unfolding process_event
  ingest_events [] st = (0, st)
  ingest_events ((env, event) ∷ events) st =
      let (stored, st') = ingest_events events (process_event u env event st) in (suc stored, st')
