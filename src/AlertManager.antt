-- ===== src/AlertManager.antt =====
-- server/alert_manager.py (process_alerts) and server/scoring/risk_scoring.py (RiskScorer)
pub mod Dedup
pub mod Delivery
use insider_threat_detection.Common.{
  ℕ, ◌+◌, String, List, [], ◌∷◌, ◌++◌, ◌==◌, ltb, if◌then◌else◌, is_some,
}
use insider_threat_detection.Event.{Event, Alert, Severity, Description}
use insider_threat_detection.Database.{Env, Db}
use insider_threat_detection.Database.Alerts.{insert_alert, get_recent_alert}
use insider_threat_detection.Database.Scores.{upsert_risk_score, get_risk_score}
use insider_threat_detection.Metrics.{Metrics, inc_alerts_fired}

pub record AlertPayload : Type 0 where
  pub alert_id : ℕ
  pub hostname : String
  pub device_id : String
  pub rule_name : String
  pub severity : Severity
  pub description : Description
  pub event : Event

-- What is handed to the forwarders and the notification channels, in order.
pub data Outgoing : Type 0 where
  splunk_event : Event → Outgoing
  es_event : Event → Outgoing
  splunk_alert : AlertPayload → Outgoing
  es_alert : AlertPayload → Outgoing
  notified : AlertPayload → Outgoing

pub record Server : Type 0 where
  pub db : Db
  pub metrics : Metrics
  pub outbox : List Outgoing

abbrev pub payload : Event → ℕ → Alert → AlertPayload
payload event alert_id alert = record {
  alert_id = alert_id;
  hostname = event.hostname;
  device_id = event.device_id;
  rule_name = alert.rule_name;
  severity = alert.severity;
  description = alert.description;
  event = event;
}

-- The window is ALERT_DEDUP_WINDOW_SECS, which the environment fixes at the start.
module _ (dedup_window_secs : ℕ) (env : Env) where
  unfoldable pub raise_alert : Event → Alert → Server → Server
  raise_alert event alert s =
      let (alert_id, db) = insert_alert env event.hostname event.device_id alert event s.db in
      let p = payload event alert_id alert in
      record {
        db = db;
        metrics = inc_alerts_fired alert.severity alert.rule_name s.metrics;
        outbox = s.outbox ++ splunk_alert p ∷ es_alert p ∷ notified p ∷ [];
      }

  -- The body of the loop.
  unfoldable pub process_alert : Event → Alert → Server → Server
  unfolding raise_alert
  process_alert event alert s =
      if is_some
        (get_recent_alert env event.hostname event.device_id alert.rule_name dedup_window_secs s.db)
      then s
      else raise_alert event alert s

  unfoldable pub process_alerts : Event → List Alert → Server → Server
  process_alerts event [] s = s
  process_alerts event (alert ∷ alerts) s =
      process_alerts event alerts (process_alert event alert s)

-- `RULE_WEIGHTS.get(rule_name, 10)`
abbrev pub rule_weight : String → ℕ
rule_weight rule_name =
    if rule_name == "unknown_device"
    then 40
    else if rule_name == "after_hours_device"
    then 20
    else if rule_name == "high_volume_transfer"
    then 50
    else if rule_name == "rapid_cycle"
    then 30
    else if rule_name == "honeypot_device"
    then 100
    else 10

unfoldable pub delta_of : List Alert → ℕ
delta_of [] = 0
delta_of (alert ∷ alerts) = rule_weight alert.rule_name + delta_of alerts

unfoldable pub score_event : Env → String → List Alert → Db → ℕ × Db
unfolding delta_of
score_event env hostname fired_alerts db =
    let delta = delta_of fired_alerts in
    let db' = if ltb 0 delta then upsert_risk_score env hostname delta db else db in
    (get_risk_score hostname db', db')
