-- ===== src/Ingest/Effects.antt =====
-- What one event changes, table by table.
use insider_threat_detection.Common.{
  ℕ, ◌+◌, String, ◌≡◌, refl, ◌∙◌, inl, inr, List, [], ◌∷◌, ◌++◌, arith, ◌==◌, eq_iff, ltb,
  if◌then◌else◌, Bool-cases,
}
use insider_threat_detection.Event.{Event, Alert, to_json}
use insider_threat_detection.Database.{Env, Db}
use insider_threat_detection.Database.Events.{event_row, insert_event}
use insider_threat_detection.Database.Alerts.{insert_alert}
use insider_threat_detection.Database.Audit.{append_audit_record}
use insider_threat_detection.Database.Baselines.{update_device_baseline, update_user_baseline}
use insider_threat_detection.Database.Scores.{
  upsert_risk_score, get_risk_score, get_risk_score-upsert_risk_score,
}
use insider_threat_detection.Database.Timezones.{update_host_timezone}
use insider_threat_detection.AlertManager.{
  Server, process_alert, process_alerts, delta_of, score_event,
}
use insider_threat_detection.Ingest.{Setup, update_baselines, store_event, handle_alerts}

-- Processing alerts touches no table but `alerts`.
pub record OnlyAlerts (a b : Db) : Type 0 where
  pub events : b.events ≡ a.events
  pub audit_chain : b.audit_chain ≡ a.audit_chain
  pub risk_scores : b.risk_scores ≡ a.risk_scores
  pub device_baseline : b.device_baseline ≡ a.device_baseline
  pub user_baseline : b.user_baseline ≡ a.user_baseline
  pub host_timezone : b.host_timezone ≡ a.host_timezone

module _ (w : ℕ) (env : Env) (event : Event) where
  process_alert-OnlyAlerts :
      (alert : Alert) (s : Server) → OnlyAlerts s.db (process_alert w env event alert s).db
  unfolding process_alert insert_alert
  process_alert-OnlyAlerts alert s = record {
    events = ground arith;
    audit_chain = ground arith;
    risk_scores = ground arith;
    device_baseline = ground arith;
    user_baseline = ground arith;
    host_timezone = ground arith;
  }

  pub process_alerts-OnlyAlerts :
      (alerts : List Alert) (s : Server) → OnlyAlerts s.db (process_alerts w env event alerts s).db
  unfolding process_alerts
  process_alerts-OnlyAlerts [] s = record {
    events = refl;
    audit_chain = refl;
    risk_scores = refl;
    device_baseline = refl;
    user_baseline = refl;
    host_timezone = refl;
  }
  process_alerts-OnlyAlerts (alert ∷ alerts) s =
      let a = process_alert-OnlyAlerts alert s in
      let b = process_alerts-OnlyAlerts alerts (process_alert w env event alert s) in
      record {
        events = b.events ∙ a.events;
        audit_chain = b.audit_chain ∙ a.audit_chain;
        risk_scores = b.risk_scores ∙ a.risk_scores;
        device_baseline = b.device_baseline ∙ a.device_baseline;
        user_baseline = b.user_baseline ∙ a.user_baseline;
        host_timezone = b.host_timezone ∙ a.host_timezone;
      }

-- Scoring touches no table but `risk_scores`.
pub record OnlyScores (a b : Db) : Type 0 where
  pub events : b.events ≡ a.events
  pub alerts : b.alerts ≡ a.alerts
  pub audit_chain : b.audit_chain ≡ a.audit_chain
  pub device_baseline : b.device_baseline ≡ a.device_baseline

pub score_event-OnlyScores :
    (env : Env) (host : String) (alerts : List Alert) (db : Db)
    → OnlyScores db (score_event env host alerts db).1
unfolding score_event upsert_risk_score
score_event-OnlyScores env host alerts db = record {
  events = ground arith;
  alerts = ground arith;
  audit_chain = ground arith;
  device_baseline = ground arith;
}

-- The score goes up by the weights of the alerts that fired.
pub get_risk_score-score_event :
    (env : Env) (host other : String) (alerts : List Alert) (db : Db)
    → get_risk_score other (score_event env host alerts db).1 ≡ (
        if host == other then get_risk_score host db + delta_of alerts else get_risk_score other db)
unfolding score_event
get_risk_score-score_event env host other alerts db = elim (Bool-cases (ltb 0 (delta_of alerts))) [
  | inl e ↦ rw e (get_risk_score-upsert_risk_score env host other (delta_of alerts) db)
  | inr e ↦ rw e (ground (arith, e, eq_iff host other))
]

module _ (u : Setup) (env : Env) (e : Event) where
  update_baselines-events : (db : Db) → (update_baselines u env e db).events ≡ db.events
  unfolding update_baselines update_device_baseline update_user_baseline update_host_timezone
  update_baselines-events db = ground arith

  update_baselines-alerts : (db : Db) → (update_baselines u env e db).alerts ≡ db.alerts
  unfolding update_baselines update_device_baseline update_user_baseline update_host_timezone
  update_baselines-alerts db = ground arith

  update_baselines-audit_chain :
      (db : Db) → (update_baselines u env e db).audit_chain ≡ db.audit_chain
  unfolding update_baselines update_device_baseline update_user_baseline update_host_timezone
  update_baselines-audit_chain db = ground arith

  update_baselines-risk_scores :
      (db : Db) → (update_baselines u env e db).risk_scores ≡ db.risk_scores
  unfolding update_baselines update_device_baseline update_user_baseline update_host_timezone
  update_baselines-risk_scores db = ground arith

  pub store_event-events :
      (db : Db) → (store_event u env e db).events ≡ db.events ++ event_row env e db ∷ []
  unfolding store_event insert_event append_audit_record
  store_event-events db = update_baselines-events _ ∙ ground arith

  pub store_event-alerts : (db : Db) → (store_event u env e db).alerts ≡ db.alerts
  unfolding store_event insert_event append_audit_record
  store_event-alerts db = update_baselines-alerts _ ∙ ground arith

  pub store_event-risk_scores : (db : Db) → (store_event u env e db).risk_scores ≡ db.risk_scores
  unfolding store_event insert_event append_audit_record
  store_event-risk_scores db = update_baselines-risk_scores _ ∙ ground arith

  pub store_event-audit_chain :
      (db : Db)
      → (store_event u env e db).audit_chain
        ≡ (append_audit_record u.hasher env e.hostname
            (to_json e)
            (insert_event env e db).1).1.audit_chain
  unfolding store_event
  store_event-audit_chain db = update_baselines-audit_chain _

  pub handle_alerts-events :
      (alerts : List Alert) (s : Server) → (handle_alerts u env e alerts s).db.events ≡ s.db.events
  unfolding handle_alerts
  handle_alerts-events [] s = refl
  handle_alerts-events (a ∷ rest) s =
      (score_event-OnlyScores env e.hostname (a ∷ rest) _).events
      ∙ (process_alerts-OnlyAlerts u.dedup_window_secs env e (a ∷ rest) s).events

  pub handle_alerts-audit_chain :
      (alerts : List Alert) (s : Server)
      → (handle_alerts u env e alerts s).db.audit_chain ≡ s.db.audit_chain
  unfolding handle_alerts
  handle_alerts-audit_chain [] s = refl
  handle_alerts-audit_chain (a ∷ rest) s =
      (score_event-OnlyScores env e.hostname (a ∷ rest) _).audit_chain
      ∙ (process_alerts-OnlyAlerts u.dedup_window_secs env e (a ∷ rest) s).audit_chain

  pub handle_alerts-alerts :
      (alerts : List Alert) (s : Server)
      → (handle_alerts u env e alerts s).db.alerts
        ≡ (process_alerts u.dedup_window_secs env e alerts s).db.alerts
  unfolding handle_alerts
  handle_alerts-alerts [] s = unfold process_alerts in refl
  handle_alerts-alerts (a ∷ rest) s = (score_event-OnlyScores env e.hostname (a ∷ rest) _).alerts

  same_scores :
      (host : String) (alerts : List Alert) (s : Server)
      → get_risk_score host (process_alerts u.dedup_window_secs env e alerts s).db
        ≡ get_risk_score host s.db
  unfolding get_risk_score
  same_scores host alerts s =
      rw (process_alerts-OnlyAlerts u.dedup_window_secs env e alerts s).risk_scores

  pub handle_alerts-score :
      (host : String) (alerts : List Alert) (s : Server)
      → get_risk_score host (handle_alerts u env e alerts s).db ≡ (
          if e.hostname == host
          then get_risk_score host s.db + delta_of alerts
          else get_risk_score host s.db)
  unfolding handle_alerts
  handle_alerts-score host [] s = unfold delta_of in ground arith
  handle_alerts-score host (a ∷ rest) s =
      get_risk_score-score_event env e.hostname host (a ∷ rest) _
      ∙ rw (same_scores e.hostname (a ∷ rest) s, same_scores host (a ∷ rest) s)
          (ground (arith, eq_iff e.hostname host))
