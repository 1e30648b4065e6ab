-- ===== src/AlertManager/Delivery.antt =====
-- Every stored alert is counted and delivered once; a suppressed one leaves no trace.
use mathlib.Core.List.{map-append}
use insider_threat_detection.Common.{
  ℕ, ◌+◌, ◌≡◌, refl, ap, ◌++◌, map, inl, inr, Bool, true, false, List, [], ◌∷◌, arith, Option-cases,
  length, select, length-append, select-append,
}
use insider_threat_detection.Event.{Event, Alert}
use insider_threat_detection.Database.{Env, AlertRow}
use insider_threat_detection.Database.Alerts.{insert_alert, alert_row, get_recent_alert}
use insider_threat_detection.Metrics.{sum_counts, inc_alerts_fired, sum_counts-increment}
use insider_threat_detection.AlertManager.{
  Server, Outgoing, AlertPayload, splunk_event, es_event, splunk_alert, es_alert, notified,
  process_alert, process_alerts,
}

abbrev is_notification : Outgoing → Bool
is_notification (notified p) = true
is_notification _ = false

abbrev pub notifications : List Outgoing → ℕ
notifications xs = length (select is_notification xs)

-- What the notification channels were handed.
abbrev payloads : List Outgoing → List AlertPayload
payloads [] = []
payloads (notified p ∷ rest) = p ∷ payloads rest
payloads (_ ∷ rest) = payloads rest

-- What a stored alert says, as a notification of it.
abbrev payload_of : AlertRow → AlertPayload
payload_of r = record {
  alert_id = r.id;
  hostname = r.hostname;
  device_id = r.device_id;
  rule_name = r.rule_name;
  severity = r.severity;
  description = r.description;
  event = r.raw_event_json;
}

-- The notifications are those of the stored alerts, one by one and in order.
abbrev pub IsTold : Server → Type 0
IsTold s = payloads s.outbox ≡ map payload_of s.db.alerts

pub payloads-append : (xs ys : List Outgoing) → payloads (xs ++ ys) ≡ payloads xs ++ payloads ys
payloads-append [] ys = refl
payloads-append (splunk_event e ∷ xs) ys = payloads-append xs ys
payloads-append (es_event e ∷ xs) ys = payloads-append xs ys
payloads-append (splunk_alert p ∷ xs) ys = payloads-append xs ys
payloads-append (es_alert p ∷ xs) ys = payloads-append xs ys
payloads-append (notified p ∷ xs) ys = ap (λ ps. p ∷ ps) (payloads-append xs ys)

-- The alerts stored, counted and notified since the state `s`.
pub record Balanced (s t : Server) : Type 0 where
  pub counted :
      length t.db.alerts + sum_counts s.metrics.alerts_fired
      ≡ length s.db.alerts + sum_counts t.metrics.alerts_fired
  pub sent :
      length t.db.alerts + notifications s.outbox ≡ length s.db.alerts + notifications t.outbox
  pub told : IsTold s → IsTold t

pub Balanced-trans : (s t u : Server) → Balanced s t → Balanced t u → Balanced s u
Balanced-trans s t u a b = record {
  counted = omega (arith, a.counted, b.counted);
  sent = omega (arith, a.sent, b.sent);
  told = λ before. b.told (a.told before);
}

module _ (w : ℕ) (env : Env) (event : Event) where
  process_alert-Balanced :
      (alert : Alert) (s : Server) → Balanced s (process_alert w env event alert s)
  unfolding process_alert insert_alert alert_row inc_alerts_fired
  process_alert-Balanced alert s =
      elim (Option-cases
        (get_recent_alert env event.hostname event.device_id alert.rule_name w s.db)) [
          | inr (row, e) ↦ rw e (record { counted = refl; sent = refl; told = λ before. before })
          | inl e ↦ rw e (record {
            counted = rw (length-append, sum_counts-increment) (omega arith);
            sent = rw (length-append, select-append, length-append) (omega arith);
            told = λ before. rw (payloads-append, map-append, before) refl;
          })
        ]

  -- Over any list of alerts, as many are stored as are counted in the metrics and as are notified,
  -- and if the notifications were those of the stored alerts, one by one and in order, they still are.
  pub process_alerts-Balanced :
      (alerts : List Alert) (s : Server) → Balanced s (process_alerts w env event alerts s)
  unfolding process_alerts
  process_alerts-Balanced [] s = record { counted = refl; sent = refl; told = λ before. before }
  process_alerts-Balanced (alert ∷ alerts) s =
      Balanced-trans s _ _ (process_alert-Balanced alert s)
        (process_alerts-Balanced alerts (process_alert w env event alert s))
