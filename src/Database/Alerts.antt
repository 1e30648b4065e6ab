-- ===== src/Database/Alerts.antt =====
-- insert_alert, get_recent_alert, list_alerts, acknowledge_alert
use insider_threat_detection.Common.{
  ℕ, String, ◌≡◌, refl, ◌↔◌, Bool, true, false, not, ◌&&◌, ◌||◌, Option, none, some, List, [], ◌∷◌,
  ◌++◌, map, arith, ◌==◌, leb, nat_eq, is_empty, take, select, any, first, update_where,
  select_none, any_of_select_nil, first-sort_desc-none, sort_desc,
}
use insider_threat_detection.Event.{Event, Alert}
use insider_threat_detection.Database.{Env, utcnow, cutoff, AlertRow, Db}

unfoldable pub alert_row : Env → String → String → Alert → Event → Db → AlertRow
alert_row env hostname device_id alert raw_event db = record {
  id = env.fresh (map (λ r. r.id) db.alerts);
  created_at = utcnow env;
  hostname = hostname;
  device_id = device_id;
  rule_name = alert.rule_name;
  severity = alert.severity;
  description = alert.description;
  raw_event_json = raw_event;
  acknowledged = false;
}

unfoldable pub insert_alert : Env → String → String → Alert → Event → Db → ℕ × Db
unfolding alert_row
insert_alert env hostname device_id alert raw_event db =
    let row = alert_row env hostname device_id alert raw_event db in
    (row.id, record db { alerts = db.alerts ++ row ∷ [] })

abbrev pub is_recent : ℕ → String → String → String → AlertRow → Bool
is_recent since hostname device_id rule_name r =
    r.hostname == hostname
    && r.device_id == device_id
    && r.rule_name == rule_name
    && leb since r.created_at

unfoldable pub get_recent_alert : Env → String → String → String → ℕ → Db → Option AlertRow
get_recent_alert env hostname device_id rule_name window_secs db = first (
    sort_desc (λ r. r.created_at)
      (select (is_recent (cutoff env window_secs) hostname device_id rule_name) db.alerts))

abbrev pub matches_host : Option String → AlertRow → Bool
matches_host none r = true
matches_host (some hostname) r = is_empty hostname || r.hostname == hostname

abbrev pub matches_ack : Option Bool → AlertRow → Bool
matches_ack none r = true
matches_ack (some true) r = r.acknowledged
matches_ack (some false) r = not r.acknowledged

unfoldable pub list_alerts : Option String → Option Bool → ℕ → Db → List AlertRow
list_alerts hostname acknowledged limit db = take limit (
    sort_desc (λ r. r.created_at)
      (select (λ r. matches_host hostname r && matches_ack acknowledged r) db.alerts))

abbrev pub is_open : ℕ → AlertRow → Bool
is_open alert_id r = nat_eq r.id alert_id && not r.acknowledged

unfoldable pub acknowledge_alert : ℕ → Db → Bool × Db
acknowledge_alert alert_id db = (
  any (is_open alert_id) db.alerts,
  record db {
    alerts = update_where (is_open alert_id) (λ r. record r { acknowledged = true }) db.alerts;
  },
)

pub closed_after :
    (alert_id : ℕ) (rows : List AlertRow)
    → any
        (is_open alert_id)
        (update_where (is_open alert_id) (λ r. record r { acknowledged = true }) rows)
      ≡ false
closed_after alert_id [] = refl
closed_after alert_id (r ∷ rs) = ground (arith, closed_after alert_id rs)

-- Acknowledging an alert twice: the second call finds nothing and changes nothing.
pub acknowledge_alert_once :
    (alert_id : ℕ) (db : Db)
    → (acknowledge_alert alert_id (acknowledge_alert alert_id db).1).0 ≡ false
unfolding acknowledge_alert
acknowledge_alert_once alert_id db = closed_after alert_id db.alerts

-- `get_recent_alert` finds nothing exactly when no stored alert with the host, the device and the
-- rule is as young as the window.
pub get_recent_alert-none :
    (env : Env) (host dev rule : String) (window : ℕ) (db : Db)
    → (get_recent_alert env host dev rule window db ≡ none)
      ↔ (any (is_recent (cutoff env window) host dev rule) db.alerts ≡ false)
unfolding get_recent_alert
get_recent_alert-none env host dev rule window db = (
  λ e. any_of_select_nil _ db.alerts (first-sort_desc-none (λ r. r.created_at) _ e),
  λ e. rw (select_none _ db.alerts e),
)
