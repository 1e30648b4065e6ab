-- ===== src/Rules.antt =====
-- server/detection/rules.py: the eight rules and `evaluate`.
pub mod Fires
use Prim.Native.Nat.{Ordering}
use Prim.Native.String.{compare}
use insider_threat_detection.Common.{
  ℕ, ◌+◌, ◌/◌, ◌%◌, String, Bool, true, false, not, ◌&&◌, ◌||◌, Option, none, some, List, [], ◌∷◌,
  ◌==◌, ltb, leb, nat_eq, if◌then◌else◌, is_empty, length, select,
}
use insider_threat_detection.Common.Int.{ℤ, shift}
use insider_threat_detection.Event.{
  Event, Alert, Description, after_hours, unseen, volume, cycles, other_hosts, honeypot, malicious,
  unseen_by_user, Severity, is_connected, is_cycle, medium, high, critical,
}
use insider_threat_detection.Database.{Env, EventRow, Db}
use insider_threat_detection.Database.Events.{
  get_recent_events, get_recent_events_by_device, device_is_new,
}
use insider_threat_detection.Database.Baselines.{user_device_is_new}
use insider_threat_detection.Database.Timezones.{get_host_timezone}
use insider_threat_detection.RuleConfig.{Config}
use insider_threat_detection.ThreatFeed.{is_honeypot_device}

-- What the rules read besides the event and the database. `strptime` gives the seconds of a
-- timestamp text in the rule's format, from the first instant a datetime can name, and `max_time`
-- is the last: a time beyond it raises OverflowError.
pub record Context : Type 0 where
  pub config : Config
  pub honeypots : List String
  pub is_known_malicious : String → Bool
  pub strptime : String → Option ℕ
  pub max_time : ℕ

abbrev pub fire : Bool → String → Severity → Description → Option Alert
fire test rule_name severity description =
    if test
    then some (record { rule_name = rule_name; severity = severity; description = description })
    else none

abbrev parsed_or_now : Option ℕ → ℕ → ℕ
parsed_or_now none now = now
parsed_or_now (some t) now = t

abbrev in_range : ℕ → ℕ → Option ℕ → ℕ
in_range max_time t none = t
in_range max_time t (some t') = if leb t' max_time then t' else t

-- A stored offset moves the time; where that overflows, the handler keeps the time.
abbrev pub local_time : ℕ → ℕ → Option ℤ → ℕ
local_time max_time t none = t
local_time max_time t (some offset) = in_range max_time t (shift t offset)

unfoldable pub hour_of : ℕ → ℕ
hour_of t = t / 3600 % 24

module _ (ctx : Context) (env : Env) where
  abbrev pub event_time : Event → Db → ℕ
  event_time event db =
      local_time ctx.max_time (parsed_or_now (ctx.strptime event.timestamp) env.now)
        (get_host_timezone event.hostname db)

  unfoldable pub rule_after_hours_device : Event → Db → Option Alert
  unfolding hour_of
  rule_after_hours_device event db =
      let hour = hour_of (event_time event db) in
      let start = ctx.config.after_hours_start in
      let stop = ctx.config.after_hours_end in
      if is_connected event.event_type
      then fire (leb start hour || ltb hour stop) "after_hours_device" high
          (after_hours event.device_id event.timestamp event.hostname start stop)
      else none

  unfoldable pub rule_unknown_device : Event → Db → Option Alert
  rule_unknown_device event db =
      if is_connected event.event_type
      then fire (device_is_new event.hostname event.device_id db) "unknown_device" medium
          (unseen event.device_id event.serial event.hostname)
      else none

  abbrev pub sum_bytes : List EventRow → ℕ
  sum_bytes [] = 0
  sum_bytes (r ∷ rows) = r.transfer_bytes + sum_bytes rows

  unfoldable pub rule_high_volume_transfer : Event → Db → Option Alert
  rule_high_volume_transfer event db =
      let total_bytes =
        sum_bytes (get_recent_events env event.hostname 3600 db) + event.transfer_bytes in
      let threshold = ctx.config.volume_threshold_bytes in
      if nat_eq event.transfer_bytes 0
      then none
      else fire (leb threshold total_bytes) "high_volume_transfer" critical
          (volume event.hostname total_bytes threshold)

  abbrev pub cycle_count : Event → Db → ℕ
  cycle_count event db =
      length (
        select (λ r. is_cycle r.event_type)
          (get_recent_events env event.hostname ctx.config.rapid_cycle_window_secs db))
      + 1

  unfoldable pub rule_rapid_cycle : Event → Db → Option Alert
  rule_rapid_cycle event db =
      let count = cycle_count event db in
      fire (leb ctx.config.rapid_cycle_count count) "rapid_cycle" high (
        cycles event.hostname count ctx.config.rapid_cycle_window_secs ctx.config.rapid_cycle_count)

  -- A set of texts, sorted.
  abbrev pub insert_text : String → List String → List String
  insert_text x [] = x ∷ []
  insert_text x (y ∷ ys) =
      let rest = insert_text x ys in
      elim (compare x y) [
        | Ordering.lt ↦ x ∷ y ∷ ys
        | Ordering.eq ↦ y ∷ ys
        | Ordering.gt ↦ y ∷ rest
      ]

  abbrev pub hosts_besides : String → List EventRow → List String
  hosts_besides hostname [] = []
  hosts_besides hostname (r ∷ rows) =
      let rest = hosts_besides hostname rows in
      if r.hostname == hostname then rest else insert_text r.hostname rest

  abbrev is_nil : List String → Bool
  is_nil [] = true
  is_nil (x ∷ xs) = false

  unfoldable pub rule_cross_agent_device : Event → Db → Option Alert
  rule_cross_agent_device event db =
      let hosts =
        hosts_besides event.hostname (get_recent_events_by_device env event.device_id 3600 db) in
      if is_empty event.device_id || is_empty event.hostname
      then none
      else fire (not (is_nil hosts)) "cross_agent_device" critical
          (other_hosts event.device_id hosts)

  unfoldable pub rule_honeypot_device : Event → Db → Option Alert
  rule_honeypot_device event db =
      fire (not (is_empty event.device_id) && is_honeypot_device ctx.honeypots event.device_id)
        "honeypot_device" critical (honeypot event.device_id event.hostname)

  unfoldable pub rule_known_malicious_device : Event → Db → Option Alert
  rule_known_malicious_device event db =
      if is_connected event.event_type
      then fire (not (is_empty event.device_id) && ctx.is_known_malicious event.device_id)
          "known_malicious_device" critical (malicious event.device_id event.hostname)
      else none

  unfoldable pub rule_user_unknown_device : Event → Db → Option Alert
  rule_user_unknown_device event db =
      if is_connected event.event_type && not (is_empty event.user)
      then fire (user_device_is_new event.user event.hostname event.device_id db)
          "user_unknown_device" high (unseen_by_user event.user event.device_id event.hostname)
      else none

  -- `_RULES`, applied in order.
  abbrev pub results : Event → Db → List (Option Alert)
  results event db =
      rule_after_hours_device event db
      ∷ rule_unknown_device event db
      ∷ rule_high_volume_transfer event db
      ∷ rule_rapid_cycle event db
      ∷ rule_cross_agent_device event db
      ∷ rule_honeypot_device event db
      ∷ rule_known_malicious_device event db
      ∷ rule_user_unknown_device event db
      ∷ []

  abbrev pub fired : List (Option Alert) → List Alert
  fired [] = []
  fired (none ∷ rest) = fired rest
  fired (some alert ∷ rest) = alert ∷ fired rest

  -- No rule of the model raises, so the handler round each call has nothing to do.
  unfoldable pub evaluate : Event → Db → List Alert
  evaluate event db = fired (results event db)
