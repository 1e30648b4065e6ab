-- ===== src/Database.antt =====
-- server/database.py: the tables as lists of rows, in the order of insertion. A time is a number of
-- seconds: the texts that the database compares have a fixed width, so they are ordered like it.
-- One engine, and one lock round every function, so a function is one step from a state to a state.
pub mod Events
pub mod Alerts
pub mod Audit
pub mod Anchors
pub mod Scores
pub mod Baselines
pub mod Timezones
pub mod Integrity
pub mod Retention
pub mod Timeline
use insider_threat_detection.Common.{ℕ, ◌-◌, String, Bool, List, []}
use insider_threat_detection.Common.Int.{ℤ}
use insider_threat_detection.Json.{Json}
use insider_threat_detection.Event.{Event, EventType, Severity, Description}

-- What a call takes from outside: the clock, and the key that the engine gives to a new row of a
-- table with these keys.
pub record Env : Type 0 where
  pub now : ℕ
  pub fresh : List ℕ → ℕ

-- `_utcnow` and `_cutoff`
abbrev pub utcnow : Env → ℕ
utcnow env = env.now

abbrev pub cutoff : Env → ℕ → ℕ
cutoff env window_secs = env.now - window_secs

pub record EventRow : Type 0 where
  pub id : ℕ
  pub received_at : ℕ
  pub hostname : String
  pub event_type : EventType
  pub device_id : String
  pub serial : String
  pub manufacturer : String
  pub product : String
  pub bus_path : String
  pub transfer_bytes : ℕ
  pub raw_json : Event

pub record AlertRow : Type 0 where
  pub id : ℕ
  pub created_at : ℕ
  pub hostname : String
  pub device_id : String
  pub rule_name : String
  pub severity : Severity
  pub description : Description
  pub raw_event_json : Event
  pub acknowledged : Bool

pub record AuditRow : Type 0 where
  pub id : ℕ
  pub recorded_at : ℕ
  pub hostname : String
  pub prev_hash : String
  pub event_json : Json
  pub record_hash : String

pub record AnchorRow : Type 0 where
  pub id : ℕ
  pub agent_id : String
  pub chain_head_hash : String
  pub anchored_at : ℕ
  pub server_signature : String

pub record RiskRow : Type 0 where
  pub id : ℕ
  pub hostname : String
  pub score : ℕ
  pub window_start : ℕ
  pub window_end : ℕ
  pub updated_at : ℕ

pub record BaselineRow : Type 0 where
  pub id : ℕ
  pub hostname : String
  pub device_id : String
  pub first_seen : ℕ
  pub last_seen : ℕ
  pub seen_count : ℕ

pub record IntegrityRow : Type 0 where
  pub id : ℕ
  pub agent_id : String
  pub trusted_hash : String
  pub registered_at : ℕ

pub record UserRow : Type 0 where
  pub id : ℕ
  pub username : String
  pub hostname : String
  pub device_id : String
  pub first_seen : ℕ
  pub last_seen : ℕ
  pub seen_count : ℕ

pub record TimezoneRow : Type 0 where
  pub id : ℕ
  pub hostname : String
  pub utc_offset_hours : ℤ
  pub updated_at : ℕ

pub record Db : Type 0 where
  pub events : List EventRow
  pub alerts : List AlertRow
  pub audit_chain : List AuditRow
  pub log_anchors : List AnchorRow
  pub risk_scores : List RiskRow
  pub device_baseline : List BaselineRow
  pub agent_integrity : List IntegrityRow
  pub user_baseline : List UserRow
  pub host_timezone : List TimezoneRow

abbrev pub empty_db : Db
empty_db = record {
  events = [];
  alerts = [];
  audit_chain = [];
  log_anchors = [];
  risk_scores = [];
  device_baseline = [];
  agent_integrity = [];
  user_baseline = [];
  host_timezone = [];
}
