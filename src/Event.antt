-- ===== src/Event.antt =====
-- The event that a validated batch holds (server/schema.py, DeviceEvent) and the alert that a rule
-- returns (server/detection/rules.py, Alert).
use insider_threat_detection.Common.{ℕ, String, Bool, true, false, Option, List, ◌∷◌}
use insider_threat_detection.Common.Int.{ℤ, pos}
use insider_threat_detection.Json.{Json, Dict, fields_of, num, str, obj}

pub data EventType : Type 0 where
  connected disconnected data_transfer : EventType

abbrev pub event_type_text : EventType → String
event_type_text connected = "connected"
event_type_text disconnected = "disconnected"
event_type_text data_transfer = "data_transfer"

abbrev pub is_connected : EventType → Bool
is_connected connected = true
is_connected _ = false

-- `event_type in ("connected", "disconnected")`
abbrev pub is_cycle : EventType → Bool
is_cycle data_transfer = false
is_cycle _ = true

-- The fields that the schema declares, the extra ones, which it lets through, and what the server
-- reads of two of these: an absent `user` reads as "", as `event.get("user", "")` does, and an offset
-- in hours, a float, is given in seconds.
pub record Event : Type 0 where
  pub event_type : EventType
  pub device_id : String
  pub hostname : String
  pub serial : String
  pub manufacturer : String
  pub product : String
  pub bus_path : String
  pub timestamp : String
  pub transfer_bytes : ℕ
  pub user : String
  pub utc_offset_hours : Option ℤ
  pub extra : Dict

-- The dict of `model_dump()`, as JSON.
unfoldable pub to_json : Event → Json
to_json e = obj (
    fields_of (
      ("event_type", str (event_type_text e.event_type))
      ∷ ("device_id", str e.device_id)
      ∷ ("hostname", str e.hostname)
      ∷ ("serial", str e.serial)
      ∷ ("manufacturer", str e.manufacturer)
      ∷ ("product", str e.product)
      ∷ ("bus_path", str e.bus_path)
      ∷ ("timestamp", str e.timestamp)
      ∷ ("transfer_bytes", num (pos e.transfer_bytes))
      ∷ e.extra))

pub data Severity : Type 0 where
  low medium high critical : Severity

-- What a description shows, rule by rule.
pub data Description : Type 0 where
  -- device, timestamp text, host, start and end of the hours
  after_hours : String → String → String → ℕ → ℕ → Description
  -- device, serial, host
  unseen : String → String → String → Description
  -- host, bytes in the last hour, threshold
  volume : String → ℕ → ℕ → Description
  -- host, events counted, window, threshold
  cycles : String → ℕ → ℕ → ℕ → Description
  -- device, the other hosts
  other_hosts : String → List String → Description
  -- device, host
  honeypot : String → String → Description
  -- device, host
  malicious : String → String → Description
  -- user, device, host
  unseen_by_user : String → String → String → Description

pub record Alert : Type 0 where
  pub rule_name : String
  pub severity : Severity
  pub description : Description
