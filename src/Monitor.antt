-- ===== src/Monitor.antt =====
-- agent/monitor/: the events of the monitors, the snapshots of the attached devices and the polling
-- loop of the USB monitor (`_poll_monitor_loop`) and of the Bluetooth monitor (`BTMonitor._loop`).
pub mod Follow
pub mod Raising
pub mod Usb
pub mod Bluetooth
pub mod Listings
pub mod Etw
pub mod Payload
pub mod Lifecycle
pub mod Wmi
pub mod Loops
pub mod Sessions
use insider_threat_detection.Common.{
  ℕ, zero, suc, String, Bool, not, Option, none, some, List, [], ◌∷◌, ◌++◌, map, ◌==◌,
  if◌then◌else◌, select, any, update_where,
}
use insider_threat_detection.Common.Int.{pos}
use insider_threat_detection.Json.{Dict, num, str}
use insider_threat_detection.Event.{EventType, disconnected, event_type_text}

-- `_build_event` has no peripheral_type, `_build_bt_event` sets it.
pub record EventDict : Type 0 where
  pub event_type : EventType
  pub peripheral_type : Option String
  pub device_id : String
  pub serial : String
  pub manufacturer : String
  pub product : String
  pub bus_path : String
  pub timestamp : String
  pub hostname : String
  pub transfer_bytes : ℕ

abbrev pub peripheral_entry : Option String → Dict → Dict
peripheral_entry none d = d
peripheral_entry (some kind) d = ("peripheral_type", str kind) ∷ d

-- The dict itself, in the order of its keys.
unfoldable pub to_dict : EventDict → Dict
to_dict e =
    ("event_type", str (event_type_text e.event_type))
    ∷ peripheral_entry e.peripheral_type (
        ("device_id", str e.device_id)
        ∷ ("serial", str e.serial)
        ∷ ("manufacturer", str e.manufacturer)
        ∷ ("product", str e.product)
        ∷ ("bus_path", str e.bus_path)
        ∷ ("timestamp", str e.timestamp)
        ∷ ("hostname", str e.hostname)
        ∷ ("transfer_bytes", num (pos e.transfer_bytes))
        ∷ [])

-- A dict from the path (or the address) of a device to its event, in the order of insertion.
abbrev pub Snapshot : Type 0
Snapshot = List (String × EventDict)

abbrev pub has_path : String → Snapshot → Bool
has_path path = any (λ e. e.0 == path)

-- `devices[path] = evt`: a path that is there keeps its place.
unfoldable pub put : String → EventDict → Snapshot → Snapshot
put path evt devices =
    if has_path path devices
    then update_where (λ e. e.0 == path) (λ e. (e.0, evt)) devices
    else devices ++ (path, evt) ∷ []

-- `_utcnow()`, as it answers while the event of the given path is made.
abbrev pub Clock : Type 0
Clock = String → String

abbrev pub disconnect_evt : Clock → String × EventDict → EventDict
disconnect_evt utcnow (path, evt) = record evt {
  event_type = disconnected;
  timestamp = utcnow path;
}

abbrev pub event_of : String × EventDict → EventDict
event_of e = e.1

-- The events that one round of the loop hands to the callback, in order.
unfoldable pub poll_events : Clock → Snapshot → Snapshot → List EventDict
poll_events utcnow previous current =
    map event_of (select (λ e. not (has_path e.0 previous)) current)
    ++ map (disconnect_evt utcnow) (select (λ e. not (has_path e.0 current)) previous)

-- The events of a round and those of the later ones.
abbrev pub after_round : List EventDict → Option (List EventDict) → Option (List EventDict)
after_round events none = none
after_round events (some later) = some (events ++ later)

-- The loop before its round n: `stop n` is the stop event as the loop reads it there, and
-- `snapshots n` is what the n-th listing of the devices returns. `none` is a run that has not come
-- to its end.
module _ (clock : ℕ → Clock) (stop : ℕ → Bool) (snapshots : ℕ → Snapshot) where
  unfoldable pub poll_from : ℕ → ℕ → Snapshot → Option (List EventDict)
  poll_from zero n previous = none
  poll_from (suc fuel) n previous =
      let rest = poll_from fuel (suc n) (snapshots n) in
      if stop n then some [] else after_round (poll_events (clock n) previous (snapshots n)) rest

  unfoldable pub poll_monitor_loop : ℕ → Option (List EventDict)
  unfolding poll_from
  poll_monitor_loop fuel = poll_from fuel 1 (snapshots 0)
