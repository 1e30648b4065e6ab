-- ===== src/Schema.antt =====
-- server/schema.py: the validation of an event and of a batch, and the checks that
-- server/routers/events.py makes before it handles the events.
pub mod Validated
pub mod Requests
use Prim.Native.String.{count}
use text.Mathlib.Text.{find?}
use insider_threat_detection.Common.{
  ℕ, zero, String, ◌≡◌, Bool, false, not, ◌&&◌, ◌||◌, Option, none, some, List, [], ◌∷◌, ◌==◌, leb,
  if◌then◌else◌, ◌>>=◌, select, is_some,
}
use insider_threat_detection.Common.Int.{ℤ, pos, negsuc}
use insider_threat_detection.Json.{
  Json, Items, null, bool, num, float, str, arr, obj, nil, cons, Dict, get, dict_of,
}
use insider_threat_detection.Event.{
  EventType, connected, disconnected, data_transfer, event_type_text,
}

-- `str.strip`, `str` of a JSON value, and the integer that Pydantic reads a JSON value as. They are
-- needed to leave a stripped text, the empty text, a text and an integer as they are.
pub record Reading : Type 0 where
  pub strip : String → String
  pub text_of : Json → String
  pub int_of : Json → Option ℤ
  pub strip_idem : (s : String) → strip (strip s) ≡ strip s
  pub strip_nil : strip "" ≡ ""
  pub text_of_str : (s : String) → text_of (str s) ≡ s
  pub int_of_num : (n : ℤ) → int_of (num n) ≡ some n

pub record DeviceEvent : Type 0 where
  pub event_type : EventType
  pub device_id : String
  pub hostname : String
  pub serial : String
  pub manufacturer : String
  pub product : String
  pub bus_path : String
  pub timestamp : String
  pub transfer_bytes : ℕ
  pub extra : Dict

abbrev pub in_range : ℕ → ℕ → ℕ → Bool
in_range least most n = leb least n && leb n most

abbrev pub event_type_of : Option Json → Option EventType
event_type_of (some (str s)) =
    if s == "connected"
    then some connected
    else if s == "disconnected"
    then some disconnected
    else if s == "data_transfer"
    then some data_transfer
    else none
event_type_of _ = none

abbrev pub natural : ℤ → Option ℕ
natural (pos n) = some n
natural (negsuc n) = none

-- `model_config = {"extra": "allow"}`
abbrev pub is_declared : String → Bool
is_declared k =
    k == "event_type"
    || k == "device_id"
    || k == "hostname"
    || k == "serial"
    || k == "manufacturer"
    || k == "product"
    || k == "bus_path"
    || k == "timestamp"
    || k == "transfer_bytes"

abbrev pub extra_fields : Dict → Dict
extra_fields = select (λ e. not (is_declared e.0))

module _ (r : Reading) where
  abbrev pub strip_whitespace : ℕ → Option Json → Option String
  strip_whitespace most (some (str s)) =
      if in_range 1 most (count (r.strip s)) then some (r.strip s) else none
  strip_whitespace most _ = none

  abbrev pub coerce_none_to_empty : Option Json → String
  coerce_none_to_empty none = ""
  coerce_none_to_empty (some null) = ""
  coerce_none_to_empty (some v) = r.strip (r.text_of v)

  abbrev pub transferred : Option Json → Option ℕ
  transferred none = some 0
  transferred (some v) = r.int_of v >>= natural

  abbrev pub build_validated : Dict → EventType → String → String → ℕ → DeviceEvent
  build_validated d kind device host bytes = record {
    event_type = kind;
    device_id = device;
    hostname = host;
    serial = coerce_none_to_empty (get "serial" d);
    manufacturer = coerce_none_to_empty (get "manufacturer" d);
    product = coerce_none_to_empty (get "product" d);
    bus_path = coerce_none_to_empty (get "bus_path" d);
    timestamp = coerce_none_to_empty (get "timestamp" d);
    transfer_bytes = bytes;
    extra = extra_fields d;
  }

  -- `none` is a ValidationError.
  unfoldable pub validate : Dict → Option DeviceEvent
  validate d = event_type_of (get "event_type" d) >>= λ kind.
      strip_whitespace 128 (get "device_id" d) >>= λ device.
      strip_whitespace 256 (get "hostname" d) >>= λ host.
      transferred (get "transfer_bytes" d) >>= λ bytes.
      some (build_validated d kind device host bytes)

  abbrev pub validate_object : Json → Option DeviceEvent
  validate_object (obj fields) = validate (dict_of fields)
  validate_object _ = none

  unfoldable pub validate_all : Items → Option (List DeviceEvent)
  validate_all nil = some []
  validate_all (cons v items) =
      let rest = validate_all items in
      validate_object v >>= λ event. rest >>= λ events. some (event ∷ events)

-- `model_dump()`
unfoldable pub model_dump : DeviceEvent → Dict
model_dump e =
    ("event_type", str (event_type_text e.event_type))
    ∷ ("device_id", str e.device_id)
    ∷ ("hostname", str e.hostname)
    ∷ ("serial", str e.serial)
    ∷ ("manufacturer", str e.manufacturer)
    ∷ ("product", str e.product)
    ∷ ("bus_path", str e.bus_path)
    ∷ ("timestamp", str e.timestamp)
    ∷ ("transfer_bytes", num (pos e.transfer_bytes))
    ∷ e.extra

-- What comes of a request before its events are handled: the events, an answer 400, or an exception
-- of the handler.
pub data Checked : Type 0 where
  accepted : List DeviceEvent → Checked
  bad_request : Checked
  raised : Checked

abbrev pub checked_events : Option (List DeviceEvent) → Checked
checked_events none = bad_request
checked_events (some events) = accepted events

abbrev pub has_item : String → Items → Bool
has_item s nil = false
has_item s (cons (str t) items) = t == s || has_item s items
has_item s (cons _ items) = has_item s items

abbrev pub check_events : Reading → Option Json → Checked
check_events r (some (arr items)) = checked_events (validate_all r items)
check_events r _ = bad_request

-- `"events" not in raw` is a test for a key, an item or a part of a text, and a TypeError on the
-- rest; only a dict has `get`. An empty value is as good as none.
unfoldable pub check_request : Reading → Option Json → Checked
unfolding validate_all
check_request r none = bad_request
check_request r (some null) = bad_request
check_request r (some (bool b)) = if b then raised else bad_request
check_request r (some (num (pos zero))) = bad_request
check_request r (some (num n)) = raised
check_request r (some (float (pos zero))) = bad_request
check_request r (some (float x)) = raised
check_request r (some (str s)) = if is_some (find? s "events") then raised else bad_request
check_request r (some (arr items)) = if has_item "events" items then raised else bad_request
check_request r (some (obj fields)) = check_events r (get "events" (dict_of fields))
