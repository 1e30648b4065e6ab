-- ===== src/Monitor/Bluetooth.antt =====
-- agent/monitor/bt_monitor.py: the events and the listings of the Bluetooth devices.
use text.Mathlib.Text.{find?}
use Prim.Native.String.{◌++◌ as append}
use insider_threat_detection.Common.{
  String, Option, none, some, List, [], ◌∷◌, if◌then◌else◌, is_some,
}
use insider_threat_detection.Event.{EventType, connected}
use insider_threat_detection.Monitor.{EventDict, Snapshot, Clock, put}
use insider_threat_detection.Monitor.Usb.{or_text, or_empty}

-- The pattern `_BT_DEVICE_RE` on a line of `bluetoothctl devices`: the address and the stripped name.
pub record DeviceLines : Type 0 where
  pub search : String → Option (String × String)

-- A row of Win32_PnPEntity.
pub record PnpEntity : Type 0 where
  pub pnp_class : Option String
  pub pnp_device_id : Option String
  pub name : Option String

module _ (host : String) where
  abbrev pub build_bt_event : String → EventType → String → String → String → EventDict
  build_bt_event now kind device name address = record {
    event_type = kind;
    peripheral_type = some "bluetooth";
    device_id = device;
    serial = address;
    manufacturer = "";
    product = name;
    bus_path = append "bt://" address;
    timestamp = now;
    hostname = host;
    transfer_bytes = 0;
  }

  abbrev pub bt_event : Clock → String → String → EventDict
  bt_event utcnow address name =
      build_bt_event (utcnow address) connected (append "bt:" address) name address

  abbrev pub put_match : Clock → Option (String × String) → Snapshot → Snapshot
  put_match utcnow none devices = devices
  put_match utcnow (some (address, name)) devices =
      put address (bt_event utcnow address name) devices

  abbrev pub list_lines_into : DeviceLines → Clock → Snapshot → List String → Snapshot
  list_lines_into re utcnow devices [] = devices
  list_lines_into re utcnow devices (line ∷ lines) =
      list_lines_into re utcnow (put_match utcnow (re.search line) devices) lines

  -- The output of bluetoothctl; `none` where it is missing, fails or takes more than five seconds.
  unfoldable pub list_linux_bt_devices : DeviceLines → Clock → Option (List String) → Snapshot
  list_linux_bt_devices re utcnow none = []
  list_linux_bt_devices re utcnow (some lines) = list_lines_into re utcnow [] lines

  abbrev pub entity_address : PnpEntity → String
  entity_address d = or_text (or_text (or_empty d.pnp_device_id) (or_empty d.name)) "unknown"

  abbrev pub list_entities_into : Clock → Snapshot → List PnpEntity → Snapshot
  list_entities_into utcnow devices [] = devices
  list_entities_into utcnow devices (d ∷ ds) =
      list_entities_into utcnow
        (if is_some (find? (or_empty d.pnp_class) "Bluetooth")
          then put (entity_address d) (bt_event utcnow (entity_address d) (or_empty d.name)) devices
          else devices)
        ds

  -- The rows are those that the query yields before it ends or raises.
  unfoldable pub list_windows_bt_devices : Clock → List PnpEntity → Snapshot
  list_windows_bt_devices utcnow ds = list_entities_into utcnow [] ds
