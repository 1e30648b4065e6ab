-- ===== src/Monitor/Usb.antt =====
-- agent/monitor/usb_monitor.py: the events of the sources, and the listings of the polling loop.
use text.Mathlib.Text.{find?}
use Prim.Native.String.{◌++◌ as append}
use insider_threat_detection.Common.{
  ℕ, String, Bool, ◌&&◌, Option, none, some, List, [], ◌∷◌, ◌==◌, if◌then◌else◌, is_empty, ◌>>=◌,
  is_some,
}
use insider_threat_detection.Event.{EventType, connected, disconnected}
use insider_threat_detection.Monitor.{EventDict, Snapshot, Clock, put}

-- `str.strip`, `str.isdigit`, and `int` of a text, where `none` is a ValueError.
pub record TextReading : Type 0 where
  pub strip : String → String
  pub is_digit : String → Bool
  pub int : String → Option ℕ

-- `x or y` on texts.
abbrev pub or_text : String → String → String
or_text x y = if is_empty x then y else x

-- `x or ""` on an attribute that may be None.
abbrev pub or_empty : Option String → String
or_empty none = ""
or_empty (some x) = x

-- `device.get(name, default)`
abbrev pub get_default : String → String → List (String × String) → String
get_default name default [] = default
get_default name default ((n, x) ∷ properties) =
    if n == name then x else get_default name default properties

-- `f"{vendor_id}:{product_id}"`
abbrev pub joined_ids : String → String → String
joined_ids vendor product = append vendor (append ":" product)

abbrev pub build_event :
    String → String → EventType → String → String → String → String → String → ℕ → EventDict
build_event host now kind device serial maker name path transferred = record {
  event_type = kind;
  peripheral_type = none;
  device_id = device;
  serial = serial;
  manufacturer = maker;
  product = name;
  bus_path = path;
  timestamp = now;
  hostname = host;
  transfer_bytes = transferred;
}

-- A pyudev device: its properties, its sys_path, and the file of its byte counter.
pub record UdevDevice : Type 0 where
  pub properties : List (String × String)
  pub sys_path : Option String
  pub statistics : Option String

-- The directory of a device in /sys/bus/usb/devices; an attribute that cannot be read is `none`.
pub record SysfsDevice : Type 0 where
  pub dev_path : String
  pub id_vendor : Option String
  pub id_product : Option String
  pub serial_attr : Option String
  pub manufacturer_attr : Option String
  pub product_attr : Option String

-- A row of Win32_DiskDrive.
pub record Disk : Type 0 where
  pub interface_type : Option String
  pub pnp_device_id : Option String
  pub wmi_device_id : Option String
  pub serial_number : Option String
  pub maker : Option String
  pub model : Option String

module _ (r : TextReading) (host : String) where
  abbrev pub parse_sysfs_attr : Option String → String
  parse_sysfs_attr none = ""
  parse_sysfs_attr (some text) = r.strip text

  abbrev pub udev_device_id : UdevDevice → String
  udev_device_id d =
      joined_ids (get_default "ID_VENDOR_ID" "0000" d.properties)
        (get_default "ID_MODEL_ID" "0000" d.properties)

  abbrev pub udev_serial : UdevDevice → String
  udev_serial d =
      or_text (get_default "ID_SERIAL_SHORT" "" d.properties)
        (get_default "ID_SERIAL" "" d.properties)

  -- `none` is an exception of `int`.
  abbrev pub counter : String → Option ℕ
  counter raw = if r.is_digit raw then r.int raw else some 0

  unfoldable pub read_udev_device : String → UdevDevice → Option EventDict
  read_udev_device now d = counter (parse_sysfs_attr d.statistics) >>= λ transferred. some (
      build_event host now connected (udev_device_id d) (udev_serial d)
        (or_text (get_default "ID_VENDOR" "" d.properties)
          (get_default "ID_VENDOR_FROM_DATABASE" "" d.properties))
        (or_text (get_default "ID_MODEL" "" d.properties)
          (get_default "ID_MODEL_FROM_DATABASE" "" d.properties))
        (or_empty d.sys_path) transferred)

  -- What the loop over udev's messages hands to the callback, the stop event unset: an exception is
  -- logged.
  unfoldable pub udev_event : String → String → UdevDevice → Option EventDict
  unfolding read_udev_device
  udev_event now action d =
      if action == "add"
      then read_udev_device now d
      else if action == "remove"
      then some (
          build_event host now disconnected (udev_device_id d) (udev_serial d)
            (get_default "ID_VENDOR" "" d.properties) (get_default "ID_MODEL" "" d.properties)
            (or_empty d.sys_path) 0)
      else none

  abbrev pub sysfs_id : Option String → String
  sysfs_id attr = or_text (parse_sysfs_attr attr) "0000"

  abbrev pub is_hub : SysfsDevice → Bool
  is_hub d = sysfs_id d.id_vendor == "0000" && sysfs_id d.id_product == "0000"

  abbrev pub sysfs_event : Clock → SysfsDevice → EventDict
  sysfs_event utcnow d =
      build_event host (utcnow d.dev_path) connected
        (joined_ids (sysfs_id d.id_vendor) (sysfs_id d.id_product)) (parse_sysfs_attr d.serial_attr)
        (parse_sysfs_attr d.manufacturer_attr) (parse_sysfs_attr d.product_attr) d.dev_path 0

  abbrev pub list_linux_into : Clock → Snapshot → List SysfsDevice → Snapshot
  list_linux_into utcnow devices [] = devices
  list_linux_into utcnow devices (d ∷ ds) =
      list_linux_into utcnow
        (if is_hub d then devices else put d.dev_path (sysfs_event utcnow d) devices) ds

  unfoldable pub list_linux_usb_devices : Clock → List SysfsDevice → Snapshot
  list_linux_usb_devices utcnow ds = list_linux_into utcnow [] ds

abbrev pub is_usb : Disk → Bool
is_usb d = is_some (find? (or_empty d.interface_type) "USB")

abbrev pub disk_id : Disk → String
disk_id d = or_text (or_text (or_empty d.pnp_device_id) (or_empty d.wmi_device_id)) "unknown"

module _ (host : String) where
  abbrev pub disk_event : Clock → EventType → Disk → EventDict
  disk_event utcnow kind d =
      build_event host (utcnow (disk_id d)) kind (disk_id d) (or_empty d.serial_number)
        (or_empty d.maker) (or_empty d.model) (or_empty d.wmi_device_id) 0

  abbrev pub list_windows_into : Clock → Snapshot → List Disk → Snapshot
  list_windows_into utcnow devices [] = devices
  list_windows_into utcnow devices (d ∷ ds) =
      list_windows_into utcnow
        (if is_usb d then put (disk_id d) (disk_event utcnow connected d) devices else devices) ds

  -- The disks are those that the query yields before it ends or raises.
  unfoldable pub list_windows_usb_devices : Clock → List Disk → Snapshot
  list_windows_usb_devices utcnow ds = list_windows_into utcnow [] ds

  unfoldable pub enumerate_and_dispatch_wmi : Clock → EventType → List Disk → List EventDict
  enumerate_and_dispatch_wmi utcnow kind [] = []
  enumerate_and_dispatch_wmi utcnow kind (d ∷ ds) =
      let rest = enumerate_and_dispatch_wmi utcnow kind ds in
      if is_usb d then disk_event utcnow kind d ∷ rest else rest
