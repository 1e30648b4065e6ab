-- ===== src/Monitor/Listings.antt =====
-- The listings of all four sources give each device an entry of its own key, so that a server can
-- follow the events of the loops over them.
use insider_threat_detection.Common.{
  String, refl, sym, ◌∙◌, inl, inr, Bool, true, false, Option, none, some, List, [], ◌∷◌, ◌==◌,
  if◌then◌else◌, Bool-cases, eq_of_==, update_where, All-append,
}
use insider_threat_detection.Event.{connected}
use insider_threat_detection.Monitor.{EventDict, Snapshot, has_path, Clock, put}
use insider_threat_detection.Monitor.Follow.{IsEntry, IsListing}
use insider_threat_detection.Monitor.Usb.{
  TextReading, SysfsDevice, Disk, is_hub, sysfs_event, list_linux_into, list_linux_usb_devices,
  is_usb, disk_id, disk_event, list_windows_into, list_windows_usb_devices,
}
use insider_threat_detection.Monitor.Bluetooth.{
  DeviceLines, PnpEntity, put_match, bt_event, list_lines_into, list_linux_bt_devices,
  entity_address, list_entities_into, list_windows_bt_devices,
}

module _ (key : EventDict → String) where
  IsListing-update :
      (path : String) (evt : EventDict) (devices : Snapshot)
      → IsEntry key (path, evt)
      → IsListing key devices
      → IsListing key (update_where (λ e. e.0 == path) (λ e. (e.0, evt)) devices)
  IsListing-update path evt [] entry l = tt
  IsListing-update path evt (e ∷ devices) entry l = elim (Bool-cases (e.0 == path)) [
    | inl same ↦ rw same (
      (entry.0 ∙ sym (eq_of_== e.0 path same), entry.1),
      IsListing-update path evt devices entry l.1,
    )
    | inr other ↦ rw other (l.0, IsListing-update path evt devices entry l.1)
  ]

  pub IsListing-put :
      (path : String) (evt : EventDict) (devices : Snapshot)
      → IsEntry key (path, evt)
      → IsListing key devices
      → IsListing key (put path evt devices)
  unfolding put
  IsListing-put path evt devices entry l = elim (Bool-cases (has_path path devices)) [
    | inl known ↦ rw known (IsListing-update path evt devices entry l)
    | inr unknown ↦ rw unknown (All-append (IsEntry key) devices ((path, evt) ∷ []) l (entry, tt))
  ]

  IsListing-if :
      (b : Bool) (xs ys : Snapshot)
      → IsListing key xs
      → IsListing key ys
      → IsListing key (if b then xs else ys)
  IsListing-if true xs ys lx ly = lx
  IsListing-if false xs ys lx ly = ly

IsListing-linux_into :
    (r : TextReading) (host : String) (utcnow : Clock) (ds : List SysfsDevice) (devices : Snapshot)
    → IsListing (λ e. e.bus_path) devices
    → IsListing (λ e. e.bus_path) (list_linux_into r host utcnow devices ds)
IsListing-linux_into r host utcnow [] devices l = l
IsListing-linux_into r host utcnow (d ∷ ds) devices l = IsListing-linux_into r host utcnow ds _ (
    IsListing-if (λ e. e.bus_path) (is_hub r host d) devices _ l
      (IsListing-put (λ e. e.bus_path) d.dev_path (sysfs_event r host utcnow d) devices (refl, refl)
        l))

pub list_linux_usb_devices-IsListing :
    (r : TextReading) (host : String) (utcnow : Clock) (ds : List SysfsDevice)
    → IsListing (λ e. e.bus_path) (list_linux_usb_devices r host utcnow ds)
unfolding list_linux_usb_devices
list_linux_usb_devices-IsListing r host utcnow ds = IsListing-linux_into r host utcnow ds [] tt

IsListing-windows_into :
    (host : String) (utcnow : Clock) (ds : List Disk) (devices : Snapshot)
    → IsListing (λ e. e.device_id) devices
    → IsListing (λ e. e.device_id) (list_windows_into host utcnow devices ds)
IsListing-windows_into host utcnow [] devices l = l
IsListing-windows_into host utcnow (d ∷ ds) devices l = IsListing-windows_into host utcnow ds _ (
    IsListing-if (λ e. e.device_id) (is_usb d) _ devices
      (IsListing-put (λ e. e.device_id) (disk_id d) (disk_event host utcnow connected d) devices
        (refl, refl) l)
      l)

pub list_windows_usb_devices-IsListing :
    (host : String) (utcnow : Clock) (ds : List Disk)
    → IsListing (λ e. e.device_id) (list_windows_usb_devices host utcnow ds)
unfolding list_windows_usb_devices
list_windows_usb_devices-IsListing host utcnow ds = IsListing-windows_into host utcnow ds [] tt

IsListing-put_match :
    (host : String) (utcnow : Clock) (m : Option (String × String)) (devices : Snapshot)
    → IsListing (λ e. e.serial) devices
    → IsListing (λ e. e.serial) (put_match host utcnow m devices)
IsListing-put_match host utcnow none devices l = l
IsListing-put_match host utcnow (some (address, name)) devices l =
    IsListing-put (λ e. e.serial) address (bt_event host utcnow address name) devices (refl, refl) l

IsListing-lines_into :
    (host : String) (re : DeviceLines) (utcnow : Clock) (lines : List String) (devices : Snapshot)
    → IsListing (λ e. e.serial) devices
    → IsListing (λ e. e.serial) (list_lines_into host re utcnow devices lines)
IsListing-lines_into host re utcnow [] devices l = l
IsListing-lines_into host re utcnow (line ∷ lines) devices l =
    IsListing-lines_into host re utcnow lines _
      (IsListing-put_match host utcnow (re.search line) devices l)

pub list_linux_bt_devices-IsListing :
    (host : String) (re : DeviceLines) (utcnow : Clock) (output : Option (List String))
    → IsListing (λ e. e.serial) (list_linux_bt_devices host re utcnow output)
unfolding list_linux_bt_devices
list_linux_bt_devices-IsListing host re utcnow none = tt
list_linux_bt_devices-IsListing host re utcnow (some lines) =
    IsListing-lines_into host re utcnow lines [] tt

IsListing-entities_into :
    (host : String) (utcnow : Clock) (ds : List PnpEntity) (devices : Snapshot)
    → IsListing (λ e. e.serial) devices
    → IsListing (λ e. e.serial) (list_entities_into host utcnow devices ds)
IsListing-entities_into host utcnow [] devices l = l
IsListing-entities_into host utcnow (d ∷ ds) devices l = IsListing-entities_into host utcnow ds _ (
    IsListing-if (λ e. e.serial) _ _ devices
      (IsListing-put (λ e. e.serial) (entity_address host d) _ devices (refl, refl) l) l)

pub list_windows_bt_devices-IsListing :
    (host : String) (utcnow : Clock) (ds : List PnpEntity)
    → IsListing (λ e. e.serial) (list_windows_bt_devices host utcnow ds)
unfolding list_windows_bt_devices
list_windows_bt_devices-IsListing host utcnow ds = IsListing-entities_into host utcnow ds [] tt
