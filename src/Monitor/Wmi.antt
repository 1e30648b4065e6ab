-- ===== src/Monitor/Wmi.antt =====
-- What the notifications of the WMI loop say of the devices.
use insider_threat_detection.Common.{
  String, ◌≡◌, refl, ap, ◌∙◌, inl, inr, Bool, false, not, ◌&&◌, ◌||◌, List, [], ◌∷◌, arith, ◌==◌,
  Bool-cases, any,
}
use insider_threat_detection.Event.{EventType, connected, disconnected, data_transfer}
use insider_threat_detection.Monitor.{Clock}
use insider_threat_detection.Monitor.Follow.{observe, follow}
use insider_threat_detection.Monitor.Usb.{
  Disk, is_usb, disk_id, disk_event, enumerate_and_dispatch_wmi,
}

-- Whether the disk k is among those that WMI lists.
abbrev pub is_listed : String → List Disk → Bool
is_listed k = any (λ d. is_usb d && (disk_id d == k))

abbrev pub told : EventType → Bool → Bool → Bool
told connected listed before = before || listed
told disconnected listed before = before && not listed
told data_transfer listed before = before

module _ (host : String) (utcnow : Clock) where
  observe_disk :
      (k : String) (kind : EventType) (d : Disk) (before : Bool)
      → observe (λ e. e.device_id) k (disk_event host utcnow kind d) before
        ≡ told kind (disk_id d == k) before
  observe_disk k connected d before = ground arith
  observe_disk k disconnected d before = ground arith
  observe_disk k data_transfer d before = ground arith

  told-told :
      (kind : EventType) (a b before : Bool)
      → told kind b (told kind a before) ≡ told kind (a || b) before
  told-told connected a b before = ground arith
  told-told disconnected a b before = ground arith
  told-told data_transfer a b before = refl

  told_unlisted : (kind : EventType) (before : Bool) → before ≡ told kind false before
  told_unlisted connected before = ground arith
  told_unlisted disconnected before = ground arith
  told_unlisted data_transfer before = refl

  -- The events that the WMI loop makes of a notification tell of the disks that are listed after
  -- it, and of no other: after an arrival each of them counts as attached, and after a removal
  -- each of them counts as detached, while a disk that is not listed counts as what it did before.
  pub enumerate_and_dispatch_wmi-follow :
      (k : String) (kind : EventType) (ds : List Disk) (before : Bool)
      → follow (λ e. e.device_id) k (enumerate_and_dispatch_wmi host utcnow kind ds) before
        ≡ told kind (is_listed k ds) before
  unfolding enumerate_and_dispatch_wmi
  enumerate_and_dispatch_wmi-follow k kind [] before = told_unlisted kind before
  enumerate_and_dispatch_wmi-follow k kind (d ∷ ds) before = elim (Bool-cases (is_usb d)) [
    | inr other ↦ rw other (enumerate_and_dispatch_wmi-follow k kind ds before)
    | inl usb ↦ rw usb (
        ap (follow (λ e. e.device_id) k (enumerate_and_dispatch_wmi host utcnow kind ds))
          (observe_disk k kind d before)
        ∙ enumerate_and_dispatch_wmi-follow k kind ds (told kind (disk_id d == k) before)
        ∙ told-told kind (disk_id d == k) (is_listed k ds) before)
  ]
