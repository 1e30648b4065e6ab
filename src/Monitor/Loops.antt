-- ===== src/Monitor/Loops.antt =====
-- The loops of agent/monitor/usb_monitor.py that wait for notifications, and the choice among them.
use insider_threat_detection.Common.{
  ℕ, zero, suc, ◌+◌, String, ◌≡◌, refl, ap, ◌∙◌, Bool, true, false, ◌||◌, Option, none, some, List,
  [], ◌∷◌, arith, ◌==◌, if◌then◌else◌, any, is_some,
}
use insider_threat_detection.Event.{EventType, connected, disconnected}
use insider_threat_detection.Monitor.{EventDict, Clock, after_round}
use insider_threat_detection.Monitor.Usb.{
  TextReading, UdevDevice, udev_event, Disk, enumerate_and_dispatch_wmi,
}

-- `_select_backend`, for the text of `platform.system()` and whether ETW can be used.
pub data Backend : Type 0 where
  udev etw wmi poll : Backend

unfoldable pub select_backend : String → Bool → Backend
select_backend system etw_available =
    if system == "Linux"
    then udev
    else if system == "Windows"
    then (if etw_available then etw else wmi)
    else poll

-- A message of the netlink monitor, and the stop event and the clock as the loop reads them when the
-- message is there.
pub record Message : Type 0 where
  pub stop_set : Bool
  pub now : String
  pub action : String
  pub device : UdevDevice

abbrev pub emitted : Option EventDict → List EventDict → List EventDict
emitted none rest = rest
emitted (some e) rest = e ∷ rest

module _ (r : TextReading) (host : String) where
  -- The events of the loop over the messages so far, and whether it has returned.
  unfoldable pub udev_monitor_loop : List Message → List EventDict × Bool
  unfolding udev_event
  udev_monitor_loop [] = ([], false)
  udev_monitor_loop (m ∷ ms) =
      let (events, returned) = udev_monitor_loop ms in
      if m.stop_set
      then ([], true)
      else (emitted (udev_event r host m.now m.action m.device) events, returned)

  if_returned :
      (b c : Bool) (p q : List EventDict × Bool)
      → p.1 ≡ true
      → q.1 ≡ c
      → (let z : List EventDict × Bool = if b then p else q in z.1) ≡ (b || c)
  if_returned true c p q e f = e
  if_returned false c p q e f = f

  -- The loop returns exactly if a message comes while the stop event is set: the event alone does
  -- not end it.
  pub udev_monitor_loop-returned :
      (ms : List Message) → (udev_monitor_loop ms).1 ≡ any (λ m. m.stop_set) ms
  unfolding udev_monitor_loop
  udev_monitor_loop-returned [] = refl
  udev_monitor_loop-returned (m ∷ ms) =
      if_returned m.stop_set _ ([], true) _ refl (udev_monitor_loop-returned ms)

-- What a watch of 100 ms comes to. A failed watch is logged, one that timed out is not.
pub data Watch : Type 0 where
  notified timed_out failed : Watch

abbrev pub dispatched : String → Clock → EventType → Watch → List Disk → List EventDict
dispatched host utcnow kind notified disks = enumerate_and_dispatch_wmi host utcnow kind disks
dispatched host utcnow kind _ disks = []

-- Round n of the WMI loop: what its two watches come to, the disks that are listed after each, and
-- the stop event as it is read before the round and between the watches.
pub record WmiRound : Type 0 where
  pub stop_before : Bool
  pub stop_between : Bool
  pub arrival : Watch
  pub disks_then : List Disk
  pub removal : Watch
  pub disks_later : List Disk

module _ (host : String) (clock : ℕ → Clock) (rounds : ℕ → WmiRound) where
  abbrev pub second_half : WmiRound → Clock → Option (List EventDict) → Option (List EventDict)
  second_half w utcnow rest =
      if w.stop_between
      then some []
      else after_round (dispatched host utcnow disconnected w.removal w.disks_later) rest

  -- `none` is a run that has not come to its end.
  unfoldable pub wmi_from : ℕ → ℕ → Option (List EventDict)
  wmi_from zero n = none
  wmi_from (suc fuel) n =
      let rest = wmi_from fuel (suc n) in
      if (rounds n).stop_before
      then some []
      else after_round
          (dispatched host (clock n) connected (rounds n).arrival (rounds n).disks_then)
          (second_half (rounds n) (clock n) rest)

  returned_if :
      (b : Bool) (o : Option (List EventDict))
      → (b ≡ false → is_some o ≡ true)
      → is_some (if b then some [] else o) ≡ true
  returned_if true o h = refl
  returned_if false o h = h refl

  stopped_if :
      (b : Bool) (o : Option (List EventDict))
      → b ≡ true
      → is_some (if b then some [] else o) ≡ true
  stopped_if b o e = rw e refl

  after_round-some :
      (xs : List EventDict) (o : Option (List EventDict)) → is_some (after_round xs o) ≡ is_some o
  after_round-some xs none = refl
  after_round-some xs (some ys) = refl

  -- The WMI loop ends: if the stop event is set when round n + m begins, then m + 1 units of fuel are
  -- enough from round n on.
  pub wmi_from-returns :
      (m n : ℕ) → (rounds (n + m)).stop_before ≡ true → is_some (wmi_from (suc m) n) ≡ true
  unfolding wmi_from
  wmi_from-returns zero n later =
      stopped_if (rounds n).stop_before _ (ap (λ k. (rounds k).stop_before) (omega arith) ∙ later)
  wmi_from-returns (suc m) n later = returned_if (rounds n).stop_before _ (λ going.
      after_round-some
        (dispatched host (clock n) connected (rounds n).arrival (rounds n).disks_then) _
      ∙ returned_if (rounds n).stop_between _ (λ going_on.
        after_round-some
          (dispatched host (clock n) disconnected (rounds n).removal (rounds n).disks_later) _
        ∙ wmi_from-returns m (suc n) (ap (λ k. (rounds k).stop_before) (omega arith) ∙ later)))
