-- ===== src/Monitor/Sessions.antt =====
-- agent/monitor/etw_monitor.py and ebpf_monitor.py: the sessions of the two, what they fall back to, and
-- the listing that the polling loops take for their platform.
use insider_threat_detection.Common.{
  String, ◌≡◌, refl, Bool, true, false, List, [], ◌∷◌, ◌++◌, map, ◌==◌, if◌then◌else◌, any,
}
use insider_threat_detection.Monitor.{EventDict, Snapshot}
use insider_threat_detection.Monitor.Usb.{TextReading}
use insider_threat_detection.Monitor.Etw.{VidPidPattern, EtwRecord, on_event, ebpf_event}
use insider_threat_detection.Monitor.Loops.{
  Message, emitted, udev_monitor_loop, udev_monitor_loop-returned,
}

-- `_snapshot_devices` and `_snapshot_bt_devices`, for what each listing returns.
unfoldable pub snapshot_devices : String → Snapshot → Snapshot → Snapshot
snapshot_devices system on_linux on_windows =
    if system == "Linux" then on_linux else if system == "Windows" then on_windows else []

-- `is_available`: `library` is whether one of the two ETW libraries can be imported.
unfoldable pub is_available : String → Bool → Bool
is_available system library = if system == "Windows" then library else false

-- A record as the consumer hands it over, with the clock then; `malformed` is one on which the
-- callback raises, and the exception is logged.
pub data Delivered : Type 0 where
  delivered : String → EtwRecord → Delivered
  malformed : Delivered

-- What becomes of `etw_monitor_loop`: an ImportError, the WMI loop, or a session with its events.
pub data EtwOutcome : Type 0 where
  import_error : EtwOutcome
  wmi_loop : EtwOutcome
  session : List EventDict → EtwOutcome

module _ (host : String) (re : VidPidPattern) where
  abbrev pub session_events : List Delivered → List EventDict
  session_events [] = []
  session_events (malformed ∷ ds) = session_events ds
  session_events (delivered now rec ∷ ds) = emitted (on_event host now re rec) (session_events ds)

  unfoldable pub etw_monitor_loop : String → Bool → List Delivered → EtwOutcome
  unfolding on_event
  etw_monitor_loop system library ds =
      if system == "Windows"
      then (if library then session (session_events ds) else wmi_loop)
      else import_error

-- A turn of the eBPF loop: the stop event is set, the poll hands over processes with the clock, it is
-- interrupted, or it raises.
pub data EbpfPoll : Type 0 where
  stopped : EbpfPoll
  polled : String → List String → EbpfPoll
  interrupted : EbpfPoll
  failed : EbpfPoll

module _ (r : TextReading) (host : String) where
  abbrev pub joined : List EventDict → List EventDict × Bool → List EventDict × Bool
  joined events (later, returned) = (events ++ later, returned)

  -- `_ebpf_loop`: whether the program could be loaded, the turns so far, and the messages of udev, which
  -- are read if it comes to that. The events in order, and whether the loop has returned.
  unfoldable pub ebpf_turns : List EbpfPoll → List Message → List EventDict × Bool
  unfolding ebpf_event udev_monitor_loop
  ebpf_turns [] ms = ([], false)
  ebpf_turns (stopped ∷ ps) ms = ([], true)
  ebpf_turns (interrupted ∷ ps) ms = ([], true)
  ebpf_turns (failed ∷ ps) ms = udev_monitor_loop r host ms
  ebpf_turns (polled now pids ∷ ps) ms = joined (map (ebpf_event host now) pids) (ebpf_turns ps ms)

  unfoldable pub ebpf_loop : Bool → List EbpfPoll → List Message → List EventDict × Bool
  unfolding ebpf_turns
  ebpf_loop true ps ms = ebpf_turns ps ms
  ebpf_loop false ps ms = udev_monitor_loop r host ms

  -- Whether the turns end the loop, by themselves or in the loop that they fall back to.
  abbrev pub ends : List EbpfPoll → Bool → Bool
  ends [] udev_ends = false
  ends (stopped ∷ ps) udev_ends = true
  ends (interrupted ∷ ps) udev_ends = true
  ends (failed ∷ ps) udev_ends = udev_ends
  ends (polled now pids ∷ ps) udev_ends = ends ps udev_ends

  ebpf_turns-returned :
      (ps : List EbpfPoll) (ms : List Message)
      → (ebpf_turns ps ms).1 ≡ ends ps (any (λ m. m.stop_set) ms)
  unfolding ebpf_turns
  ebpf_turns-returned [] ms = refl
  ebpf_turns-returned (stopped ∷ ps) ms = refl
  ebpf_turns-returned (interrupted ∷ ps) ms = refl
  ebpf_turns-returned (failed ∷ ps) ms = udev_monitor_loop-returned r host ms
  ebpf_turns-returned (polled now pids ∷ ps) ms = ebpf_turns-returned ps ms

  -- The eBPF loop returns exactly if a poll finds the stop event set or is interrupted before one
  -- fails, or if one fails, or the program could not be loaded, and a udev message comes while
  -- the stop event is set.
  pub ebpf_loop-returned :
      (loaded : Bool) (ps : List EbpfPoll) (ms : List Message)
      → (ebpf_loop loaded ps ms).1
        ≡ (if loaded then ends ps (any (λ m. m.stop_set) ms) else any (λ m. m.stop_set) ms)
  unfolding ebpf_loop
  ebpf_loop-returned true ps ms = ebpf_turns-returned ps ms
  ebpf_loop-returned false ps ms = udev_monitor_loop-returned r host ms
