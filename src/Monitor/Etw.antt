-- ===== src/Monitor/Etw.antt =====
-- agent/monitor/etw_monitor.py and agent/monitor/ebpf_monitor.py: the events that the two make.
use Prim.Native.String.{count, ◌++◌ as append}
use text.Mathlib.TextLemmas.{length-cons, length-nil}
use insider_threat_detection.Common.{
  ℕ, zero, suc, ◌≤◌, String, ◌≡◌, Option, none, some, List, arith, nat_eq, if◌then◌else◌, ◌>>=◌,
}
use insider_threat_detection.Event.{EventType, connected, disconnected}
use insider_threat_detection.Monitor.{EventDict}
use insider_threat_detection.Monitor.Usb.{or_text, get_default, joined_ids, build_event}

-- `_VID_PID_RE.search`, with the two groups in lower case: each is of four characters.
pub record VidPidPattern : Type 0 where
  pub search : String → Option (String × String)
  pub groups : (s vid pid : String) → search s ≡ some (vid, pid) → (count vid ≡ 4) × (count pid ≡ 4)

-- `s[:n]`
unfoldable pub take_text : ℕ → String → String
take_text zero s = ""
take_text (suc n) String.[] = ""
take_text (suc n) (String.◌∷◌ c s) = String.◌∷◌ c (take_text n s)

abbrev pub vid_pid_or : String → Option (String × String) → String
vid_pid_or device_desc none = device_desc
vid_pid_or device_desc (some (vid, pid)) = joined_ids vid pid

unfoldable pub extract_vid_pid : VidPidPattern → String → String
unfolding take_text
extract_vid_pid re device_desc = vid_pid_or (take_text 256 device_desc) (re.search device_desc)

-- A record of the ETW consumer: its Properties, texts, and its EventId.
pub record EtwRecord : Type 0 where
  pub properties : List (String × String)
  pub event_id : ℕ

abbrev pub event_device_arrival : ℕ
event_device_arrival = 400

abbrev pub event_device_removal : ℕ
event_device_removal = 401

abbrev pub arrival_kind : ℕ → Option EventType
arrival_kind event_id =
    if nat_eq event_id event_device_arrival
    then some connected
    else if nat_eq event_id event_device_removal
    then some disconnected
    else none

abbrev pub device_desc : EtwRecord → String
device_desc rec =
    or_text
      (or_text
        (or_text (get_default "DeviceDescription" "" rec.properties)
          (get_default "DeviceId" "" rec.properties))
        (get_default "InstanceId" "" rec.properties))
      "unknown"

module _ (host now : String) where
  -- What the consumer's callback hands on.
  unfoldable pub on_event : VidPidPattern → EtwRecord → Option EventDict
  unfolding extract_vid_pid
  on_event re rec = arrival_kind rec.event_id >>= λ kind. some (
      build_event host now kind (extract_vid_pid re (device_desc rec))
        (get_default "SerialNumber" "" rec.properties)
        (get_default "Manufacturer" "" rec.properties)
        (get_default "DeviceDescription" "" rec.properties) (device_desc rec) 0)

  -- `_handle_event` of the eBPF monitor, for the text of a process id.
  unfoldable pub ebpf_event : String → EventDict
  ebpf_event pid = build_event host now connected "ebpf:unknown" "" "" "" (append "ebpf:pid=" pid) 0

pub count_take : (n : ℕ) (s : String) → count (take_text n s) ≤ n
unfolding take_text
count_take zero s = omega (arith, length-nil)
count_take (suc n) String.[] = omega (arith, length-nil)
count_take (suc n) (String.◌∷◌ c s) = omega (arith, length-cons c (take_text n s), count_take n s)
