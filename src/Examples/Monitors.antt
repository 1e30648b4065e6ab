-- ===== src/Examples/Monitors.antt =====
-- The monitors, the schema and the blocked queue at concrete devices.
use insider_threat_detection.Common.{
  ℕ, zero, suc, ◌+◌, ◌≤◌, String, ◌≡◌, refl, ◌↔◌, Bool, true, false, ◌&&◌, Option, none, some, List,
  [], ◌∷◌, ◌++◌, arith, leb, length, take, any, is_some,
}
use insider_threat_detection.Common.Int.{ℤ}
use insider_threat_detection.Json.{Json, Dict, str, num}
use insider_threat_detection.Event.{connected, disconnected}
use insider_threat_detection.Monitor.{EventDict, Clock, to_dict, poll_monitor_loop, has_path}
use insider_threat_detection.Monitor.Follow.{follow, poll_monitor_loop-returns}
use insider_threat_detection.Monitor.Usb.{
  TextReading, SysfsDevice, Disk, build_event, list_linux_usb_devices, enumerate_and_dispatch_wmi,
}
use insider_threat_detection.Monitor.Listings.{list_linux_usb_devices-IsListing}
use insider_threat_detection.Monitor.Wmi.{is_listed, told, enumerate_and_dispatch_wmi-follow}
use insider_threat_detection.Monitor.Lifecycle.{
  Worker, new_worker, start, stop, ended, IsReached, begin, after, starts, stops, alive-at_most_one,
  start_after_timeout,
}
use insider_threat_detection.Monitor.Payload.{validate-to_dict}
use insider_threat_detection.Schema.{
  Reading, DeviceEvent, in_range, validate, Checked, accepted, bad_request, raised, check_request,
}
use insider_threat_detection.Schema.Validated.{IsValid, validate-IsValid}
use insider_threat_detection.Schema.Requests.{IsAccepted, check_request-accepted}
use insider_threat_detection.Queue.{empty_queue, put}
use insider_threat_detection.Queue.Fifo.{pending, put-IsQueue, empty_queue-IsQueue}
use insider_threat_detection.Transport.{
  batch_size, Transport, Call, enqueuing, flushing, calls, enqueued,
}
use insider_threat_detection.Transport.Poison.{request_body, IsAnswer, is_refused, calls_blocked}
use insider_threat_detection.Examples.Data.{toy_codec}

abbrev text_of : Json → String
text_of (str s) = s
text_of _ = ""

abbrev int_of : Json → Option ℤ
int_of (num n) = some n
int_of _ = none

abbrev pub toy_reading : Reading
toy_reading = record {
  strip = λ s. s;
  text_of = text_of;
  int_of = int_of;
  strip_idem = λ s. refl;
  strip_nil = refl;
  text_of_str = λ s. refl;
  int_of_num = λ n. refl;
}

abbrev toy_text : TextReading
toy_text = record { strip = λ s. s; is_digit = λ s. false; int = λ s. none }

abbrev stick : SysfsDevice
stick = record {
  dev_path = "/sys/bus/usb/devices/1-2/";
  id_vendor = some "0781";
  id_product = some "5567";
  serial_attr = some "S1";
  manufacturer_attr = none;
  product_attr = some "Stick";
}

-- The stick is there from the second listing on.
abbrev plugged_in : ℕ → List SysfsDevice
plugged_in zero = []
plugged_in (suc n) = stick ∷ []

abbrev noon : Clock
noon = λ path. "2026-01-01T12:00:00Z"

poll_monitor_loop-returns_example :
    (events : List EventDict) × (last : ℕ) × (poll_monitor_loop
        (λ n. noon)
        (λ n. leb 3 n)
        (λ n. list_linux_usb_devices toy_text "desk-1" noon (plugged_in n))
        3
      ≡ some events)
    × (leb 3 (suc last) ≡ true)
    × (follow
          (λ e. e.bus_path)
          stick.dev_path
          events
          (has_path stick.dev_path (list_linux_usb_devices toy_text "desk-1" noon (plugged_in 0)))
        ≡ has_path stick.dev_path (list_linux_usb_devices toy_text "desk-1" noon (plugged_in last)))
poll_monitor_loop-returns_example =
    poll_monitor_loop-returns (λ e. e.bus_path) (λ n. noon) (λ n. leb 3 n)
      (λ n. list_linux_usb_devices toy_text "desk-1" noon (plugged_in n)) (λ utcnow e. refl)
      (λ n. list_linux_usb_devices-IsListing toy_text "desk-1" noon (plugged_in n)) stick.dev_path 2
      refl

abbrev disk : Disk
disk = record {
  interface_type = some "USB";
  pnp_device_id = some "USBSTOR\\1";
  wmi_device_id = none;
  serial_number = none;
  maker = none;
  model = none;
}

enumerate_and_dispatch_wmi-follow_example :
    follow
      (λ e. e.device_id)
      "USBSTOR\\2"
      (enumerate_and_dispatch_wmi "desk-1" noon disconnected (disk ∷ []))
      true
    ≡ told disconnected (is_listed "USBSTOR\\2" (disk ∷ [])) true
enumerate_and_dispatch_wmi-follow_example =
    enumerate_and_dispatch_wmi-follow "desk-1" noon "USBSTOR\\2" disconnected (disk ∷ []) true

abbrev running : Worker
running = start new_worker

running-IsReached : IsReached running
running-IsReached = after begin starts

alive-at_most_one_example : length (start (stop running)).alive ≤ 1
alive-at_most_one_example =
    alive-at_most_one (start (stop running)) (after (after running-IsReached stops) starts)

start_after_timeout_example :
    (start (stop running) ≡ stop running)
    × ((start (stop running)).stop_set ≡ true)
    × ((ended 0 (start (stop running))).alive ≡ [])
unfolding start
start_after_timeout_example = start_after_timeout running 0 running-IsReached refl

abbrev reported : String → EventDict
reported device = build_event "desk-1" "2026-01-01T12:00:00Z" connected device "S1" "m" "p" "1-2" 0

validate-to_dict_example :
    is_some (validate toy_reading (to_dict (reported "0781:5567")))
    ≡ (in_range 1 128 9 && in_range 1 256 6)
validate-to_dict_example = validate-to_dict toy_reading (reported "0781:5567")

abbrev received : DeviceEvent
received = record {
  event_type = connected;
  device_id = "0781:5567";
  hostname = "desk-1";
  serial = "S1";
  manufacturer = "m";
  product = "p";
  bus_path = "1-2";
  timestamp = "2026-01-01T12:00:00Z";
  transfer_bytes = 0;
  extra = [];
}

received-validated : validate toy_reading (to_dict (reported "0781:5567")) ≡ some received
unfolding validate to_dict
received-validated = refl

validate-IsValid_example : IsValid toy_reading received
validate-IsValid_example =
    validate-IsValid toy_reading (to_dict (reported "0781:5567")) received received-validated

check_request-accepted_example :
    (check_request toy_reading (some (request_body (to_dict (reported "0781:5567") ∷ [])))
      ≡ accepted (received ∷ []))
    ↔ IsAccepted toy_reading
        (some (request_body (to_dict (reported "0781:5567") ∷ [])))
        (received ∷ [])
check_request-accepted_example =
    check_request-accepted toy_reading (some (request_body (to_dict (reported "0781:5567") ∷ [])))
      (received ∷ [])

abbrev is_accepted : Checked → Bool
is_accepted (accepted events) = true
is_accepted bad_request = false
is_accepted raised = false

abbrev serve : List Dict → Bool
serve batch = is_accepted (check_request toy_reading (some (request_body batch)))

serve-IsAnswer : IsAnswer toy_reading serve
serve-IsAnswer batch refused = rw refused refl

-- A device without an id waits at the front.
abbrev blocked : Transport toy_codec
blocked = record {
  queue = put toy_codec (to_dict (reported "")) (empty_queue toy_codec);
  delivered = [];
}

abbrev later_calls : List Call
later_calls = flushing serve ∷ enqueuing (to_dict (reported "0781:5567")) ∷ flushing serve ∷ []

blocked-refused :
    any (is_refused toy_reading) (take batch_size (pending toy_codec blocked.queue)) ≡ true
unfolding put validate to_dict
blocked-refused = refl

blocked-room : length (pending toy_codec blocked.queue) + length (enqueued later_calls) ≤ 10
unfolding put
blocked-room = omega arith

calls_blocked_example :
    ((calls toy_codec 10 later_calls blocked).delivered ≡ [])
    × (pending toy_codec (calls toy_codec 10 later_calls blocked).queue
        ≡ pending toy_codec blocked.queue ++ to_dict (reported "0781:5567") ∷ [])
calls_blocked_example =
    calls_blocked toy_reading toy_codec 10 later_calls blocked
      (serve-IsAnswer, (serve-IsAnswer, tt))
      (put-IsQueue toy_codec (to_dict (reported "")) (empty_queue toy_codec)
        (empty_queue-IsQueue toy_codec))
      blocked-refused blocked-room
