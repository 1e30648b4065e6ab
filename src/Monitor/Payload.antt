-- ===== src/Monitor/Payload.antt =====
-- The server's schema on the events of the agent's monitors.
use mathlib.Core.Option.{some_inj}
use Prim.Native.String.{count, ◌++◌ as append}
use text.Mathlib.TextLemmas.{length-append as count_append}
use insider_threat_detection.Common.{
  ℕ, ◌+◌, ◌≤◌, ◌<◌, String, ◌≡◌, refl, ap, ◌∙◌, Bool, true, false, ◌&&◌, Option, none, some, arith,
  ◌==◌, if◌then◌else◌, ◌>>=◌, is_some,
}
use insider_threat_detection.Common.Int.{pos}
use insider_threat_detection.Json.{Dict, get}
use insider_threat_detection.Event.{EventType}
use insider_threat_detection.Monitor.{EventDict, to_dict, peripheral_entry}
use insider_threat_detection.Monitor.Usb.{joined_ids}
use insider_threat_detection.Monitor.Etw.{
  VidPidPattern, EtwRecord, take_text, count_take, vid_pid_or, extract_vid_pid, arrival_kind,
  device_desc, on_event,
}
use insider_threat_detection.Schema.{
  Reading, DeviceEvent, in_range, event_type_of, natural, strip_whitespace, transferred, validate,
}
use insider_threat_detection.Schema.Validated.{event_type_of-text}

module _ (r : Reading) where
  is_some_validated :
      (d : Dict) (kind : EventType) (i h : Option String) (bytes : ℕ)
      → event_type_of (get "event_type" d) ≡ some kind
      → strip_whitespace r 128 (get "device_id" d) ≡ i
      → strip_whitespace r 256 (get "hostname" d) ≡ h
      → transferred r (get "transfer_bytes" d) ≡ some bytes
      → is_some (validate r d) ≡ (is_some i && is_some h)
  unfolding validate
  is_some_validated d kind none h bytes k e f b = rw (k, e) refl
  is_some_validated d kind (some device) none bytes k e f b = rw (k, e, f) refl
  is_some_validated d kind (some device) (some host) bytes k e f b = rw (k, e, f, b) refl

  is_some_if : (b : Bool) (s : String) → is_some (if b then some s else none) ≡ b
  is_some_if true s = refl
  is_some_if false s = refl

  get_peripheral :
      (key : String) (o : Option String) (d : Dict)
      → ("peripheral_type" == key) ≡ false
      → get key (peripheral_entry o d) ≡ get key d
  get_peripheral key none d other = refl
  get_peripheral key (some kind) d other = rw other refl

  -- The server's schema takes an event of an agent exactly if the stripped device id has from 1 to
  -- 128 characters and the stripped host name from 1 to 256.
  pub validate-to_dict :
      (e : EventDict)
      → is_some (validate r (to_dict e)) ≡ (
          in_range 1 128 (count (r.strip e.device_id))
          && in_range 1 256 (count (r.strip e.hostname)))
  unfolding to_dict
  validate-to_dict e =
      is_some_validated (to_dict e) e.event_type _ _ e.transfer_bytes
        (event_type_of-text e.event_type)
        (ap (strip_whitespace r 128) (get_peripheral "device_id" e.peripheral_type _ refl))
        (ap (strip_whitespace r 256) (get_peripheral "hostname" e.peripheral_type _ refl))
        (ap (transferred r) (get_peripheral "transfer_bytes" e.peripheral_type _ refl)
          ∙ ap (λ o. o >>= natural) (r.int_of_num (pos e.transfer_bytes)))
      ∙ rw
          (
            is_some_if (in_range 1 128 (count (r.strip e.device_id))) (r.strip e.device_id),
            is_some_if (in_range 1 256 (count (r.strip e.hostname))) (r.strip e.hostname),
          )
          refl

  not_some : (o : Option DeviceEvent) → is_some o ≡ false → o ≡ none
  not_some none e = refl
  not_some (some x) e = cc

  made-device_id :
      (o : Option EventType) (f : EventType → EventDict) (device : String)
      → ((kind : EventType) → (f kind).device_id ≡ device)
      → (e : EventDict) → (o >>= λ kind. some (f kind)) ≡ some e
      → e.device_id ≡ device
  made-device_id none f device same e made = cc
  made-device_id (some kind) f device same e made =
      let same_event = some_inj.0 made in rw (← same_event) (same kind)

  on_event-device_id :
      (host now : String) (re : VidPidPattern) (rec : EtwRecord) (e : EventDict)
      → on_event host now re rec ≡ some e
      → e.device_id ≡ extract_vid_pid re (device_desc rec)
  unfolding on_event
  on_event-device_id host now re rec e made =
      made-device_id (arrival_kind rec.event_id) _ (extract_vid_pid re (device_desc rec))
        (λ kind. refl) e made

  -- A record of the ETW consumer on a device whose description has no VID and PID, and more than 128
  -- characters left after the cut to 256 and the stripping, becomes an event that the schema does
  -- not take.
  pub on_event-refused :
      (host now : String) (re : VidPidPattern) (rec : EtwRecord) (e : EventDict)
      → on_event host now re rec ≡ some e
      → re.search (device_desc rec) ≡ none
      → 128 < count (r.strip (take_text 256 (device_desc rec)))
      → validate r (to_dict e) ≡ none
  unfolding extract_vid_pid
  on_event-refused host now re rec e made unknown long =
      let cut =
        on_event-device_id host now re rec e made
        ∙ ap (vid_pid_or (take_text 256 (device_desc rec))) unknown in
      not_some (validate r (to_dict e))
        (validate-to_dict e ∙ ground (arith, ap (λ s. count (r.strip s)) cut, long))

count_joined : (vid pid : String) → count (joined_ids vid pid) ≡ count vid + (1 + count pid)
count_joined vid pid =
    count_append vid (append ":" pid) ∙ ap (λ n. count vid + n) (count_append ":" pid)

vid_pid-bound :
    (re : VidPidPattern) (s : String) (o : Option (String × String))
    → re.search s ≡ o
    → count (vid_pid_or (take_text 256 s) o) ≤ 256
vid_pid-bound re s none e = count_take 256 s
vid_pid-bound re s (some (vid, pid)) e =
    let (four, four') = re.groups s vid pid e in omega (arith, count_joined vid pid, four, four')

-- A device id that the ETW monitor makes has at most 256 characters, whatever the device says of
-- itself.
pub extract_vid_pid-bound : (re : VidPidPattern) (s : String) → count (extract_vid_pid re s) ≤ 256
unfolding extract_vid_pid
extract_vid_pid-bound re s = vid_pid-bound re s (re.search s) refl
