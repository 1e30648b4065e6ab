-- ===== src/Normalized.antt =====
-- server/normalized_event.py: an event in the canonical form.
use mathlib.Core.Option.{some_inj}
use insider_threat_detection.Common.{
  zero, String, ◌≡◌, refl, ap, ◌∙◌, Option, none, some, ◌==◌, if◌then◌else◌, is_empty, ◌>>=◌,
}
use insider_threat_detection.Common.Int.{pos}
use insider_threat_detection.Json.{Json, Dict, get, str, nil, cons, end, field}
use insider_threat_detection.Event.{
  EventType, connected, disconnected, data_transfer, event_type_text,
}
use insider_threat_detection.Monitor.{EventDict, peripheral_entry, to_dict}

pub data SourceType : Type 0 where
  usb bluetooth : SourceType

-- A confidence, and how `float` and the range of the field read one (`none` where either raises); an
-- absent one is 1.0.
pub record Confidences : Type 1 where
  pub Confidence : Type 0
  pub confidence_of : Option Json → Option Confidence

abbrev pub action_of : Option Json → EventType
action_of none = connected
action_of (some (str s)) =
    if s == "connected"
    then connected
    else if s == "disconnected"
    then disconnected
    else data_transfer
action_of (some _) = data_transfer

abbrev pub source_type_of : Option Json → SourceType
source_type_of (some (str s)) = if s == "bluetooth" then bluetooth else usb
source_type_of _ = usb

-- A field that Pydantic wants to be a text.
abbrev pub text_or : String → Option Json → Option String
text_or default none = some default
text_or default (some (str s)) = some s
text_or default (some _) = none

-- `event.get("timestamp") or …`: an empty value is as good as none, and Pydantic wants a text.
abbrev pub time_or : String → Option Json → Option String
time_or now none = some now
time_or now (some Json.null) = some now
time_or now (some (Json.bool b)) = if b then none else some now
time_or now (some (Json.num (pos zero))) = some now
time_or now (some (Json.num n)) = none
time_or now (some (Json.float (pos zero))) = some now
time_or now (some (Json.float x)) = none
time_or now (some (str s)) = some (if is_empty s then now else s)
time_or now (some (Json.arr nil)) = some now
time_or now (some (Json.arr (cons v items))) = none
time_or now (some (Json.obj end)) = some now
time_or now (some (Json.obj (field k v fields))) = none

module _ (c : Confidences) where
  pub record NormalizedEvent : Type 0 where
    pub actor : String
    pub device_id : String
    pub action : EventType
    pub source_type : SourceType
    pub raw : Dict
    pub confidence : c.Confidence
    pub timestamp : String
    pub agent_id : String

  abbrev pub normalized : Dict → String → String → c.Confidence → String → NormalizedEvent
  normalized event hostname device confidence time = record {
    actor = hostname;
    device_id = device;
    action = action_of (get "event_type" event);
    source_type = source_type_of (get "source_type" event);
    raw = event;
    confidence = confidence;
    timestamp = time;
    agent_id = hostname;
  }

  -- `none` is an exception.
  unfoldable pub normalize_event : String → Dict → Option NormalizedEvent
  normalize_event now event = text_or "unknown" (get "hostname" event) >>= λ hostname.
      text_or "" (get "device_id" event) >>= λ device.
      c.confidence_of (get "confidence" event) >>= λ confidence.
      time_or now (get "timestamp" event) >>= λ time.
      some (normalized event hostname device confidence time)

  built_parts :
      (event : Dict) (h d : Option String) (k : Option c.Confidence) (time : Option String)
      (n : NormalizedEvent)
      → (h >>= λ h'. d >>= λ d'. k >>= λ k'. time >>= λ t'. some (normalized event h' d' k' t'))
        ≡ some n
      → (n.action ≡ action_of (get "event_type" event))
        × (n.source_type ≡ source_type_of (get "source_type" event))
  built_parts event none d k time n e = cc
  built_parts event (some h) none k time n e = cc
  built_parts event (some h) (some d) none time n e = cc
  built_parts event (some h) (some d) (some k) none n e = cc
  built_parts event (some h) (some d) (some k) (some t) n e =
      let made = some_inj.0 e in rw (← made) (refl, refl)

  normalized_parts :
      (now : String) (event : Dict) (n : NormalizedEvent)
      → normalize_event now event ≡ some n
      → (n.action ≡ action_of (get "event_type" event))
        × (n.source_type ≡ source_type_of (get "source_type" event))
  unfolding normalize_event
  normalized_parts now event n e =
      built_parts event (text_or "unknown" (get "hostname" event))
        (text_or "" (get "device_id" event)) (c.confidence_of (get "confidence" event))
        (time_or now (get "timestamp" event)) n e

  get_source_type :
      (o : Option String) (d : Dict)
      → get "source_type" (peripheral_entry o d) ≡ get "source_type" d
  get_source_type none d = refl
  get_source_type (some kind) d = refl

  action_of-text : (kind : EventType) → action_of (some (str (event_type_text kind))) ≡ kind
  action_of-text connected = refl
  action_of-text disconnected = refl
  action_of-text data_transfer = refl

  -- An event of an agent keeps its type, and its source is taken to be USB, also if the event says
  -- that it comes from the Bluetooth monitor.
  pub normalize_event-usb :
      (now : String) (e : EventDict) (n : NormalizedEvent)
      → normalize_event now (to_dict e) ≡ some n
      → (n.action ≡ e.event_type) × (n.source_type ≡ usb)
  unfolding to_dict
  normalize_event-usb now e n made =
      let (action, source) = normalized_parts now (to_dict e) n made in
      (
        action ∙ action_of-text e.event_type,
        source ∙ ap source_type_of (get_source_type e.peripheral_type _),
      )
