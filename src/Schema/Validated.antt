-- ===== src/Schema/Validated.antt =====
-- What an event that was validated is like.
use Prim.Native.String.{count}
use mathlib.Core.Option.{some_inj}
use insider_threat_detection.Common.{
  taken_if, dropped_if, ℕ, String, ◌≡◌, refl, sym, ap, ◌∙◌, inl, inr, true, Option, none, some,
  List, [], ◌∷◌, Bool-cases, ◌>>=◌, All, select-select,
}
use insider_threat_detection.Common.Int.{pos}
use insider_threat_detection.Json.{
  Json, Items, null, bool, num, float, str, arr, obj, nil, cons, Dict, get, dict_of,
}
use insider_threat_detection.Event.{
  EventType, connected, disconnected, data_transfer, event_type_text,
}
use insider_threat_detection.Schema.{
  Reading, DeviceEvent, in_range, event_type_of, natural, extra_fields, strip_whitespace,
  coerce_none_to_empty, transferred, build_validated, validate, model_dump, validate_object,
  validate_all,
}

pub event_type_of-text :
    (kind : EventType) → event_type_of (some (str (event_type_text kind))) ≡ some kind
event_type_of-text connected = refl
event_type_of-text disconnected = refl
event_type_of-text data_transfer = refl

module _ (r : Reading) where
  abbrev pub IsStripped : String → Type 0
  IsStripped s = r.strip s ≡ s

  -- The event keeps to the schema: its texts are stripped, the two that it must have are of the
  -- allowed lengths, and its extra fields are none of the declared ones.
  pub record IsValid (e : DeviceEvent) : Type 0 where
    pub device_id : IsStripped e.device_id × (in_range 1 128 (count e.device_id) ≡ true)
    pub hostname : IsStripped e.hostname × (in_range 1 256 (count e.hostname) ≡ true)
    pub serial : IsStripped e.serial
    pub manufacturer : IsStripped e.manufacturer
    pub product : IsStripped e.product
    pub bus_path : IsStripped e.bus_path
    pub timestamp : IsStripped e.timestamp
    pub extra : extra_fields e.extra ≡ e.extra

  strip_whitespace-valid :
      (most : ℕ) (v : Option Json) (s : String)
      → strip_whitespace r most v ≡ some s
      → IsStripped s × (in_range 1 most (count s) ≡ true)
  strip_whitespace-valid most none s e = cc
  strip_whitespace-valid most (some null) s e = cc
  strip_whitespace-valid most (some (bool b)) s e = cc
  strip_whitespace-valid most (some (num n)) s e = cc
  strip_whitespace-valid most (some (float x)) s e = cc
  strip_whitespace-valid most (some (arr items)) s e = cc
  strip_whitespace-valid most (some (obj fields)) s e = cc
  strip_whitespace-valid most (some (str t)) s e =
      elim (Bool-cases (in_range 1 most (count (r.strip t)))) [
        | inl fits ↦
            let kept =
              some_inj.0
                (sym (taken_if (in_range 1 most (count (r.strip t))) (r.strip t) fits) ∙ e) in
            (rw (← kept) (r.strip_idem t), rw (← kept) fits)
        | inr unfit ↦
            let gone = dropped_if (in_range 1 most (count (r.strip t))) (r.strip t) unfit in cc
      ]

  coerce-IsStripped : (v : Option Json) → IsStripped (coerce_none_to_empty r v)
  coerce-IsStripped none = r.strip_nil
  coerce-IsStripped (some null) = r.strip_nil
  coerce-IsStripped (some (bool b)) = r.strip_idem _
  coerce-IsStripped (some (num n)) = r.strip_idem _
  coerce-IsStripped (some (float x)) = r.strip_idem _
  coerce-IsStripped (some (str s)) = r.strip_idem _
  coerce-IsStripped (some (arr items)) = r.strip_idem _
  coerce-IsStripped (some (obj fields)) = r.strip_idem _

  validated_parts :
      (d : Dict) (k : Option EventType) (i h : Option String) (b : Option ℕ) (e : DeviceEvent)
      → (k >>= λ kind. i >>= λ device.
          h >>= λ host. b >>= λ bytes. some (build_validated r d kind device host bytes))
        ≡ some e
      → (kind : EventType) × (device : String) × (host : String) × (bytes : ℕ) × (i ≡ some device)
        × (h ≡ some host)
        × (build_validated r d kind device host bytes ≡ e)
  validated_parts d none i h b e v = cc
  validated_parts d (some kind) none h b e v = cc
  validated_parts d (some kind) (some device) none b e v = cc
  validated_parts d (some kind) (some device) (some host) none e v = cc
  validated_parts d (some kind) (some device) (some host) (some bytes) e v =
      (kind, device, host, bytes, refl, refl, some_inj.0 v)

  cons_parts :
      (a : Option DeviceEvent) (b : Option (List DeviceEvent)) (es : List DeviceEvent)
      → (a >>= λ event. b >>= λ events. some (event ∷ events)) ≡ some es
      → (event : DeviceEvent) × (events : List DeviceEvent) × (a ≡ some event)
        × (b ≡ some events)
        × (event ∷ events ≡ es)
  cons_parts none b es v = cc
  cons_parts (some event) none es v = cc
  cons_parts (some event) (some events) es v = (event, events, refl, refl, some_inj.0 v)

  -- An event that validation returns keeps to the schema: its texts are stripped, the device id
  -- has from 1 to 128 characters and the host name from 1 to 256, and none of its extra fields has
  -- the name of a declared one.
  pub validate-IsValid : (d : Dict) (e : DeviceEvent) → validate r d ≡ some e → IsValid e
  unfolding validate
  validate-IsValid d e v =
      let (kind, device, host, bytes, device_ok, host_ok, same) =
        validated_parts d (event_type_of (get "event_type" d))
          (strip_whitespace r 128 (get "device_id" d)) (strip_whitespace r 256 (get "hostname" d))
          (transferred r (get "transfer_bytes" d)) e v in
      rw (← same) (record {
        device_id = strip_whitespace-valid 128 (get "device_id" d) device device_ok;
        hostname = strip_whitespace-valid 256 (get "hostname" d) host host_ok;
        serial = coerce-IsStripped (get "serial" d);
        manufacturer = coerce-IsStripped (get "manufacturer" d);
        product = coerce-IsStripped (get "product" d);
        bus_path = coerce-IsStripped (get "bus_path" d);
        timestamp = coerce-IsStripped (get "timestamp" d);
        extra = select-select _ _ d (λ x p. p);
      })

  coerce_stripped : (s : String) → IsStripped s → coerce_none_to_empty r (some (str s)) ≡ s
  coerce_stripped s stripped = ap r.strip (r.text_of_str s) ∙ stripped

  strip_whitespace_stripped :
      (most : ℕ) (s : String)
      → IsStripped s
      → in_range 1 most (count s) ≡ true
      → strip_whitespace r most (some (str s)) ≡ some s
  strip_whitespace_stripped most s stripped fits = rw (stripped, fits) refl

  pub validate-build :
      (d : Dict) (kind : EventType) (device host : String) (bytes : ℕ)
      → event_type_of (get "event_type" d) ≡ some kind
      → strip_whitespace r 128 (get "device_id" d) ≡ some device
      → strip_whitespace r 256 (get "hostname" d) ≡ some host
      → transferred r (get "transfer_bytes" d) ≡ some bytes
      → validate r d ≡ some (build_validated r d kind device host bytes)
  unfolding validate
  validate-build d kind device host bytes k i h b = rw (k, i, h, b) refl

  -- Validation of the dict of an event that keeps to the schema returns the event.
  pub validate-model_dump : (e : DeviceEvent) → IsValid e → validate r (model_dump e) ≡ some e
  unfolding model_dump
  validate-model_dump e ok =
      validate-build (model_dump e) e.event_type e.device_id e.hostname e.transfer_bytes
        (event_type_of-text e.event_type)
        (strip_whitespace_stripped 128 e.device_id ok.device_id.0 ok.device_id.1)
        (strip_whitespace_stripped 256 e.hostname ok.hostname.0 ok.hostname.1)
        (ap (λ o. o >>= natural) (r.int_of_num (pos e.transfer_bytes)))
      ∙ rw
          (
            coerce_stripped e.serial ok.serial,
            coerce_stripped e.manufacturer ok.manufacturer,
            coerce_stripped e.product ok.product,
            coerce_stripped e.bus_path ok.bus_path,
            coerce_stripped e.timestamp ok.timestamp,
            ok.extra,
          )
          refl

  nil_inj : (es : List DeviceEvent) → Path (Option (List DeviceEvent)) (some []) (some es) → [] ≡ es
  nil_inj es e = some_inj.0 e

  validate_object-IsValid : (v : Json) (e : DeviceEvent) → validate_object r v ≡ some e → IsValid e
  validate_object-IsValid (obj fields) e v = validate-IsValid (dict_of fields) e v
  validate_object-IsValid null e v = cc
  validate_object-IsValid (bool b) e v = cc
  validate_object-IsValid (num n) e v = cc
  validate_object-IsValid (float x) e v = cc
  validate_object-IsValid (str s) e v = cc
  validate_object-IsValid (arr items) e v = cc

  pub validate_all-IsValid :
      (items : Items) (es : List DeviceEvent) → validate_all r items ≡ some es → All IsValid es
  unfolding validate_all
  validate_all-IsValid nil es v = rw (← nil_inj es v) tt
  validate_all-IsValid (cons x items) es v =
      let (e, rest, first_ok, rest_ok, same) =
        cons_parts (validate_object r x) (validate_all r items) es v in
      rw (← same) (validate_object-IsValid x e first_ok, validate_all-IsValid items rest rest_ok)
