-- ===== src/Schema/Requests.antt =====
-- The requests whose events are handled.
use mathlib.Core.Option.{some_inj}
use insider_threat_detection.Common.{
  [], ◌∷◌, >>=-eq-some, zero, suc, ◌≡◌, refl, ◌≢◌, ◌↔◌, Bool, true, false, Option, none, some, List,
  if◌then◌else◌,
}
use insider_threat_detection.Common.Int.{pos, negsuc}
use insider_threat_detection.Json.{
  Json, Items, nil, cons, null, bool, num, float, str, arr, obj, get, dict_of, Fields,
}
use insider_threat_detection.Schema.{
  Reading, DeviceEvent, accepted, bad_request, raised, validate, validate_object, validate_all,
  check_request, check_events, checked_events, has_item,
}

module _ (r : Reading) where
  -- The item is an object that the schema takes, as this event.
  abbrev pub IsEventOf : Json → DeviceEvent → Type 0
  IsEventOf v e = (fields : Fields) × (v ≡ obj fields) × (validate r (dict_of fields) ≡ some e)

  -- As many events as items, each the one of the item at its place.
  abbrev pub AreEventsOf : Items → List DeviceEvent → Type 0
  AreEventsOf nil [] = Unit
  AreEventsOf (cons v items) (e ∷ es) = IsEventOf v e × AreEventsOf items es
  AreEventsOf _ _ = ⊥

  validate_object-IsEventOf :
      (v : Json) (e : DeviceEvent) → validate_object r v ≡ some e → IsEventOf v e
  validate_object-IsEventOf (obj fields) e h = (fields, refl, h)
  validate_object-IsEventOf null e h = cc
  validate_object-IsEventOf (bool b) e h = cc
  validate_object-IsEventOf (num n) e h = cc
  validate_object-IsEventOf (float x) e h = cc
  validate_object-IsEventOf (str s) e h = cc
  validate_object-IsEventOf (arr items) e h = cc

  validate_all-AreEventsOf :
      (items : Items) (es : List DeviceEvent)
      → validate_all r items ≡ some es
      → AreEventsOf items es
  unfolding validate_all
  validate_all-AreEventsOf nil es h = rw (← some_inj.0 h) tt
  validate_all-AreEventsOf (cons v items) es h =
      let (e, valid, h1) = >>=-eq-some (validate_object r v) _ h in
      let (rest, all_valid, h2) = >>=-eq-some (validate_all r items) _ h1 in
      rw (← some_inj.0 h2)
        (validate_object-IsEventOf v e valid, validate_all-AreEventsOf items rest all_valid)

  AreEventsOf-validate_all :
      (items : Items) (es : List DeviceEvent)
      → AreEventsOf items es
      → validate_all r items ≡ some es
  unfolding validate_all
  AreEventsOf-validate_all nil [] a = refl
  AreEventsOf-validate_all nil (e ∷ es) a = absurd a
  AreEventsOf-validate_all (cons v items) [] a = absurd a
  AreEventsOf-validate_all (cons v items) (e ∷ es) ((fields, same, valid), a) =
      rw (same, valid, AreEventsOf-validate_all items es a) refl

  pub IsValid-checked :
      (o : Option (List DeviceEvent)) (es : List DeviceEvent)
      → checked_events o ≡ accepted es
      → o ≡ some es
  IsValid-checked none es e = cc
  IsValid-checked (some fs) es e = cc

  check_events-accepted :
      (o : Option Json) (es : List DeviceEvent)
      → check_events r o ≡ accepted es
      → (items : Items) × (o ≡ some (arr items)) × (validate_all r items ≡ some es)
  check_events-accepted none es e = cc
  check_events-accepted (some null) es e = cc
  check_events-accepted (some (bool b)) es e = cc
  check_events-accepted (some (num n)) es e = cc
  check_events-accepted (some (float x)) es e = cc
  check_events-accepted (some (str s)) es e = cc
  check_events-accepted (some (obj fields)) es e = cc
  check_events-accepted (some (arr items)) es e =
      (items, refl, IsValid-checked (validate_all r items) es e)

  -- A request whose events are handled has a JSON object for a body, the object has a list under
  -- "events", and the events that are handled are those of its items.
  pub record IsAccepted (raw : Option Json) (es : List DeviceEvent) : Type 0 where
    pub fields : Fields
    pub items : Items
    pub body : raw ≡ some (obj fields)
    pub listed : get "events" (dict_of fields) ≡ some (arr items)
    pub validated : AreEventsOf items es

  IsAccepted-object :
      (fields : Fields) (es : List DeviceEvent)
      → check_events r (get "events" (dict_of fields)) ≡ accepted es
      → IsAccepted (some (obj fields)) es
  IsAccepted-object fields es e =
      let (items, listed, validated) = check_events-accepted (get "events" (dict_of fields)) es e in
      record {
        fields = fields;
        items = items;
        body = refl;
        listed = listed;
        validated = validate_all-AreEventsOf items es validated;
      }

  refused_if :
      (b : Bool) (es : List DeviceEvent) → (if b then raised else bad_request) ≢ accepted es
  refused_if true es e = cc
  refused_if false es e = cc

  accepted_request :
      (raw : Option Json) (es : List DeviceEvent)
      → check_request r raw ≡ accepted es
      → IsAccepted raw es
  unfolding check_request
  accepted_request none es e = cc
  accepted_request (some null) es e = cc
  accepted_request (some (bool b)) es e = absurd (refused_if b es e)
  accepted_request (some (num (pos zero))) es e = cc
  accepted_request (some (num (pos (suc n)))) es e = cc
  accepted_request (some (num (negsuc n))) es e = cc
  accepted_request (some (float (pos zero))) es e = cc
  accepted_request (some (float (pos (suc n)))) es e = cc
  accepted_request (some (float (negsuc n))) es e = cc
  accepted_request (some (str s)) es e = absurd (refused_if _ es e)
  accepted_request (some (arr items)) es e = absurd (refused_if (has_item "events" items) es e)
  accepted_request (some (obj fields)) es e = IsAccepted-object fields es e

  request_accepted :
      (raw : Option Json) (es : List DeviceEvent)
      → IsAccepted raw es
      → check_request r raw ≡ accepted es
  unfolding check_request
  request_accepted raw es a =
      rw (a.body, a.listed, AreEventsOf-validate_all a.items es a.validated) refl

  -- The events of a request are handled exactly if its body is an object with a list under "events",
  -- every item of which is an object that the schema takes, and the events that are handled are as
  -- many as the items, each the validated one of the item at its place. So one item that is not valid
  -- keeps all from being handled.
  pub check_request-accepted :
      (raw : Option Json) (es : List DeviceEvent)
      → (check_request r raw ≡ accepted es) ↔ IsAccepted raw es
  check_request-accepted raw es = (λ e. accepted_request raw es e, λ a. request_accepted raw es a)
