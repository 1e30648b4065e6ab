-- ===== src/Agent/Stored.antt =====
-- agent/transport.py against POST /api/v1/events: an agent and the server that answers its flushes,
-- where no answer is lost on the way.
use mathlib.Core.List.{append_assoc, map-append}
use mathlib.Core.Option.{some_inj}
use insider_threat_detection.Common.{
  ℕ, String, ◌≡◌, refl, sym, ap, ◌∙◌, ◌⊎◌, inl, inr, true, false, Option, none, some, List, [], ◌∷◌,
  ◌++◌, map, nat_eq, select, select-append, Bool-cases, Option-cases, ◌>>=◌,
}
use insider_threat_detection.Json.{Json, Dict}
use insider_threat_detection.Auth.{
  Settings, Outcome, Limiter, get_caller_role, admit, client, status_of, require_api_key,
  rate_limit,
}
use insider_threat_detection.Database.{Env}
use insider_threat_detection.Queue.{Codec, peek}
use insider_threat_detection.Schema.{
  Reading, DeviceEvent, Checked, accepted, bad_request, raised, validate, validate_all,
  check_request,
}
use insider_threat_detection.Schema.Requests.{IsValid-checked}
use insider_threat_detection.Transport.{Transport, batch_size, enqueue, flush, flush_batch}
use insider_threat_detection.Transport.Poison.{
  items_of, request_body, dict_of-fields_of, enqueue-delivered,
}
use insider_threat_detection.Ingest.{Setup, State}
use insider_threat_detection.Ingest.Handler.{Driver, Reply, reply_status, after_checks, post_events}
use insider_threat_detection.Ingest.Handler.Outcomes.{stored_json, dumped}
use insider_threat_detection.Ingest.Handler.Stages.{fits}
use insider_threat_detection.Ingest.Handler.Batches.{handle_events-stored}
use insider_threat_detection.Agent.Keyless.{agent_request, delivers}

module _ (d : Driver) (r : Reading) where
  abbrev pub added : Option DeviceEvent → List DeviceEvent → List DeviceEvent
  added none later = later
  added (some e) later = e ∷ later

  -- What the schema makes of the events that it takes.
  abbrev pub validated : List Dict → List DeviceEvent
  validated [] = []
  validated (event ∷ events) = added (validate r event) (validated events)

  -- The JSON that is stored for reported events: of those that the schema takes and the table fits.
  abbrev pub stored_of : List Dict → List Json
  stored_of events = map dumped (select (fits d) (validated events))

  added-append :
      (o : Option DeviceEvent) (es fs : List DeviceEvent) → added o (es ++ fs) ≡ added o es ++ fs
  added-append none es fs = refl
  added-append (some e) es fs = refl

  validated-append : (xs ys : List Dict) → validated (xs ++ ys) ≡ validated xs ++ validated ys
  validated-append [] ys = refl
  validated-append (x ∷ xs) ys =
      ap (added (validate r x)) (validated-append xs ys)
      ∙ added-append (validate r x) (validated xs) (validated ys)

  stored_of-append : (xs ys : List Dict) → stored_of (xs ++ ys) ≡ stored_of xs ++ stored_of ys
  stored_of-append xs ys =
      ap (λ es. map dumped (select (fits d) es)) (validated-append xs ys)
      ∙ ap (map dumped) (select-append (fits d) (validated xs) (validated ys))
      ∙ map-append dumped (select (fits d) (validated xs)) _

  validated_added :
      (o : Option DeviceEvent) (rest : Option (List DeviceEvent)) (es later : List DeviceEvent)
      → (o >>= λ event. rest >>= λ events. some (event ∷ events)) ≡ some es
      → ((fs : List DeviceEvent) → rest ≡ some fs → later ≡ fs)
      → added o later ≡ es
  validated_added none rest es later e same = cc
  validated_added (some event) none es later e same = cc
  validated_added (some event) (some fs) es later e same =
      ap (λ xs. event ∷ xs) (same fs refl) ∙ some_inj.0 e

  validate_all-validated :
      (batch : List Dict) (es : List DeviceEvent)
      → validate_all r (items_of batch) ≡ some es
      → validated batch ≡ es
  unfolding validate_all
  validate_all-validated [] es e = some_inj.0 e
  validate_all-validated (x ∷ xs) es e =
      let same = rw (dict_of-fields_of x) at e in
      validated_added (validate r x) (validate_all r (items_of xs)) es (validated xs) same
        (validate_all-validated xs)

  accepted-validated :
      (batch : List Dict) (es : List DeviceEvent)
      → check_request r (some (request_body batch)) ≡ accepted es
      → validated batch ≡ es
  unfolding check_request
  accepted-validated batch es e =
      validate_all-validated batch es (IsValid-checked r (validate_all r (items_of batch)) es e)

module _ (d : Driver) (u : Setup) (r : Reading) (settings : Settings) where
  -- The server turns a batch down and has changed no table, or answers 200 and has stored its events.
  abbrev pub IsAnswered : List Dict → State → Outcome Reply → State → Type 0
  IsAnswered batch before reply after =
      ((nat_eq (status_of reply_status reply) 200 ≡ false) × (after ≡ before))
      ⊎ ((nat_eq (status_of reply_status reply) 200 ≡ true)
          × (stored_json after ≡ stored_json before ++ stored_of d r batch))

  checked-IsAnswered :
      (envs : ℕ → Env) (batch : List Dict) (st : State) (c : Checked)
      → check_request r (some (request_body batch)) ≡ c
      → let (reply, after) = after_checks d u envs c st in IsAnswered batch st reply after
  checked-IsAnswered envs batch st bad_request e = inl (refl, refl)
  checked-IsAnswered envs batch st raised e = inl (refl, refl)
  checked-IsAnswered envs batch st (accepted es) e = inr (
    refl,
    (handle_events-stored d u envs 0 es st).1
        ∙ ap (λ fs. stored_json st ++ map dumped (select (fits d) fs))
            (sym (accepted-validated d r batch es e)),
  )

  module _ (envs : ℕ → Env) (now : ℕ) (address : Option String) where
    abbrev pub post_batch :
        List Dict → Limiter settings × State → Outcome Reply × (Limiter settings × State)
    post_batch batch s =
        post_events d u r settings envs now (agent_request address) (some (request_body batch)) s

    post_batch-IsAnswered :
        (batch : List Dict) (limiter : Limiter settings) (st : State)
        → let (reply, after) = post_batch batch (limiter, st) in IsAnswered batch st reply after.1
    unfolding post_events require_api_key rate_limit
    post_batch-IsAnswered batch limiter st =
        elim (Option-cases (get_caller_role settings (agent_request address))) [
          | inl no_key ↦ rw no_key (inl (refl, refl))
          | inr (role, has_key) ↦
              elim (Bool-cases
                (admit settings now (client settings (agent_request address)) limiter).0) [
                  | inl within ↦
                      rw (has_key, within)
                        (checked-IsAnswered envs batch st
                          (check_request r (some (request_body batch))) refl)
                  | inr beyond ↦ rw (has_key, beyond) (inl (refl, refl))
                ]
        ]

    -- The server after a flush with this batch: without events there is no request.
    abbrev pub served : List Dict → Limiter settings × State → Limiter settings × State
    served [] s = s
    served (event ∷ events) s = (post_batch (event ∷ events) s).1

  module _ (c : Codec) (max_queue_size : ℕ) where
    pub record Joint : Type 0 where
      pub transport : Transport c
      pub server : Limiter settings × State

    -- An event is enqueued, or the agent flushes, with the server's clocks and keys and the agent's
    -- address at the time.
    pub data Step : Type 0 where
      enqueues : Dict → Step
      flushes : (ℕ → Env) → ℕ → Option String → Step

    unfoldable pub step : Step → Joint → Joint
    unfolding enqueue flush
    step (enqueues event) j = record j { transport = enqueue c max_queue_size event j.transport }
    step (flushes envs now address) j = record {
      transport = flush c (delivers d u r settings envs now address j.server) j.transport;
      server = served envs now address (peek c batch_size j.transport.queue) j.server;
    }

    unfoldable pub steps : List Step → Joint → Joint
    unfolding step
    steps [] j = j
    steps (x ∷ xs) j = steps xs (step x j)

    -- The server has the JSON of the events that the agent has delivered, after what it had before.
    abbrev pub HasStored : List Json → List Dict → Limiter settings × State → Type 0
    HasStored base sent s = stored_json s.1 ≡ base ++ stored_of d r sent

    HasStored-flush_batch :
        (envs : ℕ → Env) (now : ℕ) (address : Option String) (base : List Json) (batch : List Dict)
        (t : Transport c) (s : Limiter settings × State)
        → HasStored base t.delivered s
        → HasStored base
            (flush_batch c (delivers d u r settings envs now address s) batch t).delivered
            (served envs now address batch s)
    unfolding flush_batch
    HasStored-flush_batch envs now address base [] t s h = h
    HasStored-flush_batch envs now address base (x ∷ xs) t (limiter, st) h =
        elim (post_batch-IsAnswered envs now address (x ∷ xs) limiter st) [
          | inl (turned_down, same) ↦ rw (turned_down, same) h
          | inr (ok, stored) ↦ rw ok (
              stored
              ∙ ap (λ js. js ++ stored_of d r (x ∷ xs)) h
              ∙ append_assoc base (stored_of d r t.delivered) (stored_of d r (x ∷ xs))
              ∙ ap (λ js. base ++ js) (sym (stored_of-append d r t.delivered (x ∷ xs))))
        ]

    pub HasStored-steps :
        (xs : List Step) (base : List Json) (j : Joint)
        → HasStored base j.transport.delivered j.server
        → let after = steps xs j in HasStored base after.transport.delivered after.server
    unfolding steps step flush
    HasStored-steps [] base j h = h
    HasStored-steps (enqueues event ∷ xs) base j h =
        HasStored-steps xs base (step (enqueues event) j)
          (rw (enqueue-delivered r c max_queue_size event j.transport) h)
    HasStored-steps (flushes envs now address ∷ xs) base j h =
        HasStored-steps xs base (step (flushes envs now address) j) (
          HasStored-flush_batch envs now address base (peek c batch_size j.transport.queue)
            j.transport j.server h)
