-- ===== src/Agent/EndToEnd.antt =====
-- A whole run of an agent's transport (agent/transport.py) and the server that answers it
-- (server/routers/events.py): from the reported events to the table of events.
use mathlib.Core.List.{append-nil}
use insider_threat_detection.Common.{
  ℕ, ◌≤◌, ◌≡◌, refl, sym, ap, ◌∙◌, List, [], ◌∷◌, ◌++◌, arith, length,
}
use insider_threat_detection.Json.{Dict}
use insider_threat_detection.Auth.{Settings, Limiter}
use insider_threat_detection.Queue.{Codec, empty_queue, size}
use insider_threat_detection.Queue.Fifo.{empty_queue-IsQueue}
use insider_threat_detection.Schema.{Reading}
use insider_threat_detection.Transport.{Transport, Call, enqueuing, flushing, calls, enqueued}
use insider_threat_detection.Transport.Delivery.{history, history-calls}
use insider_threat_detection.Ingest.{Setup, State}
use insider_threat_detection.Ingest.Handler.{Driver}
use insider_threat_detection.Ingest.Handler.Outcomes.{stored_json}
use insider_threat_detection.Agent.Keyless.{delivers}
use insider_threat_detection.Agent.Stored.{
  stored_of, Joint, Step, enqueues, flushes, step, steps, HasStored-steps,
}

module _ (d : Driver) (u : Setup) (r : Reading) (settings : Settings) (c : Codec)
    (max_queue_size : ℕ) where
  abbrev pub AnyStep : Type 0
  AnyStep = Step d u r settings c max_queue_size

  abbrev pub AnyJoint : Type 0
  AnyJoint = Joint d u r settings c max_queue_size

  abbrev pub run : List AnyStep → AnyJoint → AnyJoint
  run = steps d u r settings c max_queue_size

  abbrev pub reported : List AnyStep → List Dict
  reported [] = []
  reported (enqueues event ∷ xs) = event ∷ reported xs
  reported (flushes envs now address ∷ xs) = reported xs

  -- The calls of the transport, each flush with the answers of the server as it is then.
  abbrev calls_of : List AnyStep → AnyJoint → List Call
  calls_of [] j = []
  calls_of (enqueues event ∷ xs) j =
      enqueuing event ∷ calls_of xs (step d u r settings c max_queue_size (enqueues event) j)
  calls_of (flushes envs now address ∷ xs) j =
      flushing (delivers d u r settings envs now address j.server)
      ∷ calls_of xs (step d u r settings c max_queue_size (flushes envs now address) j)

  enqueued-calls_of : (xs : List AnyStep) (j : AnyJoint) → enqueued (calls_of xs j) ≡ reported xs
  enqueued-calls_of [] j = refl
  enqueued-calls_of (enqueues event ∷ xs) j = ap (λ es. event ∷ es) (enqueued-calls_of xs _)
  enqueued-calls_of (flushes envs now address ∷ xs) j = enqueued-calls_of xs _

  transport-run :
      (xs : List AnyStep) (j : AnyJoint)
      → (run xs j).transport ≡ calls c max_queue_size (calls_of xs j) j.transport
  unfolding steps step
  transport-run [] j = refl
  transport-run (enqueues event ∷ xs) j =
      transport-run xs (step d u r settings c max_queue_size (enqueues event) j)
  transport-run (flushes envs now address ∷ xs) j =
      transport-run xs (step d u r settings c max_queue_size (flushes envs now address) j)

  -- An agent starts with an empty queue, at a server in any state, that asks for a key or not, and
  -- reports events that fit into its queue, between flushes that the server answers: what has been
  -- delivered and then what still waits are the reported events, once and in order; and the
  -- server's table of events gets, once and in order, those of the delivered ones that the schema
  -- takes and that fit into the table, as validated, and nothing else.
  pub run-stored :
      (xs : List AnyStep) (server : Limiter settings × State)
      → length (reported xs) ≤ max_queue_size
      → let first : Transport c = record { queue = empty_queue c; delivered = [] } in
        let after = run xs (record { transport = first; server = server }) in
        (history c after.transport ≡ reported xs)
        × (stored_json after.server.1
            ≡ stored_json server.1 ++ stored_of d r after.transport.delivered)
  unfolding size
  run-stored xs server fits =
      let first : Transport c = record { queue = empty_queue c; delivered = [] } in
      let j : AnyJoint = record { transport = first; server = server } in
      (
        rw (transport-run xs j) (
            history-calls c max_queue_size (calls_of xs j) first (empty_queue-IsQueue c)
              (rw (enqueued-calls_of xs j) (omega (arith, fits)))
            ∙ enqueued-calls_of xs j),
        HasStored-steps d u r settings c max_queue_size xs (stored_json server.1) j
            (sym (append-nil (stored_json server.1))),
      )
