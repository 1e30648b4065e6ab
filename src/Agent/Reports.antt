-- ===== src/Agent/Reports.antt =====
-- Reported events reach the log's chain and the queue.
use insider_threat_detection.Common.{
  ℕ, ◌+◌, ◌≤◌, ◌≡◌, refl, ap, ◌∙◌, Option, some, List, [], ◌∷◌, map, arith, length, length-map,
}
use insider_threat_detection.Json.{Dict, fields_of, obj}
use insider_threat_detection.Chain.{Hasher, genesis_hash, verify_chain}
use insider_threat_detection.Chain.Spec.{head_after}
use insider_threat_detection.Logger.{
  Cipher, Action, write_event, session, open_logger, load_from_file,
}
use insider_threat_detection.Logger.Intact.{session-verifies}
use insider_threat_detection.Queue.{Codec, empty_queue, size}
use insider_threat_detection.Queue.Fifo.{empty_queue-IsQueue}
use insider_threat_detection.Transport.{Call, enqueuing, calls, enqueued}
use insider_threat_detection.Transport.Delivery.{history, history-calls}
use insider_threat_detection.Agent.{Agent, Report, handle_event, handle_events}

module _ (c : Cipher) (h : Hasher) (codec : Codec) (key : Option c.Key) (max_queue_size : ℕ) where
  abbrev pub writes_of : List (Report c h codec) → List (Action c h)
  writes_of [] = []
  writes_of (r ∷ rest) = write_event r.nonce r.disk_ok (obj (fields_of r.event)) ∷ writes_of rest

  abbrev calls_of : List (Report c h codec) → List Call
  calls_of [] = []
  calls_of (r ∷ rest) = enqueuing r.event ∷ calls_of rest

  logger-handle_events :
      (reports : List (Report c h codec)) (a : Agent c h codec)
      → (handle_events c h codec key max_queue_size reports a).audit_logger
        ≡ session c h key (writes_of reports) a.audit_logger
  unfolding handle_events session
  logger-handle_events [] a = refl
  logger-handle_events (r ∷ rest) a =
      logger-handle_events rest (handle_event c h codec key max_queue_size r a)

  transport-handle_events :
      (reports : List (Report c h codec)) (a : Agent c h codec)
      → (handle_events c h codec key max_queue_size reports a).transport
        ≡ calls codec max_queue_size (calls_of reports) a.transport
  unfolding handle_events
  transport-handle_events [] a = refl
  transport-handle_events (r ∷ rest) a =
      transport-handle_events rest (handle_event c h codec key max_queue_size r a)

  enqueued-calls_of :
      (reports : List (Report c h codec)) → enqueued (calls_of reports) ≡ map (λ r. r.event) reports
  enqueued-calls_of [] = refl
  enqueued-calls_of (r ∷ rest) = ap (λ es. r.event ∷ es) (enqueued-calls_of rest)

  fits-empty :
      (reports : List (Report c h codec))
      → length reports ≤ max_queue_size
      → size codec (empty_queue codec) + length (enqueued (calls_of reports)) ≤ max_queue_size
  unfolding size
  fits-empty reports fits = rw (enqueued-calls_of reports, length-map) (omega (arith, fits))

  abbrev pub started : Agent c h codec
  started = record {
    audit_logger = open_logger c key [];
    transport = record { queue = empty_queue codec; delivered = [] };
  }

  -- An agent that starts with an empty log and an empty queue and gets reports that fit into the queue
  -- has every reported event in the queue, once and in order, whether or not the log took it, and a
  -- log that loads and that the verifier accepts, with the logger's chain head as its last hash.
  pub handle_events-queued :
      (reports : List (Report c h codec))
      → length reports ≤ max_queue_size
      → let a = handle_events c h codec key max_queue_size reports started in
        (history codec a.transport ≡ map (λ r. r.event) reports)
        × ((records : List Dict) × (load_from_file c key a.audit_logger.file ≡ some records)
            × (verify_chain h records ≡ some [])
            × (head_after h genesis_hash records ≡ a.audit_logger.prev_hash))
  handle_events-queued reports fits = (
    rw (transport-handle_events reports started) (
        history-calls codec max_queue_size (calls_of reports) _ (empty_queue-IsQueue codec)
          (fits-empty reports fits)
        ∙ enqueued-calls_of reports),
    rw (logger-handle_events reports started) (session-verifies c h key (writes_of reports)),
  )
