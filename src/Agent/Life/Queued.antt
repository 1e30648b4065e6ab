-- ===== src/Agent/Life/Queued.antt =====
-- What the queue, the server and the log have of the reports, over any run with flushes in two halves.
use mathlib.Core.List.{append-nil, append_assoc}
use insider_threat_detection.Common.{
  ℕ, ◌+◌, ◌≤◌, ◌<◌, ◌≡◌, refl, sym, ap, ◌∙◌, Bool, true, false, Option, none, some, List, [], ◌∷◌,
  ◌++◌, arith, length, drop, take, take-drop, drop-length-append,
}
use insider_threat_detection.Json.{Dict}
use insider_threat_detection.Chain.{Hasher, genesis_hash, verify_chain}
use insider_threat_detection.Chain.Spec.{head_after}
use insider_threat_detection.Logger.{Cipher, session, open_logger, load_from_file}
use insider_threat_detection.Logger.Intact.{session-verifies}
use insider_threat_detection.Queue.{Codec, size}
use insider_threat_detection.Queue.Fifo.{IsQueue, pending, peek-pending, empty_queue-IsQueue}
use insider_threat_detection.Transport.{Transport, batch_size, enqueue, flush_batch}
use insider_threat_detection.Transport.Race.{flush_batch-commits}
use insider_threat_detection.Transport.Delivery.{
  history, history-flush, history-enqueue, enqueue-IsQueue, enqueue-size_roomy, pending-enqueue,
  not_full, flush_batch-IsQueue, flush_batch-size, flush_batch-refused,
}
use insider_threat_detection.Agent.{Agent, handle_event}
use insider_threat_detection.Agent.Reports.{started, writes_of}
use insider_threat_detection.Agent.Life.{
  Life, Act, reporting, beginning, answered, stopping, taken, begin, end_flush, end_closed, acts,
  reports_of, events_before, IsJoined,
}

module _ (c : Cipher) (h : Hasher) (codec : Codec) (key : Option c.Key) (max_queue_size : ℕ) where
  abbrev life : Agent c h codec → Option (List Dict) → Bool → Life c h codec
  life a f closed = record { agent = a; in_flight = f; closed = closed }

  logger-end_flush :
      (ok : Bool) (f : Option (List Dict)) (a : Agent c h codec)
      → (end_flush c h codec key max_queue_size ok f a).audit_logger ≡ a.audit_logger
  logger-end_flush ok none a = refl
  logger-end_flush ok (some batch) a = refl

  logger-end_closed :
      (ok : Bool) (f : Option (List Dict)) (a : Agent c h codec)
      → (end_closed c h codec key max_queue_size ok f a).audit_logger ≡ a.audit_logger
  logger-end_closed ok none a = refl
  logger-end_closed ok (some batch) a = refl

  logger-acts :
      (xs : List (Act c h codec)) (closed : Bool) (f : Option (List Dict)) (a : Agent c h codec)
      → (acts c h codec key max_queue_size xs (life a f closed)).agent.audit_logger
        ≡ session c h key
            (writes_of c h codec key max_queue_size (reports_of c h codec key max_queue_size xs))
            a.audit_logger
  unfolding acts session
  logger-acts [] closed f a = refl
  logger-acts (reporting r ∷ xs) false f a =
      logger-acts xs false f (handle_event c h codec key max_queue_size r a)
  logger-acts (reporting r ∷ xs) true f a = logger-acts xs true f _
  logger-acts (beginning ∷ xs) false f a =
      logger-acts xs false (begin c h codec key max_queue_size f a) a
  logger-acts (beginning ∷ xs) true f a = logger-acts xs true f a
  logger-acts (answered ok ∷ xs) false f a =
      logger-acts xs false none (end_flush c h codec key max_queue_size ok f a)
      ∙ ap
          (session c h key
            (writes_of c h codec key max_queue_size (reports_of c h codec key max_queue_size xs)))
          (logger-end_flush ok f a)
  logger-acts (answered ok ∷ xs) true f a =
      logger-acts xs true none (end_closed c h codec key max_queue_size ok f a)
      ∙ ap
          (session c h key
            (writes_of c h codec key max_queue_size (reports_of c h codec key max_queue_size xs)))
          (logger-end_closed ok f a)
  logger-acts (stopping post ∷ xs) false f a = logger-acts xs true f _
  logger-acts (stopping post ∷ xs) true f a = logger-acts xs true f a

  transport-closed :
      (xs : List (Act c h codec)) (a : Agent c h codec)
      → (acts c h codec key max_queue_size xs (life a none true)).agent.transport ≡ a.transport
  unfolding acts
  transport-closed [] a = refl
  transport-closed (reporting r ∷ xs) a = transport-closed xs _
  transport-closed (beginning ∷ xs) a = transport-closed xs a
  transport-closed (answered ok ∷ xs) a = transport-closed xs a
  transport-closed (stopping post ∷ xs) a = transport-closed xs a

  -- A batch that waits for its answer is still at the front of the queue.
  abbrev IsInFront : Option (List Dict) → Transport codec → Type 0
  IsInFront none t = Unit
  IsInFront (some batch) t = (rest : List Dict) × (pending codec t.queue ≡ batch ++ rest)

  IsInFront-enqueue :
      (event : Dict) (f : Option (List Dict)) (t : Transport codec)
      → IsQueue codec t.queue
      → size codec t.queue < max_queue_size
      → IsInFront f t
      → IsInFront f (enqueue codec max_queue_size event t)
  IsInFront-enqueue event none t q room front = tt
  IsInFront-enqueue event (some batch) t q room (rest, front) = (
    rest ++ event ∷ [],
    pending-enqueue codec max_queue_size event t q
        ∙ rw (not_full codec max_queue_size t room, front) (append_assoc batch rest _),
  )

  IsInFront-taken :
      (batch : List Dict) (t : Transport codec)
      → batch ≡ take batch_size (pending codec t.queue)
      → IsInFront (taken c h codec key max_queue_size batch) t
  IsInFront-taken [] t e = tt
  IsInFront-taken (event ∷ events) t e = (
    drop batch_size (pending codec t.queue),
    sym (take-drop batch_size (pending codec t.queue))
        ∙ ap (λ es. es ++ drop batch_size (pending codec t.queue)) (sym e),
  )

  IsInFront-begin :
      (f : Option (List Dict)) (a : Agent c h codec)
      → IsQueue codec a.transport.queue
      → IsInFront f a.transport
      → IsInFront (begin c h codec key max_queue_size f a) a.transport
  IsInFront-begin none a q front =
      IsInFront-taken _ a.transport (peek-pending codec batch_size a.transport.queue q)
  IsInFront-begin (some batch) a q front = front

  -- The end of a flush, whatever was enqueued since it began.
  history-flush_batch :
      (ok : Bool) (batch rest : List Dict) (t : Transport codec)
      → IsQueue codec t.queue
      → pending codec t.queue ≡ batch ++ rest
      → history codec (flush_batch codec (λ b. ok) batch t) ≡ history codec t
  history-flush_batch false batch rest t q front =
      ap (history codec) (flush_batch-refused codec (λ b. false) t q batch refl)
  history-flush_batch true batch rest t q front =
      let done = flush_batch-commits codec (λ b. true) batch t refl q in
      rw (done.0, done.1, front, drop-length-append batch rest)
        (append_assoc t.delivered batch rest)

  ended :
      (ok : Bool) (f : Option (List Dict)) (a : Agent c h codec)
      → IsQueue codec a.transport.queue
      → IsInFront f a.transport
      → let after = (end_flush c h codec key max_queue_size ok f a).transport in
        IsQueue codec after.queue
        × (size codec after.queue ≤ size codec a.transport.queue)
        × (history codec after ≡ history codec a.transport)
  ended ok none a q front = (q, omega arith, refl)
  ended ok (some batch) a q (rest, front) = (
    flush_batch-IsQueue codec (λ b. ok) a.transport q batch,
    flush_batch-size codec (λ b. ok) a.transport q batch,
    history-flush_batch ok batch rest a.transport q front,
  )

  history-acts :
      (xs : List (Act c h codec)) (f : Option (List Dict)) (a : Agent c h codec)
      → IsQueue codec a.transport.queue
      → IsInFront f a.transport
      → size codec a.transport.queue + length (events_before c h codec key max_queue_size xs)
        ≤ max_queue_size
      → IsJoined c h codec key max_queue_size xs (life a f false)
      → history codec (acts c h codec key max_queue_size xs (life a f false)).agent.transport
        ≡ history codec a.transport ++ events_before c h codec key max_queue_size xs
  unfolding acts IsJoined
  history-acts [] f a q front fits j = sym (append-nil _)
  history-acts (reporting r ∷ xs) f a q front fits j =
      let t = a.transport in
      let room : size codec t.queue < max_queue_size = omega (arith, fits) in
      history-acts xs f (handle_event c h codec key max_queue_size r a)
        (enqueue-IsQueue codec max_queue_size r.event t q)
        (IsInFront-enqueue r.event f t q room front)
        (rw (enqueue-size_roomy codec max_queue_size r.event t room) (omega (arith, fits))) j
      ∙ ap (λ es. es ++ events_before c h codec key max_queue_size xs)
          (history-enqueue codec max_queue_size r.event t q room)
      ∙ append_assoc (history codec t) _ _
  history-acts (beginning ∷ xs) f a q front fits j =
      history-acts xs (begin c h codec key max_queue_size f a) a q (IsInFront-begin f a q front)
        fits j
  history-acts (answered ok ∷ xs) f a q front fits j =
      let (kept, smaller, same) = ended ok f a q front in
      history-acts xs none (end_flush c h codec key max_queue_size ok f a) kept tt
        (omega (arith, fits, smaller)) j
      ∙ ap (λ es. es ++ events_before c h codec key max_queue_size xs) same
  history-acts (stopping post ∷ xs) (some batch) a q front fits j = cc
  history-acts (stopping post ∷ xs) none a q front fits j =
      ap (history codec) (transport-closed xs _)
      ∙ history-flush codec post a.transport q
      ∙ sym (append-nil _)

  -- Over a whole run of an agent that starts with an empty log and an empty queue, with any answers of
  -- the server, reports that fit into the queue and come between flushes or during one, no flush that
  -- waits for its answer when the transport is stopped, and monitors that outlive the stop: the
  -- delivered events and then the waiting ones are the events that were reported before the stop,
  -- once and in order, and nothing that was reported later; the log takes the later ones too, loads,
  -- and the verifier accepts it, with the logger's chain head as its last hash.
  pub acts-queued :
      (xs : List (Act c h codec))
      → length (events_before c h codec key max_queue_size xs) ≤ max_queue_size
      → IsJoined c h codec key max_queue_size xs (record {
        agent = started c h codec key max_queue_size;
        in_flight = none;
        closed = false;
      })
      → let l = acts c h codec key max_queue_size xs (record {
        agent = started c h codec key max_queue_size;
        in_flight = none;
        closed = false;
      }) in
        (history codec l.agent.transport ≡ events_before c h codec key max_queue_size xs)
        × (l.agent.audit_logger
            ≡ session c h key
                (writes_of c h codec key max_queue_size
                  (reports_of c h codec key max_queue_size xs))
                (open_logger c key []))
        × ((records : List Dict) × (load_from_file c key l.agent.audit_logger.file ≡ some records)
            × (verify_chain h records ≡ some [])
            × (head_after h genesis_hash records ≡ l.agent.audit_logger.prev_hash))
  unfolding size
  acts-queued xs fits joined =
      let first = started c h codec key max_queue_size in
      (
        history-acts xs none first (empty_queue-IsQueue codec) tt (omega (arith, fits)) joined,
        logger-acts xs false none first,
        rw (logger-acts xs false none first) (
            session-verifies c h key (
              writes_of c h codec key max_queue_size (reports_of c h codec key max_queue_size xs))),
      )
