-- ===== src/Transport/Delivery.antt =====
-- What reaches the server: everything once and in order, while the queue has room.
use mathlib.Core.List.{append-nil, append_assoc}
use insider_threat_detection.Common.{
  ℕ, zero, suc, ◌+◌, ◌*◌, ◌≤◌, ◌<◌, ◌≡◌, refl, sym, ap, ◌∙◌, inl, inr, Bool, true, false, not, List,
  [], ◌∷◌, ◌++◌, arith, leb, if◌then◌else◌, Bool-cases, length, take, drop, take-drop,
  drop-length-take, length-append, length-drop, length-select-le,
}
use insider_threat_detection.Json.{Dict}
use insider_threat_detection.Queue.{
  Codec, PersistentQueue, put, peek, oldest, is_one_of, commit, size,
}
use insider_threat_detection.Queue.Fifo.{
  IsQueue, pending, pending-put, peek-pending, pending-commit, size-pending, put-IsQueue,
  commit-IsQueue,
}
use insider_threat_detection.Transport.{
  Transport, batch_size, make_room, enqueue, flush_batch, flush, Call, enqueuing, flushing, calls,
  enqueued,
}

module _ (c : Codec) where
  -- The events accepted so far that still matter: the delivered ones, then the queued ones.
  abbrev pub history : Transport c → List Dict
  history t = t.delivered ++ pending c t.queue

  module _ (post : List Dict → Bool) (t : Transport c) (h : IsQueue c t.queue) where
    pub flush_batch-IsQueue : (batch : List Dict) → IsQueue c (flush_batch c post batch t).queue
    unfolding flush_batch
    flush_batch-IsQueue [] = h
    flush_batch-IsQueue (event ∷ events) =
        ground (arith, commit-IsQueue c (length (event ∷ events)) t.queue h)

    pub flush-IsQueue : IsQueue c (flush c post t).queue
    unfolding flush
    flush-IsQueue = flush_batch-IsQueue (peek c batch_size t.queue)

    pub flush_batch-size :
        (batch : List Dict) → size c (flush_batch c post batch t).queue ≤ size c t.queue
    unfolding flush_batch size commit
    flush_batch-size [] = omega arith
    flush_batch-size (event ∷ events) = ground (
      arith,
      length-select-le (λ r. not (is_one_of c (oldest c (length (event ∷ events)) t.queue) r))
          t.queue.rows,
    )

    flush-size : size c (flush c post t).queue ≤ size c t.queue
    unfolding flush
    flush-size = flush_batch-size (peek c batch_size t.queue)

    commit-taken :
        (batch : List Dict)
        → batch ≡ take batch_size (pending c t.queue)
        → pending c (commit c (length batch) t.queue) ≡ drop batch_size (pending c t.queue)
    commit-taken batch e =
        pending-commit c (length batch) t.queue h
        ∙ rw e (drop-length-take batch_size (pending c t.queue))

    flush_batch-history :
        (batch : List Dict)
        → batch ≡ take batch_size (pending c t.queue)
        → history (flush_batch c post batch t) ≡ history t
    unfolding flush_batch
    flush_batch-history [] e = refl
    flush_batch-history (event ∷ events) e = elim (Bool-cases (post (event ∷ events))) [
      | inr refused ↦ rw refused refl
      | inl ok ↦
          rw (ok, commit-taken (event ∷ events) e, e)
            (append_assoc t.delivered _ _
              ∙ ap (λ xs. t.delivered ++ xs) (take-drop batch_size (pending c t.queue)))
    ]

    -- A flush moves events from the front of the queue to the end of those delivered, or nothing.
    pub history-flush : history (flush c post t) ≡ history t
    unfolding flush
    history-flush = flush_batch-history _ (peek-pending c batch_size t.queue h)

    pub flush_batch-refused :
        (batch : List Dict) → post batch ≡ false → flush_batch c post batch t ≡ t
    unfolding flush_batch
    flush_batch-refused [] refused = refl
    flush_batch-refused (event ∷ events) refused = rw refused refl

    flush_batch-accepted :
        (batch : List Dict)
        → post batch ≡ true
        → batch ≡ take batch_size (pending c t.queue)
        → pending c (flush_batch c post batch t).queue ≡ drop batch_size (pending c t.queue)
    unfolding flush_batch
    flush_batch-accepted [] ok e = pending_short (pending c t.queue) e
      where
        pending_short : (es : List Dict) → [] ≡ take batch_size es → es ≡ drop batch_size es
        pending_short [] e = refl
        pending_short (x ∷ es) e = cc
    flush_batch-accepted (event ∷ events) ok e = rw ok (commit-taken (event ∷ events) e)

    pub flush-accepted :
        ((batch : List Dict) → post batch ≡ true)
        → pending c (flush c post t).queue ≡ drop batch_size (pending c t.queue)
    unfolding flush
    flush-accepted ok = flush_batch-accepted _ (ok _) (peek-pending c batch_size t.queue h)

  module _ (m : ℕ) where
    pub make_room-IsQueue : (q : PersistentQueue c) → IsQueue c q → IsQueue c (make_room c m q)
    unfolding make_room
    make_room-IsQueue q h = ground (arith, commit-IsQueue c 1 q h)

    pub pending-make_room :
        (q : PersistentQueue c)
        → IsQueue c q
        → pending c (make_room c m q)
          ≡ drop (if leb m (length (pending c q)) then 1 else 0) (pending c q)
    unfolding make_room
    pending-make_room q h =
        rw (size-pending c q) (elim (Bool-cases (leb m (length (pending c q)))) [
          | inl e ↦ rw e (pending-commit c 1 q h)
          | inr e ↦ rw e refl
        ])

    pub enqueue-IsQueue :
        (event : Dict) (t : Transport c) → IsQueue c t.queue → IsQueue c (enqueue c m event t).queue
    unfolding enqueue
    enqueue-IsQueue event t h = put-IsQueue c event _ (make_room-IsQueue t.queue h)

    pub pending-enqueue :
        (event : Dict) (t : Transport c)
        → IsQueue c t.queue
        → pending c (enqueue c m event t).queue
          ≡ drop (if leb m (length (pending c t.queue)) then 1 else 0) (pending c t.queue)
            ++ event ∷ []
    unfolding enqueue
    pending-enqueue event t h =
        pending-put c event _ ∙ ap (λ es. es ++ event ∷ []) (pending-make_room t.queue h)

    enqueue-size :
        (event : Dict) (t : Transport c)
        → IsQueue c t.queue
        → (n : ℕ) → 0 < m
        → m ≤ n
        → size c t.queue ≤ n
        → size c (enqueue c m event t).queue ≤ n
    enqueue-size event t h n pos within b =
        rw (size-pending, pending-enqueue event t h, length-append, length-drop)
          (ground (arith, pos, within, b, size-pending c t.queue))

    pub enqueue-size_roomy :
        (event : Dict) (t : Transport c)
        → size c t.queue < m
        → size c (enqueue c m event t).queue ≡ suc (size c t.queue)
    unfolding enqueue make_room put size
    enqueue-size_roomy event t room = ground (
      arith,
      room,
      length-append t.queue.rows ((record { id = t.queue.next_id; payload = c.dumps event }) ∷ []),
    )

    pub not_full :
        (t : Transport c) → size c t.queue < m → leb m (length (pending c t.queue)) ≡ false
    not_full t room = ground (arith, room, size-pending c t.queue)

    pub history-enqueue :
        (event : Dict) (t : Transport c)
        → IsQueue c t.queue
        → size c t.queue < m
        → history (enqueue c m event t) ≡ history t ++ event ∷ []
    history-enqueue event t h room =
        ap (λ es. (enqueue c m event t).delivered ++ es) (pending-enqueue event t h)
        ∙ rw (not_full t room) (unfold enqueue in sym (append_assoc t.delivered _ _))

    -- A well-formed queue stays within any number that neither its positive bound nor its size exceeds.
    pub calls-within :
        (cs : List Call) (t : Transport c) (n : ℕ)
        → 0 < m
        → m ≤ n
        → IsQueue c t.queue
        → size c t.queue ≤ n
        → size c (calls c m cs t).queue ≤ n
    calls-within [] t n pos within h b = b
    calls-within (enqueuing event ∷ rest) t n pos within h b =
        calls-within rest _ n pos within (enqueue-IsQueue event t h)
          (enqueue-size event t h n pos within b)
    calls-within (flushing post ∷ rest) t n pos within h b =
        calls-within rest _ n pos within (flush-IsQueue post t h)
          (omega (arith, b, flush-size post t h))

    -- While the events that wait in a well-formed queue and those that come fit into it, any calls,
    -- with any answers of the server, leave the delivered events followed by the waiting ones as they were, with every
    -- new event once and in order at the end.
    pub history-calls :
        (cs : List Call) (t : Transport c)
        → IsQueue c t.queue
        → size c t.queue + length (enqueued cs) ≤ m
        → history (calls c m cs t) ≡ history t ++ enqueued cs
    history-calls [] t h fits = sym (append-nil _)
    history-calls (enqueuing event ∷ rest) t h fits =
        history-calls rest _ (enqueue-IsQueue event t h)
          (rw (enqueue-size_roomy event t (omega (arith, fits))) (omega (arith, fits)))
        ∙ ap (λ es. es ++ enqueued rest) (history-enqueue event t h (omega (arith, fits)))
        ∙ append_assoc (history t) _ _
    history-calls (flushing post ∷ rest) t h fits =
        history-calls rest _ (flush-IsQueue post t h) (omega (arith, fits, flush-size post t h))
        ∙ ap (λ es. es ++ enqueued rest) (history-flush post t h)

  abbrev pub flushes : (List Dict → Bool) → ℕ → Transport c → Transport c
  flushes post zero t = t
  flushes post (suc n) t = flushes post n (flush c post t)

  -- Once the server answers every request with 200, as many flushes as there are batches empty a
  -- well-formed queue.
  pub flushes-empty :
      (post : List Dict → Bool) (n : ℕ) (t : Transport c)
      → ((batch : List Dict) → post batch ≡ true)
      → IsQueue c t.queue
      → size c t.queue ≤ batch_size * n
      → size c (flushes post n t).queue ≡ 0
  flushes-empty post zero t ok h small = omega (arith, small)
  flushes-empty post (suc n) t ok h small =
      flushes-empty post n (flush c post t) ok (flush-IsQueue post t h) (
        rw (size-pending, flush-accepted post t h ok, length-drop)
          (omega (arith, small, size-pending c t.queue)))
