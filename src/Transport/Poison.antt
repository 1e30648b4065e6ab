-- ===== src/Transport/Poison.antt =====
-- One event that the server's schema does not take holds up the queue of the agent.
use mathlib.Core.List.{append-nil, append_assoc}
use insider_threat_detection.Common.{
  ℕ, zero, suc, ◌+◌, ◌≤◌, ◌<◌, ◌≡◌, refl, sym, ap, ◌∙◌, inl, inr, Bool, true, false, not, Option,
  none, some, List, [], ◌∷◌, ◌++◌, arith, Bool-cases, ◌>>=◌, length, take, any, is_some,
  length-append,
}
use insider_threat_detection.Json.{
  Json, Items, Dict, arr, obj, nil, cons, end, field, dict_of, fields_of,
}
use insider_threat_detection.Queue.{Codec, PersistentQueue, peek, size}
use insider_threat_detection.Queue.Fifo.{
  IsQueue, pending, peek-pending, pending-put, put-IsQueue, size-pending,
}
use insider_threat_detection.Schema.{
  Reading, DeviceEvent, bad_request, validate, validate_all, check_request,
}
use insider_threat_detection.Transport.{
  batch_size, Transport, make_room, enqueue, flush_batch, flush, Call, enqueuing, flushing, calls,
  enqueued,
}

abbrev pub items_of : List Dict → Items
items_of [] = nil
items_of (d ∷ ds) = cons (obj (fields_of d)) (items_of ds)

-- The body that `_post_events` sends, as the server reads it.
abbrev pub request_body : List Dict → Json
request_body batch = obj (field "events" (arr (items_of batch)) end)

pub dict_of-fields_of : (d : Dict) → dict_of (fields_of d) ≡ d
dict_of-fields_of [] = refl
dict_of-fields_of ((k, v) ∷ d) = ap (λ rest. (k, v) ∷ rest) (dict_of-fields_of d)

module _ (r : Reading) where
  abbrev pub is_refused : Dict → Bool
  is_refused d = not (is_some (validate r d))

  refused : (o : Option DeviceEvent) → not (is_some o) ≡ true → o ≡ none
  refused none e = refl
  refused (some x) e = cc

  no_second :
      (o : Option DeviceEvent) → (o >>= λ event. none >>= λ events. some (event ∷ events)) ≡ none
  no_second none = refl
  no_second (some event) = refl

  validate_all_refused :
      (ds : List Dict) → any is_refused ds ≡ true → validate_all r (items_of ds) ≡ none
  unfolding validate_all
  validate_all_refused [] e = cc
  validate_all_refused (d ∷ ds) e = elim (Bool-cases (is_refused d)) [
    | inl bad ↦ rw (dict_of-fields_of d, refused (validate r d) bad) refl
    | inr fine ↦
        rw (validate_all_refused ds (ground (arith, e, fine)))
          (no_second (validate r (dict_of (fields_of d))))
  ]

  -- A batch with a refused event is answered with 400.
  pub check_request_refused :
      (ds : List Dict)
      → any is_refused ds ≡ true
      → check_request r (some (request_body ds)) ≡ bad_request
  unfolding check_request
  check_request_refused ds e = rw (validate_all_refused ds e) refl

  -- The server answers 200 to no batch but one whose events it takes.
  abbrev pub IsAnswer : (List Dict → Bool) → Type 0
  IsAnswer post =
      (batch : List Dict)
      → check_request r (some (request_body batch)) ≡ bad_request
      → post batch ≡ false

  abbrev pub IsServed : List Call → Type 0
  IsServed [] = Unit
  IsServed (enqueuing event ∷ rest) = IsServed rest
  IsServed (flushing post ∷ rest) = IsAnswer post × IsServed rest

  module _ (c : Codec) where
    pub flush_batch_refused :
        (post : List Dict → Bool) (batch : List Dict) (t : Transport c)
        → post batch ≡ false
        → flush_batch c post batch t ≡ t
    unfolding flush_batch
    flush_batch_refused post [] t e = refl
    flush_batch_refused post (d ∷ ds) t e = rw e refl

    flush_refused :
        (post : List Dict → Bool) (t : Transport c)
        → IsAnswer post
        → IsQueue c t.queue
        → any is_refused (take batch_size (pending c t.queue)) ≡ true
        → flush c post t ≡ t
    unfolding flush
    flush_refused post t answer q bad = flush_batch_refused post (peek c batch_size t.queue) t (
        answer (peek c batch_size t.queue) (
          check_request_refused (peek c batch_size t.queue)
            (rw (peek-pending c batch_size t.queue q) bad)))

    any-take_append :
        (n : ℕ) (xs ys : List Dict)
        → any is_refused (take n xs) ≡ true
        → any is_refused (take n (xs ++ ys)) ≡ true
    any-take_append zero xs ys e = e
    any-take_append (suc n) [] ys e = cc
    any-take_append (suc n) (x ∷ xs) ys e = ground (arith, e, any-take_append n xs ys)

    module _ (max_queue_size : ℕ) where
      pub make_room_free :
          (q : PersistentQueue c)
          → length (pending c q) < max_queue_size
          → make_room c max_queue_size q ≡ q
      unfolding make_room size
      make_room_free q free = ground (arith, free, size-pending c q)

      pub enqueue-delivered :
          (event : Dict) (t : Transport c)
          → (enqueue c max_queue_size event t).delivered ≡ t.delivered
      unfolding enqueue
      enqueue-delivered event t = refl

      pub enqueue_free :
          (event : Dict) (t : Transport c)
          → length (pending c t.queue) < max_queue_size
          → pending c (enqueue c max_queue_size event t).queue ≡ pending c t.queue ++ event ∷ []
      unfolding enqueue
      enqueue_free event t free =
          pending-put c event (make_room c max_queue_size t.queue)
          ∙ ap (λ q. pending c q ++ event ∷ []) (make_room_free t.queue free)

      pub enqueue_free-IsQueue :
          (event : Dict) (t : Transport c)
          → IsQueue c t.queue
          → length (pending c t.queue) < max_queue_size
          → IsQueue c (enqueue c max_queue_size event t).queue
      unfolding enqueue
      enqueue_free-IsQueue event t q free =
          put-IsQueue c event (make_room c max_queue_size t.queue)
            (rw (make_room_free t.queue free) q)

      -- While an event that the schema does not take is among the oldest hundred of a well-formed
      -- queue, and the queue has room for what comes in, no sequence of enqueues and flushes
      -- delivers anything to a server that does not answer 200 to a batch that it turns down, and
      -- everything stays in the queue.
      pub calls_blocked :
          (cs : List Call) (t : Transport c)
          → IsServed cs
          → IsQueue c t.queue
          → any is_refused (take batch_size (pending c t.queue)) ≡ true
          → length (pending c t.queue) + length (enqueued cs) ≤ max_queue_size
          → ((calls c max_queue_size cs t).delivered ≡ t.delivered)
            × (pending c (calls c max_queue_size cs t).queue ≡ pending c t.queue ++ enqueued cs)
      calls_blocked [] t s q bad room = (refl, sym (append-nil (pending c t.queue)))
      calls_blocked (enqueuing event ∷ cs) t s q bad room =
          let t' = enqueue c max_queue_size event t in
          let grown = enqueue_free event t (omega (arith, room)) in
          let rest =
            calls_blocked cs t' s (enqueue_free-IsQueue event t q (omega (arith, room)))
              (rw grown (any-take_append batch_size (pending c t.queue) (event ∷ []) bad))
              (rw (grown, length-append (pending c t.queue) (event ∷ [])) (omega (arith, room))) in
          (
            rest.0 ∙ enqueue-delivered event t,
            rest.1 ∙ rw grown (append_assoc (pending c t.queue) (event ∷ []) (enqueued cs)),
          )
      calls_blocked (flushing post ∷ cs) t s q bad room =
          rw (calls, flush_refused post t s.0 q bad) (calls_blocked cs t s.1 q bad room)
