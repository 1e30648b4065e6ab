-- ===== src/Transport/Shutdown.antt =====
-- agent/transport.py: the thread's loop, and `stop` with its last flush.
use mathlib.Core.List.{append_assoc}
use insider_threat_detection.Common.{
  ◌+◌, ◌≤◌, ◌≡◌, refl, ap, ◌∙◌, Bool, true, false, List, [], ◌∷◌, ◌++◌, arith, if◌then◌else◌,
  length, take, drop, drop-drop, length-take,
}
use insider_threat_detection.Json.{Dict}
use insider_threat_detection.Queue.{Codec, peek}
use insider_threat_detection.Queue.Fifo.{IsQueue, pending, peek-pending}
use insider_threat_detection.Transport.{Transport, batch_size, flush_batch, flush}
use insider_threat_detection.Transport.Delivery.{
  history, flush_batch-IsQueue, flush-IsQueue, flush-accepted, history-flush,
}
use insider_threat_detection.Transport.Race.{flush_batch-commits}

module _ (c : Codec) where
  -- Rounds of `_loop`: whether the stop event is set when a round would begin, and the server's answer
  -- in it. The loop looks at the event before it sleeps, and not after.
  unfoldable pub transport_loop : List (Bool × (List Dict → Bool)) → Transport c → Transport c
  unfolding flush
  transport_loop [] t = t
  transport_loop ((stopped, post) ∷ rounds) t =
      let rest = transport_loop rounds (flush c post t) in if stopped then t else rest

  -- `stop` once its thread has ended: the rounds that were left to it, and the last flush.
  unfoldable pub stop :
      List (Bool × (List Dict → Bool)) → (List Dict → Bool) → Transport c → Transport c
  unfolding transport_loop flush
  stop rounds post t = flush c post (transport_loop rounds t)

  transport_loop-kept :
      (rounds : List (Bool × (List Dict → Bool))) (t : Transport c)
      → IsQueue c t.queue
      → IsQueue c (transport_loop rounds t).queue
        × (history c (transport_loop rounds t) ≡ history c t)
  unfolding transport_loop
  transport_loop-kept [] t q = (q, refl)
  transport_loop-kept ((true, post) ∷ rounds) t q = (q, refl)
  transport_loop-kept ((false, post) ∷ rounds) t q =
      let rest = transport_loop-kept rounds (flush c post t) (flush-IsQueue c post t q) in
      (rest.0, rest.1 ∙ history-flush c post t q)

  -- Whatever the server answers, the delivered events and those that wait are, in order, the same
  -- after `stop` as before.
  pub stop-history :
      (rounds : List (Bool × (List Dict → Bool))) (post : List Dict → Bool) (t : Transport c)
      → IsQueue c t.queue
      → history c (stop rounds post t) ≡ history c t
  unfolding stop
  stop-history rounds post t q =
      let kept = transport_loop-kept rounds t q in history-flush c post _ kept.0 ∙ kept.1

  -- With a server that accepts it the last flush takes one batch: all but the oldest hundred of what the
  -- loop left are still in the queue.
  pub stop-leaves :
      (rounds : List (Bool × (List Dict → Bool))) (post : List Dict → Bool) (t : Transport c)
      → IsQueue c t.queue
      → ((batch : List Dict) → post batch ≡ true)
      → pending c (stop rounds post t).queue
        ≡ drop batch_size (pending c (transport_loop rounds t).queue)
  unfolding stop
  stop-leaves rounds post t q ok = flush-accepted c post _ (transport_loop-kept rounds t q).0 ok

  -- `stop` waits for its thread no longer than the interval and five seconds. If the thread is then
  -- still waiting for an answer about the oldest hundred events, the last flush takes the same ones, and if both
  -- batches are accepted, the hundred after them leave the queue too: they are not delivered, and
  -- the first hundred are delivered twice.
  pub stop-during-flush :
      (post last : List Dict → Bool) (t : Transport c)
      → ((batch : List Dict) → post batch ≡ true)
      → ((batch : List Dict) → last batch ≡ true)
      → IsQueue c t.queue
      → batch_size ≤ length (pending c t.queue)
      → let batch = peek c batch_size t.queue in
        let after = flush_batch c last batch (flush_batch c post batch t) in
        (after.delivered
          ≡ t.delivered
            ++ (take batch_size (pending c t.queue) ++ take batch_size (pending c t.queue)))
        × (pending c after.queue ≡ drop (batch_size + batch_size) (pending c t.queue))
  stop-during-flush post last t ok ok_last q long =
      let batch = peek c batch_size t.queue in
      let once = flush_batch-commits c post batch t (ok batch) q in
      let twice =
        flush_batch-commits c last batch (flush_batch c post batch t) (ok_last batch)
          (flush_batch-IsQueue c post t q batch) in
      let taken = peek-pending c batch_size t.queue q in
      let sent : length (take batch_size (pending c t.queue)) ≡ batch_size =
        length-take batch_size (pending c t.queue) ∙ omega (arith, long) in
      (
        twice.0
            ∙ ap (λ es. es ++ batch) once.0
            ∙ append_assoc t.delivered batch batch
            ∙ ap (λ es. t.delivered ++ (es ++ es)) taken,
        twice.1
            ∙ ap (λ es. drop (length es) (pending c (flush_batch c post batch t).queue)) taken
            ∙ ap (drop (length (take batch_size (pending c t.queue)))) once.1
            ∙ ap
                (λ es.
                  drop (length (take batch_size (pending c t.queue)))
                    (drop (length es) (pending c t.queue)))
                taken
            ∙ drop-drop _ _ (pending c t.queue)
            ∙ ap (λ k. drop (k + k) (pending c t.queue)) sent,
      )
