-- ===== src/Transport/Race.antt =====
-- An enqueue that comes between the two halves of a flush.
use insider_threat_detection.Transport.Delivery.{enqueue-IsQueue, pending-enqueue}
use mathlib.Core.List.{append-nil}
use insider_threat_detection.Common.{
  ℕ, suc, ◌<◌, ◌≡◌, refl, sym, ap, ◌∙◌, Bool, true, List, [], ◌∷◌, ◌++◌, arith, leb, if◌then◌else◌,
  length, take, drop, drop-append-le, drop-drop, length-take, length-drop,
}
use insider_threat_detection.Json.{Dict}
use insider_threat_detection.Queue.{Codec, peek, size}
use insider_threat_detection.Queue.Fifo.{
  IsQueue, pending, peek-pending, pending-commit, size-pending,
}
use insider_threat_detection.Transport.{Transport, batch_size, enqueue, flush_batch}

module _ (c : Codec) where
  pub flush_batch-commits :
      (post : List Dict → Bool) (batch : List Dict) (t : Transport c)
      → post batch ≡ true
      → IsQueue c t.queue
      → ((flush_batch c post batch t).delivered ≡ t.delivered ++ batch)
        × (pending c (flush_batch c post batch t).queue ≡ drop (length batch) (pending c t.queue))
  unfolding flush_batch
  flush_batch-commits post [] t ok h = (sym (append-nil t.delivered), refl)
  flush_batch-commits post (event ∷ events) t ok h =
      rw ok (refl, pending-commit c (length (event ∷ events)) t.queue h)

  rest_after-full :
      (m : ℕ) (event : Dict) (es : List Dict)
      → length es ≡ m
      → batch_size < m
      → drop
          (length (take batch_size es))
          (drop (if leb m (length es) then 1 else 0) es ++ event ∷ [])
        ≡ drop (suc batch_size) es ++ event ∷ []
  rest_after-full m event es full large =
      let is_full : leb m (length es) ≡ true = ground (arith, full) in
      let sent : length (take batch_size es) ≡ batch_size =
        length-take batch_size es ∙ omega (arith, full, large) in
      rw (is_full, sent)
        (drop-append-le batch_size (drop 1 es) (event ∷ [])
            (rw (length-drop) (omega (arith, full, large)))
          ∙ ap (λ xs. xs ++ event ∷ []) (drop-drop batch_size 1 es))

  -- Two threads: a flush has taken its batch from a full, well-formed queue of more than one batch when
  -- an event is enqueued, which drops the oldest event. When the server has accepted the batch and the
  -- flush removes as many events, the event after the batch is gone too, and was not delivered.
  pub enqueue-during-flush :
      (m : ℕ) (post : List Dict → Bool) (event : Dict) (t : Transport c)
      → ((batch : List Dict) → post batch ≡ true)
      → IsQueue c t.queue
      → size c t.queue ≡ m
      → batch_size < m
      → let after = flush_batch c post (peek c batch_size t.queue) (enqueue c m event t) in
        (after.delivered ≡ t.delivered ++ take batch_size (pending c t.queue))
        × (pending c after.queue ≡ drop (suc batch_size) (pending c t.queue) ++ event ∷ [])
  enqueue-during-flush m post event t ok h full large =
      let done =
        flush_batch-commits post (peek c batch_size t.queue) (enqueue c m event t) (ok _)
          (enqueue-IsQueue c m event t h) in
      (
        done.0
            ∙ ap (λ es. (enqueue c m event t).delivered ++ es) (peek-pending c batch_size t.queue h)
            ∙ (unfold enqueue in refl),
        done.1
            ∙ rw (pending-enqueue c m event t h, peek-pending c batch_size t.queue h)
                (rest_after-full m event (pending c t.queue) (sym (size-pending c t.queue) ∙ full)
                  large),
      )
