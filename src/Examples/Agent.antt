-- ===== src/Examples/Agent.antt =====
-- The queue and the transport on a few events, and on a full queue.
use insider_threat_detection.Common.{
  ℕ, zero, suc, String, ◌≡◌, refl, true, List, [], ◌∷◌, ◌++◌, arith, take, drop, length-append,
}
use insider_threat_detection.Json.{Dict, str}
use insider_threat_detection.Queue.{PersistentQueue, empty_queue, put, peek, size}
use insider_threat_detection.Queue.Fifo.{
  IsQueue, pending, Write, putting, committing, writes, peek-writes, put-IsQueue,
  empty_queue-IsQueue,
}
use insider_threat_detection.Transport.{Transport, batch_size, enqueue, flush_batch}
use insider_threat_detection.Transport.Race.{enqueue-during-flush}
use insider_threat_detection.Examples.Data.{toy_codec}

abbrev pub event : String → Dict
event device = ("device_id", str device) ∷ []

abbrev ops : List Write
ops = putting (event "a") ∷ putting (event "b") ∷ committing 1 ∷ putting (event "c") ∷ []

peek-writes_example :
    peek toy_codec 2 (writes toy_codec ops (empty_queue toy_codec)) ≡ event "b" ∷ event "c" ∷ []
peek-writes_example =
    peek-writes toy_codec 2 ops (empty_queue toy_codec) (empty_queue-IsQueue toy_codec)

abbrev pub filled : ℕ → PersistentQueue toy_codec
filled zero = empty_queue toy_codec
filled (suc n) = put toy_codec (event "old") (filled n)

pub filled-IsQueue : (n : ℕ) → IsQueue toy_codec (filled n)
filled-IsQueue zero = empty_queue-IsQueue toy_codec
filled-IsQueue (suc n) = put-IsQueue toy_codec (event "old") (filled n) (filled-IsQueue n)

abbrev pub holding : ℕ → Transport toy_codec
holding n = record { queue = filled n; delivered = [] }

size-filled : (n : ℕ) → size toy_codec (filled n) ≡ n
unfolding size put
size-filled zero = refl
size-filled (suc n) = rw length-append (omega (arith, size-filled n))

enqueue-during-flush_example :
    let after =
      flush_batch toy_codec
        (λ batch. true)
        (peek toy_codec batch_size (filled 102))
        (enqueue toy_codec 102 (event "new") (holding 102)) in
    (after.delivered ≡ [] ++ take batch_size (pending toy_codec (filled 102)))
    × (pending toy_codec after.queue
        ≡ drop (suc batch_size) (pending toy_codec (filled 102)) ++ event "new" ∷ [])
enqueue-during-flush_example =
    enqueue-during-flush toy_codec 102 (λ batch. true) (event "new") (holding 102) (λ batch. refl)
      (filled-IsQueue 102) (size-filled 102) (omega arith)
