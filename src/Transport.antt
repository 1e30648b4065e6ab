-- ===== src/Transport.antt =====
-- agent/transport.py: the queue's bound and the flushes of EventTransport.
pub mod Delivery
pub mod Race
pub mod Poison
pub mod Shutdown
pub mod Tls
use insider_threat_detection.Common.{ℕ, Bool, List, [], ◌∷◌, ◌++◌, leb, if◌then◌else◌, length}
use insider_threat_detection.Json.{Dict}
use insider_threat_detection.Queue.{Codec, PersistentQueue, put, peek, commit, size}

abbrev pub batch_size : ℕ
batch_size = 100

-- The queue, and the events of the requests that the server answered with 200, in order.
pub record Transport (c : Codec) : Type 0 where
  pub queue : PersistentQueue c
  pub delivered : List Dict

module _ (c : Codec) (max_queue_size : ℕ) where
  -- On the queue alone: `size`, then `commit(1)` when it is full, then `put`.
  unfoldable pub make_room : PersistentQueue c → PersistentQueue c
  unfolding size commit
  make_room q = if leb max_queue_size (size c q) then commit c 1 q else q

  unfoldable pub enqueue : Dict → Transport c → Transport c
  unfolding put make_room
  enqueue event t = record t { queue = put c event (make_room t.queue) }

module _ (c : Codec) where
  -- `_flush` from the point where its batch was peeked. `post` is the server's answer to a request.
  unfoldable pub flush_batch : (List Dict → Bool) → List Dict → Transport c → Transport c
  unfolding commit
  flush_batch post [] t = t
  flush_batch post (event ∷ events) t =
      if post (event ∷ events)
      then record {
        queue = commit c (length (event ∷ events)) t.queue;
        delivered = t.delivered ++ event ∷ events;
      }
      else t

  unfoldable pub flush : (List Dict → Bool) → Transport c → Transport c
  unfolding flush_batch peek
  flush post t = flush_batch post (peek c batch_size t.queue) t

-- One call at a time.
pub data Call : Type 0 where
  enqueuing : Dict → Call
  flushing : (List Dict → Bool) → Call

module _ (c : Codec) (max_queue_size : ℕ) where
  abbrev pub calls : List Call → Transport c → Transport c
  calls [] t = t
  calls (enqueuing event ∷ rest) t = calls rest (enqueue c max_queue_size event t)
  calls (flushing post ∷ rest) t = calls rest (flush c post t)

abbrev pub enqueued : List Call → List Dict
enqueued [] = []
enqueued (enqueuing event ∷ rest) = event ∷ enqueued rest
enqueued (flushing _ ∷ rest) = enqueued rest
