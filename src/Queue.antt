-- ===== src/Queue.antt =====
-- agent/retry_queue.py: the table of undelivered events.
pub mod Fifo
use insider_threat_detection.Common.{
  ℕ, suc, ◌≡◌, Bool, not, List, [], ◌∷◌, ◌++◌, map, nat_eq, length, take, select, any, sort_asc,
}
use insider_threat_detection.Json.{Dict}

-- json.dumps of an event and json.loads of such a text.
pub record Codec : Type 1 where
  pub Text : Type 0
  pub dumps : Dict → Text
  pub loads : Text → Dict
  pub loads-dumps : (event : Dict) → loads (dumps event) ≡ event

module _ (c : Codec) where
  pub record QueueRow : Type 0 where
    pub id : ℕ
    pub payload : c.Text

  -- AUTOINCREMENT never gives a key that the table has had: `next_id` is the engine's counter.
  pub record PersistentQueue : Type 0 where
    pub rows : List QueueRow
    pub next_id : ℕ

  unfoldable pub put : Dict → PersistentQueue → PersistentQueue
  put event q = record {
    rows = q.rows ++ (record { id = q.next_id; payload = c.dumps event }) ∷ [];
    next_id = suc q.next_id;
  }

  -- `ORDER BY id ASC LIMIT ?`
  abbrev pub oldest : ℕ → PersistentQueue → List QueueRow
  oldest limit q = take limit (sort_asc (λ r. r.id) q.rows)

  unfoldable pub peek : ℕ → PersistentQueue → List Dict
  peek limit q = map (λ r. c.loads r.payload) (oldest limit q)

  -- `id IN (…)`
  abbrev pub is_one_of : List QueueRow → QueueRow → Bool
  is_one_of taken r = any (λ t. nat_eq t.id r.id) taken

  unfoldable pub commit : ℕ → PersistentQueue → PersistentQueue
  commit count q = record q { rows = select (λ r. not (is_one_of (oldest count q) r)) q.rows }

  unfoldable pub size : PersistentQueue → ℕ
  size q = length q.rows

  abbrev pub empty_queue : PersistentQueue
  empty_queue = record { rows = []; next_id = 1 }
