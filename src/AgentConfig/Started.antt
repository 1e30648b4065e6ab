-- ===== src/AgentConfig/Started.antt =====
-- What holds of an agent that has started, whatever its environment.
use mathlib.Core.Option.{some_inj}
use insider_threat_detection.Common.{
  or_else-none, value_or, ℕ, max, ◌≤◌, String, ◌≡◌, refl, sym, ap, ◌∙◌, Bool, true, Option, none,
  some, List, [], arith, >>=-eq-some, ◌≢◌, ==-false_of_ne,
}
use insider_threat_detection.ServerConfig.{setting}
use insider_threat_detection.ServerConfig.Thresholds.{checked-range}
use insider_threat_detection.Queue.{Codec, PersistentQueue, size}
use insider_threat_detection.Queue.Fifo.{IsQueue}
use insider_threat_detection.Transport.{Transport, Call, calls}
use insider_threat_detection.Transport.Delivery.{calls-within}
use insider_threat_detection.AgentConfig.{
  AgentEnvironment, environment, bool_or, positive_or_default, AgentSettings, settings_of,
  non_empty_or, agent_settings, db_path,
}

module _ (e : AgentEnvironment) where
  -- The intervals and the bound of the queue are at least 1.
  pub record IsPositive (s : AgentSettings e) : Type 0 where
    pub flush_interval : 1 ≤ s.flush_interval
    pub max_queue_size : 1 ≤ s.max_queue_size
    pub anchor_interval : 1 ≤ s.anchor_interval

  positive :
      (name : String) (default n : ℕ)
      → 1 ≤ default
      → setting (environment e) name default 1 none ≡ some n
      → 1 ≤ n
  positive name default n d h =
      (checked-range (environment e) 1 none ((environment e).value name) default n (d, tt) h).0

  -- The numbers that were read, within their ranges, and the settings made of them.
  record Parts (s : AgentSettings e) : Type 0 where
    flush : ℕ
    most : ℕ
    poll : Option String
    bluetooth : Bool
    anchor : ℕ
    flush_ok : 1 ≤ flush
    most_ok : 1 ≤ most
    anchor_ok : 1 ≤ anchor
    made : settings_of e flush most poll bluetooth anchor ≡ s

  parts : (s : AgentSettings e) → agent_settings e ≡ some s → Parts s
  unfolding agent_settings
  parts s h =
      let (flush, f, h1) =
        >>=-eq-some (setting (environment e) "ITDN_FLUSH_INTERVAL" 10 1 none) _ h in
      let (most, m, h2) =
        >>=-eq-some (setting (environment e) "ITDN_MAX_QUEUE_SIZE" 500 1 none) _ h1 in
      let (poll, p, h3) =
        >>=-eq-some (positive_or_default e ((environment e).value "ITDN_POLL_INTERVAL")) _ h2 in
      let (bluetooth, b, h4) =
        >>=-eq-some (bool_or e true ((environment e).value "ITDN_BT_ENABLED")) _ h3 in
      let (anchor, a, h5) =
        >>=-eq-some (setting (environment e) "ITDN_ANCHOR_INTERVAL" 300 1 none) _ h4 in
      record {
        flush = flush;
        most = most;
        poll = poll;
        bluetooth = bluetooth;
        anchor = anchor;
        flush_ok = positive "ITDN_FLUSH_INTERVAL" 10 flush (omega arith) f;
        most_ok = positive "ITDN_MAX_QUEUE_SIZE" 500 most (omega arith) m;
        anchor_ok = positive "ITDN_ANCHOR_INTERVAL" 300 anchor (omega arith) a;
        made = some_inj.0 h5;
      }

  pub agent_settings-IsPositive : (s : AgentSettings e) → agent_settings e ≡ some s → IsPositive s
  agent_settings-IsPositive s h =
      let p = parts s h in
      rw (← p.made) (record {
        flush_interval = p.flush_ok;
        max_queue_size = p.most_ok;
        anchor_interval = p.anchor_ok;
      })

  -- While the queue of an agent that has started, whatever its environment, is called from one thread
  -- at a time, it never holds more events than the settings allow or than an earlier run left in its
  -- file, whichever is more, whatever is enqueued and flushed.
  pub agent_settings-bounded :
      (c : Codec) (s : AgentSettings e) (left : PersistentQueue c) (cs : List Call)
      → agent_settings e ≡ some s
      → IsQueue c left
      → let first : Transport c = record { queue = left; delivered = [] } in
        size c (calls c s.max_queue_size cs first).queue ≤ max s.max_queue_size (size c left)
  agent_settings-bounded c s left cs h is_queue =
      calls-within c s.max_queue_size cs (record { queue = left; delivered = [] })
        (max s.max_queue_size (size c left)) (agent_settings-IsPositive s h).max_queue_size
        (omega arith) is_queue (omega arith)

  agent_settings-retry_db :
      (s : AgentSettings e)
      → agent_settings e ≡ some s
      → s.retry_db
        ≡ non_empty_or e
            (value_or "" ((environment e).value "ITDN_RETRY_DB"))
            (e.join (value_or "/var/log/itdn" ((environment e).value "ITDN_LOG_DIR")) "retry.db")
  agent_settings-retry_db s h = rw (← (parts s h).made) refl

  agent_settings-log_dir :
      (s : AgentSettings e)
      → agent_settings e ≡ some s
      → s.local_log_dir ≡ value_or "/var/log/itdn" ((environment e).value "ITDN_LOG_DIR")
  agent_settings-log_dir s h = rw (← (parts s h).made) refl

  non_empty_text :
      (o : Option String) (default : String)
      → o ≢ some ""
      → non_empty_or e (value_or "" o) default ≡ value_or default o
  non_empty_text none default n = refl
  non_empty_text (some text) default n = rw (==-false_of_ne text "" (λ p. n (ap some p))) refl

  -- The queue's file is the one that the settings name, if the .env file sets neither ITDN_RETRY_DB nor
  -- ITDN_LOG_DIR, and the environment does not set ITDN_RETRY_DB to the empty text.
  pub db_path-retry_db :
      (s : AgentSettings e)
      → agent_settings e ≡ some s
      → e.dotenv "ITDN_RETRY_DB" ≡ none
      → e.dotenv "ITDN_LOG_DIR" ≡ none
      → e.environ "ITDN_RETRY_DB" ≢ some ""
      → db_path e ≡ s.retry_db
  unfolding db_path
  db_path-retry_db s h no_db no_dir n = sym (
      agent_settings-retry_db s h
      ∙ rw
          (
            no_db,
            no_dir,
            or_else-none (e.environ "ITDN_RETRY_DB"),
            or_else-none (e.environ "ITDN_LOG_DIR"),
          )
          (non_empty_text (e.environ "ITDN_RETRY_DB") _ n))

  -- If the environment sets ITDN_RETRY_DB to the empty text, the queue's file has an empty name, while
  -- the settings name a file in the folder of the log.
  pub db_path_of_empty :
      (s : AgentSettings e)
      → agent_settings e ≡ some s
      → e.environ "ITDN_RETRY_DB" ≡ some ""
      → (db_path e ≡ "") × (s.retry_db ≡ e.join s.local_log_dir "retry.db")
  unfolding db_path
  db_path_of_empty s h empty =
      (rw empty refl, agent_settings-retry_db s h ∙ rw (empty, agent_settings-log_dir s h) refl)
