-- ===== src/Agent/Life.antt =====
-- agent/main.py with agent/transport.py: a run of the agent, from its start to the stop of the transport
-- and beyond, with the reports and the two halves of each flush in any order.
pub mod Queued
use insider_threat_detection.Common.{
  ℕ, ◌≡◌, Bool, true, false, Option, none, some, List, [], ◌∷◌, ◌++◌, if◌then◌else◌,
}
use insider_threat_detection.Json.{Dict, fields_of, obj}
use insider_threat_detection.Chain.{Hasher}
use insider_threat_detection.Logger.{Cipher, write}
use insider_threat_detection.Queue.{Codec, peek}
use insider_threat_detection.Transport.{batch_size, flush, flush_batch}
use insider_threat_detection.Agent.{Agent, Report, handle_event}

module _ (c : Cipher) (h : Hasher) (codec : Codec) where
  -- `in_flight` is the batch about which the transport's thread waits for an answer. `stop` of the
  -- transport closes the queue's connection; nothing opens it again.
  pub record Life : Type 0 where
    pub agent : Agent c h codec
    pub in_flight : Option (List Dict)
    pub closed : Bool

  -- A monitor reports; the transport's thread begins a flush, up to its request; its request is
  -- answered, with 200 or not, and it ends the flush; or main stops the transport, with a last flush.
  pub data Act : Type 0 where
    reporting : Report c h codec → Act
    beginning : Act
    answered : Bool → Act
    stopping : (List Dict → Bool) → Act

  module _ (key : Option c.Key) (max_queue_size : ℕ) where
    -- `if not batch: return`
    abbrev pub taken : List Dict → Option (List Dict)
    taken [] = none
    taken (event ∷ events) = some (event ∷ events)

    -- The thread takes a batch, unless it waits for an answer already.
    abbrev pub begin : Option (List Dict) → Agent c h codec → Option (List Dict)
    begin none a = taken (peek codec batch_size a.transport.queue)
    begin (some batch) a = some batch

    abbrev pub end_flush : Bool → Option (List Dict) → Agent c h codec → Agent c h codec
    end_flush ok none a = a
    end_flush ok (some batch) a = record a {
      transport = flush_batch codec (λ b. ok) batch a.transport;
    }

    unfoldable pub act_open : Act → Option (List Dict) → Agent c h codec → Life
    unfolding handle_event flush flush_batch peek
    act_open (reporting r) f a = record {
      agent = handle_event c h codec key max_queue_size r a;
      in_flight = f;
      closed = false;
    }
    act_open beginning f a = record { agent = a; in_flight = begin f a; closed = false }
    act_open (answered ok) f a = record {
      agent = end_flush ok f a;
      in_flight = none;
      closed = false;
    }
    act_open (stopping post) f a = record {
      agent = record a { transport = flush codec post a.transport };
      in_flight = f;
      closed = true;
    }

    -- The server has taken the batch; `commit` raises on the closed connection.
    abbrev pub end_closed : Bool → Option (List Dict) → Agent c h codec → Agent c h codec
    end_closed ok none a = a
    end_closed ok (some batch) a = record a {
      transport = record a.transport {
        delivered = if ok then a.transport.delivered ++ batch else a.transport.delivered;
      };
    }

    -- With the connection closed `put` raises: the log has the event, and the exception ends the
    -- report. A flush that begins raises before it has done anything.
    unfoldable pub act_closed : Act → Option (List Dict) → Agent c h codec → Life
    unfolding write
    act_closed (reporting r) f a = record {
      agent = record a {
        audit_logger = (write c h key r.nonce r.disk_ok (obj (fields_of r.event)) a.audit_logger).1;
      };
      in_flight = f;
      closed = true;
    }
    act_closed (answered ok) f a = record {
      agent = end_closed ok f a;
      in_flight = none;
      closed = true;
    }
    act_closed _ f a = record { agent = a; in_flight = f; closed = true }

    unfoldable pub act : Act → Life → Life
    unfolding act_open act_closed
    act x l = if l.closed then act_closed x l.in_flight l.agent else act_open x l.in_flight l.agent

    unfoldable pub acts : List Act → Life → Life
    unfolding act
    acts [] l = l
    acts (x ∷ xs) l = acts xs (act x l)

    abbrev pub reports_of : List Act → List (Report c h codec)
    reports_of [] = []
    reports_of (reporting r ∷ xs) = r ∷ reports_of xs
    reports_of (_ ∷ xs) = reports_of xs

    -- The events that are reported before the stop.
    abbrev pub events_before : List Act → List Dict
    events_before [] = []
    events_before (reporting r ∷ xs) = r.event ∷ events_before xs
    events_before (beginning ∷ xs) = events_before xs
    events_before (answered ok ∷ xs) = events_before xs
    events_before (stopping post ∷ xs) = []

    -- The stop finds the thread without a flush that waits for its answer.
    unfoldable pub IsJoined : List Act → Life → Type 0
    unfolding act
    IsJoined [] l = Unit
    IsJoined (stopping post ∷ xs) l = l.in_flight ≡ none
    IsJoined (x ∷ xs) l = IsJoined xs (act x l)
