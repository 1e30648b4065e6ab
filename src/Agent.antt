-- ===== src/Agent.antt =====
-- agent/main.py: what the agent does with an event that a monitor reports.
pub mod Reports
pub mod Anchors
pub mod Keyless
pub mod Integrity
pub mod Life
pub mod Stored
pub mod EndToEnd
use insider_threat_detection.Common.{ℕ, Bool, Option, List, [], ◌∷◌}
use insider_threat_detection.Json.{Dict, fields_of, obj}
use insider_threat_detection.Chain.{Hasher}
use insider_threat_detection.Logger.{Cipher, Logger, write}
use insider_threat_detection.Queue.{Codec}
use insider_threat_detection.Transport.{Transport, enqueue}

module _ (c : Cipher) (h : Hasher) (codec : Codec) where
  pub record Agent : Type 0 where
    pub audit_logger : Logger c
    pub transport : Transport codec

  -- A reported event, with the nonce that is drawn and whether the disk takes the line of the log.
  pub record Report : Type 0 where
    pub nonce : ℕ
    pub disk_ok : Bool
    pub event : Dict

  -- The OSError of `write` is dropped, and the event is queued all the same.
  unfoldable pub handle_event : Option c.Key → ℕ → Report → Agent → Agent
  unfolding write enqueue
  handle_event key max_queue_size r a = record {
    audit_logger = (write c h key r.nonce r.disk_ok (obj (fields_of r.event)) a.audit_logger).1;
    transport = enqueue codec max_queue_size r.event a.transport;
  }

  unfoldable pub handle_events : Option c.Key → ℕ → List Report → Agent → Agent
  unfolding handle_event
  handle_events key max_queue_size [] a = a
  handle_events key max_queue_size (r ∷ rest) a =
      handle_events key max_queue_size rest (handle_event key max_queue_size r a)
