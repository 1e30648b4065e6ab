-- ===== src/Examples/Runs.antt =====
-- Whole runs of the agent at concrete settings, files and reports.
use text.Mathlib.TextLemmas.{cons≢nil}
use insider_threat_detection.Common.{
  ℕ, ◌+◌, ◌≤◌, ◌≡◌, refl, ◌≢◌, inl, String, Bool, true, false, none, some, List, [], ◌∷◌, ◌++◌,
  arith, ◌==◌, if◌then◌else◌, any, drop, take, length, ne_of_==-false,
}
use insider_threat_detection.Common.Int.{pos}
use insider_threat_detection.Json.{Dict}
use insider_threat_detection.Chain.{genesis_hash, verify_chain}
use insider_threat_detection.Chain.Spec.{head_after}
use insider_threat_detection.Auth.{get_caller_role, parse_api_keys}
use insider_threat_detection.Logger.{load_from_file, open_logger, session}
use insider_threat_detection.Queue.{peek, put, size}
use insider_threat_detection.Queue.Fifo.{pending}
use insider_threat_detection.Transport.{
  Transport, batch_size, Call, enqueuing, flushing, calls, flush_batch,
}
use insider_threat_detection.Transport.Delivery.{history}
use insider_threat_detection.Transport.Shutdown.{stop-during-flush}
use insider_threat_detection.Routes.{Backend}
use insider_threat_detection.Agent.Reports.{started, writes_of}
use insider_threat_detection.Agent.Keyless.{delivers, agent_request, keyed-undelivered}
use insider_threat_detection.Agent.Integrity.{
  SourceFile, Hashing, register_with_server, check_with_server, check_with_server-folders,
}
use insider_threat_detection.Agent.Life.{
  Act, reporting, beginning, answered, stopping, acts, reports_of, IsJoined,
}
use insider_threat_detection.Agent.Life.Queued.{acts-queued}
use insider_threat_detection.AgentConfig.{AgentEnvironment, AgentSettings, agent_settings}
use insider_threat_detection.Common.{max}
use insider_threat_detection.AgentConfig.Started.{agent_settings-bounded}
use insider_threat_detection.Examples.Data.{
  toy_hasher, toy_cipher, toy_codec, at, setup, fresh_state,
}
use insider_threat_detection.Examples.Access.{settings, two_keys, backend, service}
use insider_threat_detection.Examples.Agent.{event, filled, filled-IsQueue, holding}
use insider_threat_detection.Examples.Monitors.{toy_reading}
use insider_threat_detection.Examples.Handler.{driver, clocks}

abbrev server_answer : List Dict → Bool
server_answer =
    delivers driver setup toy_reading settings clocks 7 (some "10.0.0.3")
      (λ client. [], fresh_state)

abbrev tries : List Call
tries = enqueuing (event "a") ∷ flushing server_answer ∷ enqueuing (event "b") ∷ []

keyed-undelivered_example :
    ((calls toy_codec 10 tries (holding 1)).delivered ≡ [])
    × (pending toy_codec (calls toy_codec 10 tries (holding 1)).queue
        ≡ pending toy_codec (filled 1) ++ event "a" ∷ event "b" ∷ [])
unfolding put
keyed-undelivered_example =
    keyed-undelivered driver setup toy_reading settings (inl (_, _, two_keys)) toy_codec 10 tries
      (holding 1) ((clocks, 7, some "10.0.0.3", (λ client. [], fresh_state), λ batch. refl), tt)
      (filled-IsQueue 1) (omega arith)

abbrev byte_text : List ℕ → String
byte_text [] = "h"
byte_text (b ∷ bytes) = String.◌∷◌ "h" (byte_text bytes)

byte_text-ne-empty : (bytes : List ℕ) → byte_text bytes ≢ ""
byte_text-ne-empty [] = cons≢nil
byte_text-ne-empty (b ∷ bytes) = cons≢nil

abbrev hashing : Hashing
hashing = record {
  sorted = λ files. files;
  is_py = λ name. any (λ n. n == name) ("main.py" ∷ "usb_monitor.py" ∷ []);
  sha256_hex = byte_text;
  sha256_hex-ne-empty = byte_text-ne-empty;
}

-- A server without keys.
abbrev pub open_backend : Backend
open_backend = record backend {
  settings = record settings { api_keys = ""; api_secret_key = ""; loads = λ t. none };
}

pub everyone :
    get_caller_role open_backend.settings (agent_request (some "10.0.0.3")) ≡ some "admin"
unfolding get_caller_role parse_api_keys
everyone = refl

abbrev installed : List ℕ → List SourceFile
installed monitor =
    (record { folders = []; name = "main.py"; bytes = some (1 ∷ 2 ∷ []) })
    ∷ (record { folders = "monitor" ∷ []; name = "usb_monitor.py"; bytes = some monitor })
    ∷ []

check_with_server-folders_example :
    check_with_server hashing open_backend (at 9) "agent-1" (some "10.0.0.3") (installed (9 ∷ [])) (
      register_with_server hashing open_backend
        (at 9)
        "agent-1"
        (some "10.0.0.3")
        (installed (7 ∷ 8 ∷ []))
        service)
    ≡ true
check_with_server-folders_example =
    check_with_server-folders hashing open_backend (at 9) "agent-1" (some "10.0.0.3")
      (some "10.0.0.3") (installed (7 ∷ 8 ∷ [])) (installed (9 ∷ [])) service
      (ne_of_==-false "agent-1" "" refl) everyone everyone refl

abbrev AnyAct : Type 0
AnyAct = Act toy_cipher toy_hasher toy_codec

abbrev report : ℕ → Bool → String → AnyAct
report nonce disk_ok device =
    reporting (record { nonce = nonce; disk_ok = disk_ok; event = event device })

abbrev run : List AnyAct
run =
    report 1 true "a"
    ∷ beginning
    ∷ report 2 false "b"
    ∷ answered true
    ∷ stopping (λ batch. true)
    ∷ report 3 true "late"
    ∷ []

acts-queued_example :
    let l = acts toy_cipher toy_hasher toy_codec (some 5) 5 run (record {
      agent = started toy_cipher toy_hasher toy_codec (some 5) 5;
      in_flight = none;
      closed = false;
    }) in
    (history toy_codec l.agent.transport ≡ event "a" ∷ event "b" ∷ [])
    × (l.agent.audit_logger
        ≡ session toy_cipher toy_hasher
            (some 5)
            (writes_of toy_cipher toy_hasher toy_codec
              (some 5)
              5
              (reports_of toy_cipher toy_hasher toy_codec (some 5) 5 run))
            (open_logger toy_cipher (some 5) []))
    × ((records : List Dict) × (load_from_file toy_cipher (some 5) l.agent.audit_logger.file
          ≡ some records)
        × (verify_chain toy_hasher records ≡ some [])
        × (head_after toy_hasher genesis_hash records ≡ l.agent.audit_logger.prev_hash))
unfolding IsJoined
acts-queued_example = acts-queued toy_cipher toy_hasher toy_codec (some 5) 5 run (omega arith) refl

abbrev environment : AgentEnvironment
environment = record {
  environ = λ name. if name == "ITDN_MAX_QUEUE_SIZE" then some "3" else none;
  dotenv = λ name. none;
  int_of = λ text. if text == "3" then some (pos 3) else none;
  bool_of = λ text. none;
  is_positive_float = λ text. none;
  gethostname = "desk-1";
  join = λ dir name. name;
}

abbrev small : AgentSettings environment
small = record {
  server_url = "https://siem.internal:8443";
  server_cert = "/etc/itdn/siem-ca.crt";
  agent_cert = "/etc/itdn/agent.crt";
  agent_key = "/etc/itdn/agent.key";
  hostname = "desk-1";
  local_log_dir = "/var/log/itdn";
  local_log_file = "agent.log";
  retry_db = "retry.db";
  flush_interval = 10;
  max_queue_size = 3;
  poll_interval = none;
  bt_monitor_enabled = true;
  log_key = "";
  anchor_interval = 300;
}

environment-small : agent_settings environment ≡ some small
unfolding agent_settings
environment-small = refl

agent_settings-bounded_example :
    let first : Transport toy_codec = record { queue = filled 7; delivered = [] } in
    size toy_codec (calls toy_codec 3 tries first).queue ≤ max 3 (size toy_codec (filled 7))
agent_settings-bounded_example =
    agent_settings-bounded environment toy_codec small (filled 7) tries environment-small
      (filled-IsQueue 7)

filled-long : batch_size ≤ length (pending toy_codec (filled 102))
unfolding put
filled-long = omega arith

stop-during-flush_example :
    let batch = peek toy_codec batch_size (filled 102) in
    let after =
      flush_batch toy_codec
        (λ b. true)
        batch
        (flush_batch toy_codec (λ b. true) batch (holding 102)) in
    (after.delivered
      ≡ []
        ++ (take batch_size (pending toy_codec (filled 102))
            ++ take batch_size (pending toy_codec (filled 102))))
    × (pending toy_codec after.queue
        ≡ drop (batch_size + batch_size) (pending toy_codec (filled 102)))
stop-during-flush_example =
    stop-during-flush toy_codec (λ b. true) (λ b. true) (holding 102) (λ b. refl) (λ b. refl)
      (filled-IsQueue 102) filled-long
