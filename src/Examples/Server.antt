-- ===== src/Examples/Server.antt =====
-- Ingestion, alerts, anchors and a whole run of the transport at concrete events.
use text.Mathlib.TextLemmas.{cons≢nil}
use insider_threat_detection.Common.{◌++◌, if◌then◌else◌, ◌==◌, arith}
use insider_threat_detection.Json.{str}
use insider_threat_detection.Auth.{Settings, Limiter}
use insider_threat_detection.Queue.{empty_queue}
use insider_threat_detection.Transport.Delivery.{history}
use insider_threat_detection.Ingest.Handler.Outcomes.{stored_json}
use insider_threat_detection.Agent.Stored.{stored_of, Step, enqueues, flushes}
use insider_threat_detection.Agent.EndToEnd.{run, run-stored}
use insider_threat_detection.Examples.Data.{toy_codec}
use insider_threat_detection.Examples.Monitors.{toy_reading}
use insider_threat_detection.Examples.Handler.{driver, clocks, body}
use insider_threat_detection.Common.{Bool, List, ne_of_==-false}
use insider_threat_detection.Database.{Env}
use insider_threat_detection.Logger.{Logger, open_logger, session}
use insider_threat_detection.Agent.Anchors.{anchor_loop}
use insider_threat_detection.Agent.Anchors.Posted.{
  HasAnchored, loggers, anchor_rounds, anchor_rounds-HasAnchored,
}
use insider_threat_detection.Routes.{Backend}
use insider_threat_detection.Examples.Data.{toy_cipher, toy_hasher}
use insider_threat_detection.Examples.Access.{service}
use insider_threat_detection.Examples.Chains.{actions}
use insider_threat_detection.Examples.Runs.{open_backend, everyone}
use insider_threat_detection.Common.{◌+◌, String, ◌≡◌, refl, true, false, none, some, [], ◌∷◌}
use insider_threat_detection.Event.{Alert, high, unseen}
use insider_threat_detection.Database.Anchors.{Signing}
use insider_threat_detection.Database.Anchors.Evidence.{SigningLaws, HasCertificate}
use insider_threat_detection.Database.Scores.{get_risk_score}
use insider_threat_detection.Rules.{evaluate}
use insider_threat_detection.AlertManager.{process_alerts, delta_of}
use insider_threat_detection.AlertManager.Dedup.{IsSpaced, process_alerts-IsSpaced}
use insider_threat_detection.Ingest.{context, process_event}
use insider_threat_detection.Ingest.Guarantees.{get_risk_score-process_event}
use insider_threat_detection.Examples.Data.{at, plugged, setup, fresh_server, fresh_state}

get_risk_score-process_event_example :
    get_risk_score "desk-1" (process_event setup (at 40000) (plugged "a:b") fresh_state).server.db
    ≡ get_risk_score "desk-1" fresh_state.server.db
      + delta_of (
          evaluate
            (context setup (at 40000) fresh_state)
            (at 40000)
            (plugged "a:b")
            fresh_state.server.db)
get_risk_score-process_event_example =
    get_risk_score-process_event setup (at 40000) (plugged "a:b") fresh_state "desk-1"

abbrev alert : Alert
alert = record {
  rule_name = "unknown_device";
  severity = high;
  description = unseen "a:b" "S1" "desk-1";
}

process_alerts-IsSpaced_example :
    IsSpaced 300
      (process_alerts 300 (at 40000) (plugged "a:b") (alert ∷ alert ∷ []) fresh_server).db.alerts
process_alerts-IsSpaced_example =
    process_alerts-IsSpaced 300 (at 40000) (plugged "a:b") (alert ∷ alert ∷ []) fresh_server tt

-- A server without a TLS key and with a private key for MACs.
abbrev mac : String → String → String
mac k m = String.◌∷◌ "m" k

abbrev signing : Signing
signing = record {
  rsa_sign = λ m. none;
  cert_exists = false;
  rsa_verify = λ m d. false;
  anchor_key = "secret";
  allow_unsigned_anchors = false;
  fallback_key = "dev";
  hmac_sha256 = mac;
}

signing-laws : SigningLaws signing
signing-laws = record { rsa = λ m d e. cc; hmac = λ k m. cons≢nil }

signing-HasCertificate : HasCertificate signing
signing-HasCertificate = record { matches = λ m d e. cc }

abbrev anchoring_backend : Backend
anchoring_backend = record open_backend { signing = signing }

abbrev logged : Logger toy_cipher
logged = session toy_cipher toy_hasher none actions (open_logger toy_cipher none [])

-- A round before anything is logged, one after, and the one that is told to stop.
abbrev rounds : List (Env × (Bool × Logger toy_cipher))
rounds =
    (at 5, (false, open_logger toy_cipher none []))
    ∷ (at 6, (false, logged))
    ∷ (at 7, (true, logged))
    ∷ []

anchor_rounds-HasAnchored_example :
    HasAnchored anchoring_backend "agent-1"
      (some "10.0.0.3")
      (anchor_loop toy_cipher
        (loggers anchoring_backend "agent-1" (some "10.0.0.3") toy_cipher rounds))
      []
      (anchor_rounds anchoring_backend "agent-1"
        (some "10.0.0.3")
        toy_cipher
        rounds
        service).db.log_anchors
anchor_rounds-HasAnchored_example =
    anchor_rounds-HasAnchored anchoring_backend "agent-1" (some "10.0.0.3") "admin" signing-laws
      signing-HasCertificate (ne_of_==-false "secret" "" refl) (ne_of_==-false "agent-1" "" refl)
      everyone toy_cipher rounds service

abbrev open_to_all : Settings
open_to_all = open_backend.settings

abbrev AnyStep : Type 0
AnyStep = Step driver setup toy_reading open_to_all toy_codec 5

-- The first flush comes from an address that has used up its limit; the second event has no device.
abbrev journey : List AnyStep
journey =
    enqueues body
    ∷ flushes clocks 7 (some "10.0.0.9")
    ∷ enqueues (("hostname", str "desk-1") ∷ [])
    ∷ flushes clocks 17 (some "10.0.0.3")
    ∷ []

abbrev busy : Limiter open_to_all
busy client = if client == "10.0.0.9" then 6 ∷ 6 ∷ [] else []

run-stored_example :
    let after = run driver setup toy_reading open_to_all toy_codec 5 journey (record {
      transport = record { queue = empty_queue toy_codec; delivered = [] };
      server = (busy, fresh_state);
    }) in
    (history toy_codec after.transport ≡ body ∷ (("hostname", str "desk-1") ∷ []) ∷ [])
    × (stored_json after.server.1
        ≡ stored_json fresh_state ++ stored_of driver toy_reading after.transport.delivered)
run-stored_example =
    run-stored driver setup toy_reading open_to_all toy_codec 5 journey (busy, fresh_state)
      (omega arith)
