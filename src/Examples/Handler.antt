-- ===== src/Examples/Handler.antt =====
-- POST /api/v1/events at concrete requests.
use insider_threat_detection.Common.{
  ℕ, ◌≡◌, refl, ◌⊎◌, String, Option, none, some, List, [], ◌∷◌, length, min,
}
use insider_threat_detection.Common.Int.{pos}
use insider_threat_detection.Json.{Json, Dict, str, num, arr, cons, nil}
use insider_threat_detection.Auth.{Limiter, Request}
use insider_threat_detection.Event.{connected}
use insider_threat_detection.Database.{Env}
use insider_threat_detection.Database.Audit.Linked.{IsSound}
use insider_threat_detection.AlertManager.Dedup.{IsSpaced}
use insider_threat_detection.Metrics.{sum_counts}
use insider_threat_detection.Metrics.Render.{active_alerts, render_lines}
use insider_threat_detection.Metrics.Scrape.{value_of, open_alerts}
use insider_threat_detection.Schema.{DeviceEvent}
use insider_threat_detection.Transport.Poison.{request_body}
use insider_threat_detection.Ingest.Handler.{Driver, handle_events}
use insider_threat_detection.Ingest.Handler.Outcomes.{dumped, stored_json}
use insider_threat_detection.Ingest.Handler.Batches.{handle_events-stored}
use insider_threat_detection.Ingest.Handler.Requests.{
  Post, posts, IsTurnedDown, IsTaken, post_events-guards, posts-IsSound,
}
use insider_threat_detection.AlertManager.Delivery.{IsTold}
use insider_threat_detection.Ingest.Handler.Counted.{posts-scraped}
use insider_threat_detection.Examples.Data.{toy_hasher, at, at-IsFresh, setup, fresh_state}
use insider_threat_detection.Examples.Access.{settings, from_reader}
use insider_threat_detection.Examples.Chains.{empty-IsSound}
use insider_threat_detection.Examples.Monitors.{toy_reading}

abbrev kept_text : Json → Option String
kept_text (str s) = some s
kept_text _ = none

abbrev pub driver : Driver
driver = record {
  text_of = kept_text;
  offset_of = λ v. none;
  max_integer = 9223372036854775807;
  text_of_str = λ s. refl;
}

abbrev copied : ℕ → Json → DeviceEvent
copied bytes user = record {
  event_type = connected;
  device_id = "0781:5567";
  hostname = "desk-1";
  serial = "S1";
  manufacturer = "m";
  product = "p";
  bus_path = "1-2";
  timestamp = "";
  transfer_bytes = bytes;
  extra = ("user", user) ∷ [];
}

-- The user as a JSON list.
abbrev listed : DeviceEvent
listed = copied 500 (arr (cons (str "ann") nil))

-- Two events that fit, and between them one that is too large.
abbrev mixed : List DeviceEvent
mixed = copied 5 (str "ann") ∷ copied 9223372036854775808 (str "ann") ∷ listed ∷ []

abbrev pub clocks : ℕ → Env
clocks n = at 40000

handle_events-stored_example :
    let (stored, after) = handle_events driver setup clocks 0 mixed fresh_state in
    (stored ≡ 2) × (stored_json after ≡ dumped (copied 5 (str "ann")) ∷ dumped listed ∷ [])
handle_events-stored_example = handle_events-stored driver setup clocks 0 mixed fresh_state

abbrev pub body : Dict
body =
    ("event_type", str "connected")
    ∷ ("device_id", str "0781:5567")
    ∷ ("hostname", str "desk-1")
    ∷ ("transfer_bytes", num (pos 500))
    ∷ []

abbrev AnyPost : Type 0
AnyPost = Post driver setup toy_reading settings

abbrev posting : Request → Option Json → AnyPost
posting request raw = record { envs = clocks; now = 40000; request = request; raw = raw }

abbrev without_key : Request
without_key = record { authorization = none; remote_addr = some "10.0.0.3" }

abbrev accepted_post : AnyPost
accepted_post = posting from_reader (some (request_body (body ∷ body ∷ [])))

abbrev requests : List AnyPost
requests =
    accepted_post
    ∷ posting without_key (some (request_body (body ∷ [])))
    ∷ posting from_reader none
    ∷ []

abbrev no_requests : Limiter settings
no_requests = λ client. []

post_events-guards_example :
    IsTurnedDown driver setup toy_reading settings accepted_post no_requests fresh_state
    ⊎ IsTaken driver setup toy_reading settings accepted_post no_requests fresh_state
post_events-guards_example =
    post_events-guards driver setup toy_reading settings accepted_post no_requests fresh_state

posts-IsSound_example :
    IsSound toy_hasher
      (posts driver setup toy_reading settings requests (no_requests, fresh_state)).1.server.db
    × IsSpaced 300
        (posts driver setup toy_reading settings requests
          (no_requests, fresh_state)).1.server.db.alerts
posts-IsSound_example =
    posts-IsSound driver setup toy_reading settings requests (no_requests, fresh_state)
      (λ k. at-IsFresh 40000, (λ k. at-IsFresh 40000, (λ k. at-IsFresh 40000, tt)))
      (empty-IsSound, tt)

posts-scraped_example :
    let server =
      (posts driver setup toy_reading settings requests (no_requests, fresh_state)).1.server in
    let lines = render_lines server.metrics (active_alerts server.db) in
    (value_of "itdn_events_ingested_total" [] lines ≡ some (length server.db.events))
    × (value_of "itdn_alerts_active" [] lines ≡ some (min 100000 (length (open_alerts server.db))))
    × (sum_counts server.metrics.alerts_fired ≡ length server.db.alerts)
    × IsTold server
posts-scraped_example =
    posts-scraped driver setup toy_reading settings requests no_requests fresh_state refl refl refl
      refl
