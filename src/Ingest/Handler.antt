-- ===== src/Ingest/Handler.antt =====
-- server/routers/events.py: POST /api/v1/events as a whole, from the request to the answer.
pub mod Stages
pub mod Outcomes
pub mod Batches
pub mod Requests
pub mod Counted
use insider_threat_detection.Common.{
  value_or, ℕ, zero, suc, ◌+◌, String, ◌≡◌, Bool, true, false, not, Option, none, some, List, [],
  ◌∷◌, ◌++◌, ltb, if◌then◌else◌, is_empty, ◌||◌,
}
use insider_threat_detection.Common.Int.{ℤ, pos}
use insider_threat_detection.Json.{Json, null, bool, num, float, str, arr, obj, nil, end, get}
use insider_threat_detection.Auth.{
  Settings, Request, Outcome, handled, Limiter, require_api_key, rate_limit,
}
use insider_threat_detection.Event.{Event, Alert, to_json}
use insider_threat_detection.Database.{Env, Db}
use insider_threat_detection.Database.Events.{insert_event}
use insider_threat_detection.Database.Audit.{append_audit_record}
use insider_threat_detection.Database.Baselines.{update_device_baseline, update_user_baseline}
use insider_threat_detection.Rules.{evaluate}
use insider_threat_detection.Metrics.{inc_events_ingested}
use insider_threat_detection.AlertManager.{Outgoing, splunk_event, es_event}
use insider_threat_detection.Schema.{
  Reading, DeviceEvent, Checked, accepted, bad_request, raised, check_request,
}
use insider_threat_detection.Ingest.{
  Setup, State, context, feed_after, count_rules, note_offset, handle_alerts,
}

-- The database driver: the text that a value is kept as in a text column, the offset in seconds
-- that a value is kept as after `float`, where `none` is an exception, and the largest number that
-- an integer column takes.
pub record Driver : Type 0 where
  pub text_of : Json → Option String
  pub offset_of : Json → Option ℤ
  pub max_integer : ℕ
  pub text_of_str : (s : String) → text_of (str s) ≡ some s

-- `if not value`
abbrev pub is_falsy : Json → Bool
is_falsy null = true
is_falsy (bool b) = not b
is_falsy (num (pos zero)) = true
is_falsy (float (pos zero)) = true
is_falsy (str s) = is_empty s
is_falsy (arr nil) = true
is_falsy (obj end) = true
is_falsy _ = false

-- The JSON that is returned, or an answer 400, or an exception of the handler, a 500.
pub data Reply : Type 0 where
  ok : ℕ → Reply
  refused : Reply
  server_error : Reply

abbrev pub reply_status : Reply → ℕ
reply_status (ok stored) = 200
reply_status refused = 400
reply_status server_error = 500

module _ (d : Driver) where
  -- `event.get("user", "")` as a parameter of a query; `none` is a user that no query takes.
  abbrev pub user_of : Option Json → Option String
  user_of none = some ""
  user_of (some v) = if is_falsy v then some "" else d.text_of v

  -- `event.get("utc_offset_hours")`; the handler drops an offset on which `float` raises.
  abbrev pub utc_offset : Option Json → Option ℤ
  utc_offset none = none
  utc_offset (some null) = none
  utc_offset (some v) = d.offset_of v

  -- The event that the loop works on, for a user as it is kept.
  abbrev pub event_of : String → DeviceEvent → Event
  event_of user e = record {
    event_type = e.event_type;
    device_id = e.device_id;
    hostname = e.hostname;
    serial = e.serial;
    manufacturer = e.manufacturer;
    product = e.product;
    bus_path = e.bus_path;
    timestamp = e.timestamp;
    transfer_bytes = e.transfer_bytes;
    user = user;
    utc_offset_hours = utc_offset (get "utc_offset_hours" e.extra);
    extra = e.extra;
  }

  module _ (u : Setup) (env : Env) where
    -- A statement of the loop's body: what it makes of the number of stored events and the state, or
    -- an exception.
    abbrev Statement : Type 0
    Statement = ℕ × State → Option (ℕ × State)

    abbrev on_db : (Db → Db) → Statement
    on_db f (n, st) = some (n, record st { server = record st.server { db = f st.server.db } })

    abbrev forward : Outgoing → Statement
    forward message (n, st) =
        some
          (n, record st { server = record st.server { outbox = st.server.outbox ++ message ∷ [] } })

    -- `insert_event`, which raises on a number that its column does not take, and the two counters.
    abbrev pub store : DeviceEvent → Event → Statement
    store e event (n, st) =
        if ltb d.max_integer e.transfer_bytes
        then none
        else some (
          suc n,
          record st {
            server = record st.server {
              db = (insert_event env event st.server.db).1;
              metrics = inc_events_ingested st.server.metrics;
            };
          },
        )

    -- `if hostname and device_id:`
    abbrev is_unnamed : Event → Bool
    is_unnamed event = is_empty event.hostname || is_empty event.device_id

    abbrev device_baseline : Event → Db → Db
    device_baseline event db =
        if is_unnamed event
        then db
        else update_device_baseline env event.hostname event.device_id db

    abbrev note_user : Event → Db → Db
    note_user event db =
        if is_unnamed event
        then db
        else if is_empty event.user
        then db
        else update_user_baseline env event.user event.hostname event.device_id db

    -- A user that no query takes makes `update_user_baseline` raise.
    abbrev user_baseline : Option String → Event → Statement
    user_baseline none event p = if is_unnamed event then some p else none
    user_baseline (some user) event p = on_db (note_user event) p

    abbrev time_zone : Event → Db → Db
    time_zone event db =
        if is_unnamed event then db else note_offset u env event.hostname event.utc_offset_hours db

    -- `if alerts:`
    abbrev on_alerts : Event → List Alert → Statement
    on_alerts event alerts (n, st) =
        some (n, record st { server = handle_alerts u env event alerts st.server })

    -- The statements after those of `store`, in the order of the source.
    abbrev pub after_store : Option String → Event → List Alert → List Statement
    after_store user event alerts =
        on_db (λ db. (append_audit_record u.hasher env event.hostname (to_json event) db).1)
        ∷ forward (splunk_event event)
        ∷ forward (es_event event)
        ∷ on_db (device_baseline event)
        ∷ user_baseline user event
        ∷ on_db (time_zone event)
        ∷ on_alerts event alerts
        ∷ []

    -- The statements after `rules.evaluate`.
    unfoldable pub statements : DeviceEvent → Option String → Event → List Alert → List Statement
    statements e user event alerts = store e event ∷ after_store user event alerts

    -- The statements up to the first that raises, with the handler round them.
    abbrev pub run_statements : List Statement → ℕ × State → ℕ × State
    run_statements [] p = p
    run_statements (statement ∷ rest) p = elim (statement p) [
      | none ↦ p
      | some q ↦ run_statements rest q
    ]

    -- The state once the rules have run.
    abbrev pub evaluated : Event → List Alert → State → State
    evaluated event alerts st = record st {
      server = record st.server { metrics = count_rules u env alerts st.server.metrics };
      feed = feed_after u env event st.feed;
    }

    -- The body of the loop with the handler round it, and what it adds to `stored`. The rule on users
    -- drops the exception on a user that no query takes, and so finds nothing, as for a user "".
    unfoldable pub handle_event : DeviceEvent → State → ℕ × State
    unfolding statements
    handle_event e st =
        let user = user_of (get "user" e.extra) in
        let event = event_of (value_or "" user) e in
        let alerts = evaluate (context u env st) env event st.server.db in
        run_statements (statements e user event alerts) (0, evaluated event alerts st)

  module _ (u : Setup) where
    -- The loop: the clock and the keys of turn n, and of those after it.
    unfoldable pub handle_events : (ℕ → Env) → ℕ → List DeviceEvent → State → ℕ × State
    unfolding handle_event
    handle_events envs n [] st = (0, st)
    handle_events envs n (e ∷ es) st =
        let (counted, st') = handle_event u (envs n) e st in
        let (stored, st'') = handle_events envs (suc n) es st' in (counted + stored, st'')

    abbrev pub after_checks : (ℕ → Env) → Checked → State → Outcome Reply × State
    after_checks envs bad_request st = (handled refused, st)
    after_checks envs raised st = (handled server_error, st)
    after_checks envs (accepted es) st =
        let (stored, st') = handle_events envs 0 es st in (handled (ok stored), st')

    -- The view with its decorators. `now` is the limiter's clock.
    unfoldable pub post_events :
        Reading
        → (settings : Settings) → (ℕ → Env)
        → ℕ
        → Request
        → Option Json
        → Limiter settings × State
        → Outcome Reply × (Limiter settings × State)
    unfolding handle_events
    post_events r settings envs now request raw =
        require_api_key settings request
          (rate_limit settings now request (after_checks envs (check_request r raw)))
