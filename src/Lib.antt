-- ===== src/Lib.antt =====
-- A verification library for the insider threat detection network: agents that log the USB and
-- Bluetooth devices of a host in a hash chain, and a server that collects their events, detects
-- suspicious ones and raises alerts.
--
-- The parts, the files that model them, and how they interact:
--
--   Chain        tools/verify_chain.py: the verifier of a hash chain. Hasher holds the canonical text
--                of a record and SHA-256, with what the code relies on.
--   Verify       tools/verify_chain.py: main and the anchors that it shows, up to the exit status.
--   Logger       agent/logger.py and agent/crypto.py: the agent's append-only log, encrypted or not,
--                with restarts and failing writes; the key in ITDN_LOG_KEY; and the file reader of
--                tools/verify_chain.py.
--   Queue        agent/retry_queue.py: the table of undelivered events.
--   Transport    agent/transport.py: the queue's bound, the flushes to the server, the stop, and the
--                TLS context.
--   Agent        agent/main.py: the handler of a reported event, which joins the log and the queue, over
--                a whole run of the agent, each flush in two halves; agent/anchor_scheduler.py: the chain heads that are
--                posted, with the rows that they become in Routes; agent/integrity.py: the hash of
--                the agent's files and its requests, which Routes answers; the headers of all
--                requests, which Auth reads; and in Stored and EndToEnd runs of the transport with
--                the server of Ingest that answers it.
--   AgentConfig  agent/config.py: the settings of the agent, which bound the queue of Transport.
--   Monitor      agent/monitor/: the events of the USB and Bluetooth monitors, the listings and the
--                loops with their fallbacks, and the start and stop of the agent's worker threads.
--   Schema       server/schema.py: the validation of events, and the request checks of
--                server/routers/events.py, which decide what reaches Ingest.
--   Event        server/schema.py: the event that the server works on, and the alerts of the rules.
--   Database     server/database.py: the tables, one child module for each group of functions.
--   Auth         server/auth.py: keys, roles and the rate limit.
--   Routes       server/routers/admin.py, alerts.py, anchor.py and integrity.py: the routes that change
--                state, each with its decorator.
--   RuleConfig   server/detection/rule_config.py: the thresholds and their updates at run time.
--   ServerConfig server/config.py: the settings and constants, read when the server starts.
--   Logging      server/logging_config.py and agent/logging_config.py: the root logger.
--   ThreatFeed   server/detection/threat_feed.py and honeypot.py: the lists of bad devices.
--   Rules        server/detection/rules.py: the eight rules and evaluate.
--   AttackGraph  server/detection/attack_graph.py: the graph of a host and the pattern sought in it.
--   Anomaly      server/detection/anomaly.py: the scores of a host's events.
--   Views        server/routers/analytics.py, and the GET routes of alerts.py, anchor.py, audit.py and
--                system.py.
--   Metrics      server/metrics.py: the counters and their text, with the gauge of server/app.py.
--   AlertManager server/alert_manager.py and server/scoring/risk_scoring.py: suppression, storage and
--                delivery of alerts, and the score that they add.
--   Normalized   server/normalized_event.py: an event in the canonical form.
--   Notifiers    server/notifications/notifiers.py: which alerts are mailed or posted, and as what.
--   Forwarders   server/notifications/splunk_forwarder.py and es_forwarder.py: the requests that carry
--                events and alerts to Splunk and Elasticsearch.
--   Migrations   alembic/versions/3573a583044a_initial_schema.py and init_db of server/database.py: the
--                tables that a database has.
--   Ingest       server/routers/events.py: the loop over a batch, which joins the rules, the
--                database, the alert manager and the score; and in Handler the whole route, from
--                Auth and Schema to the answer, with what becomes of an event on which it raises.
--   Common       tests on numbers and texts, lists, sorting, slices and signed numbers.
--   Json         JSON values and objects, with the order of keys that canonical JSON forgets. Examples:
--                runs at concrete inputs.
--
-- How the code is read:
--   * A Python function that changes state is a function from a state to a result and a state, with
--     the function's name. Functions of server/database.py run in one transaction under one lock, so
--     each is one step; a table is the list of its rows in the order of insertion.
--   * Env carries the clock and the key that the database engine gives a new row. A time is a number
--     of seconds, as the timestamps have a fixed width and are ordered like it. A cutoff in the past
--     of the epoch is the epoch.
--   * Exceptions that a function handles are values: none, or an error of the function's own type.
--   * Libraries are parameters: SHA-256 and canonical JSON (Hasher), AES-GCM (Cipher), JSON of queued
--     events (Codec), Pydantic's readings (Reading), RSA and HMAC (Signing), strip and lower
--     (TextOps), floats (Float), strptime (Context), the JSON of the key map (Settings), what a
--     column of the database takes (Driver), paths and the digest of files (Hashing), the
--     environment (AgentEnvironment, Environment, EsEnvironment), the answers of HTTP servers. Their
--     records state what the code relies on.
--   * Loops are structural recursion over their lists. The polling and the WMI loop, which go on until
--     they are stopped, run on fuel: each needs one unit for each round and one for the round that
--     finds the stop event set.
--   * Threads are steps of a relation: a worker's thread may end between any two calls.
--   * A UTC offset, a float in the source, is a whole number of seconds.
--
-- Not modelled: sockets, the dashboard, the rows that the routes render as JSON, how Pydantic coerces
-- numbers, and the set-up of Flask, of the database's engine and of a monitor's session. Of the
-- exceptions in the ingestion of one event those are modelled that a value of a validated event can
-- cause, a user or a number that the database does not take; a database that cannot be reached is
-- not.
pub mod Common
pub mod Json
pub mod Logging
pub mod Chain
pub mod Verify
pub mod Logger
pub mod Event
pub mod Database
pub mod RuleConfig
pub mod ServerConfig
pub mod ThreatFeed
pub mod Rules
pub mod Metrics
pub mod Migrations
pub mod Normalized
pub mod Notifiers
pub mod Forwarders
pub mod Monitor
pub mod AlertManager
pub mod Ingest
pub mod Queue
pub mod Transport
pub mod Agent
pub mod AgentConfig
pub mod Auth
pub mod Routes
pub mod Schema
pub mod Views
pub mod AttackGraph
pub mod Anomaly
pub mod Examples
