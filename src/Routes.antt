-- ===== src/Routes.antt =====
-- server/routers/admin.py, alerts.py, anchor.py and integrity.py: the routes that change the server's
-- state, with their decorators. A request's body is given with its texts read: a route that wants two
-- texts has them, "" where the body lacks one, or no body; a number of days is not negative.
pub mod Guards
use insider_threat_detection.Common.{
  ℕ, String, Bool, ◌||◌, Option, none, some, List, [], ◌∷◌, if◌then◌else◌, is_empty,
}
use insider_threat_detection.Json.{Dict}
use insider_threat_detection.Auth.{
  Settings, Request, Outcome, handled, require_api_key, require_role,
}
use insider_threat_detection.Database.{Env, Db}
use insider_threat_detection.Database.Alerts.{acknowledge_alert}
use insider_threat_detection.Database.Anchors.{Signing, insert_anchor}
use insider_threat_detection.Database.Integrity.{register_agent_hash, check_agent_hash}
use insider_threat_detection.Database.Retention.{Counts, purge_old_records}
use insider_threat_detection.RuleConfig.{Config, ConfigError, update_config}
use insider_threat_detection.ThreatFeed.{TextOps, Feed, Sources, reload}

-- What the routes change, and what they are started with.
pub record Service : Type 0 where
  pub db : Db
  pub config : Config
  pub feed : Feed

pub record Backend : Type 0 where
  pub settings : Settings
  pub signing : Signing
  pub text_ops : TextOps
  pub sources : Sources
  pub default_retention_days : ℕ

pub data Reply : Type 0 where
  bad_request not_found signing_unavailable : Reply
  config_updated : Config → List ConfigError → Reply
  feed_reloaded : ℕ → Reply
  purged : Counts → ℕ → Reply
  acknowledged : ℕ → Reply
  anchored : String → ℕ → Reply
  registered : String → Reply
  checked : Bool → String → Reply

abbrev pub reply_status : Reply → ℕ
reply_status bad_request = 400
reply_status not_found = 404
reply_status signing_unavailable = 503
reply_status (config_updated _ []) = 200
reply_status (config_updated _ (_ ∷ _)) = 207
reply_status _ = 200

-- A call of a route: its path parameter or the part of the body that it reads.
pub data Call : Type 0 where
  patching_config : Option Dict → Call
  reloading_feed : Call
  purging : Option ℕ → Call
  acknowledging : ℕ → Call
  anchoring : Option (String × String) → Call
  registering : Option (String × String) → Call
  checking : Option (String × String) → Call

abbrev pub View : Type 0
View = Service → Outcome Reply × Service

-- `if not agent_id or not …`
abbrev pub with_texts : Option (String × String) → (String → String → View) → View
with_texts none view st = (handled bad_request, st)
with_texts (some (a, b)) view st =
    if is_empty a || is_empty b then (handled bad_request, st) else view a b st

module _ (b : Backend) (env : Env) where
  -- The bodies of the views. `if not data`: an empty object is turned down like a missing one.
  unfoldable pub apply_patch : Option Dict → View
  apply_patch none st = (handled bad_request, st)
  apply_patch (some []) st = (handled bad_request, st)
  apply_patch (some (entry ∷ entries)) st =
      let (config, errors) = update_config (entry ∷ entries) st.config in
      (handled (config_updated config errors), record st { config = config })

  unfoldable pub run_reload : View
  run_reload st =
      let (count, feed) = reload b.text_ops b.sources st.feed in
      (handled (feed_reloaded count), record st { feed = feed })

  abbrev days_or_default : Option ℕ → ℕ
  days_or_default none = b.default_retention_days
  days_or_default (some days) = days

  unfoldable pub run_purge : Option ℕ → View
  run_purge days st =
      let (counts, db) = purge_old_records env (days_or_default days) st.db in
      (handled (purged counts (days_or_default days)), record st { db = db })

  unfoldable pub run_ack : ℕ → View
  run_ack alert_id st =
      let (updated, db) = acknowledge_alert alert_id st.db in
      (handled (if updated then acknowledged alert_id else not_found), record st { db = db })

  abbrev store_anchor : Option (String × Db) → View
  store_anchor none st = (handled signing_unavailable, st)
  store_anchor (some (signature, db)) st =
      (handled (anchored signature env.now), record st { db = db })

  unfoldable pub run_anchor : Option (String × String) → View
  run_anchor body = with_texts body (λ agent_id chain_head_hash st.
      store_anchor (insert_anchor b.signing env agent_id chain_head_hash st.db) st)

  unfoldable pub run_register : Option (String × String) → View
  run_register body = with_texts body (λ agent_id agent_hash st. (
    handled (registered agent_id),
    record st { db = register_agent_hash env agent_id agent_hash st.db },
  ))

  unfoldable pub run_check : Option (String × String) → View
  run_check body = with_texts body (λ agent_id agent_hash st.
      let (trusted, stored) = check_agent_hash agent_id agent_hash st.db in
      (handled (checked trusted stored), st))

  -- The views with their decorators.
  unfoldable pub patch_runtime_config : Request → Option Dict → View
  unfolding apply_patch require_role
  patch_runtime_config request body = require_role b.settings "admin" request (apply_patch body)

  unfoldable pub reload_threat_feed : Request → View
  unfolding run_reload require_role
  reload_threat_feed request = require_role b.settings "admin" request run_reload

  unfoldable pub purge_old_data : Request → Option ℕ → View
  unfolding run_purge require_role
  purge_old_data request days = require_role b.settings "admin" request (run_purge days)

  unfoldable pub ack_alert : Request → ℕ → View
  unfolding run_ack require_role
  ack_alert request alert_id = require_role b.settings "analyst" request (run_ack alert_id)

  unfoldable pub integrity_register : Request → Option (String × String) → View
  unfolding run_register require_role
  integrity_register request body = require_role b.settings "admin" request (run_register body)

  unfoldable pub anchor_chain : Request → Option (String × String) → View
  unfolding run_anchor require_api_key
  anchor_chain request body = require_api_key b.settings request (run_anchor body)

  unfoldable pub integrity_check : Request → Option (String × String) → View
  unfolding run_check require_api_key
  integrity_check request body = require_api_key b.settings request (run_check body)

  -- The routing table.
  abbrev pub handle : Request → Call → View
  handle request (patching_config body) = patch_runtime_config request body
  handle request reloading_feed = reload_threat_feed request
  handle request (purging days) = purge_old_data request days
  handle request (acknowledging alert_id) = ack_alert request alert_id
  handle request (registering body) = integrity_register request body
  handle request (anchoring body) = anchor_chain request body
  handle request (checking body) = integrity_check request body
