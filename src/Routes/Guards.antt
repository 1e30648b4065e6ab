-- ===== src/Routes/Guards.antt =====
-- Who changes what through the routes.
use insider_threat_detection.Common.{
  ℕ, ◌≤◌, String, ◌≡◌, refl, ap, ◌∙◌, ◌≢◌, ◌⊎◌, inl, inr, Option, none, some, ◌==◌, eq_refl,
  ==-false_of_ne,
}
use insider_threat_detection.Auth.{
  Request, handled, index, role_order, get_caller_role, by_key, require_api_key,
}
use insider_threat_detection.Auth.Roles.{require_role-guards, require_role-rank, admin}
use insider_threat_detection.Database.{Env}
use insider_threat_detection.Database.Integrity.{
  register_agent_hash, check_agent_hash, check_agent_hash-register_agent_hash,
}
use insider_threat_detection.Routes.{
  Service, Backend, checked, Call, patching_config, reloading_feed, purging, acknowledging,
  anchoring, registering, checking, View, handle, patch_runtime_config, reload_threat_feed,
  purge_old_data, ack_alert, anchor_chain, integrity_check, integrity_register, run_register,
  run_check,
}

module _ (b : Backend) (env : Env) (request : Request) where
  -- The caller's role stands in the role order, no lower than the minimum.
  abbrev pub IsAdmitted : String → Type 0
  IsAdmitted minimum =
      (role : String) × (caller : ℕ) × (required : ℕ) × (get_caller_role b.settings request
        ≡ some role)
      × (index role role_order ≡ some caller)
      × (index minimum role_order ≡ some required)
      × (required ≤ caller)

  -- What each route asks of its caller.
  abbrev pub IsAllowed : Call → Type 0
  IsAllowed (acknowledging alert_id) = IsAdmitted "analyst"
  IsAllowed (anchoring body) = (role : String) × (get_caller_role b.settings request ≡ some role)
  IsAllowed (checking body) = (role : String) × (get_caller_role b.settings request ≡ some role)
  IsAllowed _ = IsAdmitted "admin"

  by_key-guards :
      (o : Option String) (fn : View) (st : Service)
      → ((by_key b.settings o fn st).1 ≡ st) ⊎ ((role : String) × (o ≡ some role))
  by_key-guards none fn st = inl refl
  by_key-guards (some role) fn st = inr (role, refl)

  api_key-guards :
      (fn : View) (st : Service)
      → ((require_api_key b.settings request fn st).1 ≡ st)
        ⊎ ((role : String) × (get_caller_role b.settings request ≡ some role))
  unfolding require_api_key
  api_key-guards fn st = by_key-guards (get_caller_role b.settings request) fn st

  pub require_api_key-known :
      (role : String) (fn : View) (st : Service)
      → get_caller_role b.settings request ≡ some role
      → require_api_key b.settings request fn st ≡ fn st
  unfolding require_api_key
  require_api_key-known role fn st e = ap (λ o. by_key b.settings o fn st) e

  -- A call of a route leaves the service as it was, unless the caller has what the route asks for:
  -- an admin for the settings, the feed, purges and registrations, an analyst or more for an
  -- acknowledgement, and any role that the keys give for anchors and checks.
  pub handle-guards :
      (call : Call) (st : Service) → ((handle b env request call st).1 ≡ st) ⊎ IsAllowed call
  unfolding patch_runtime_config reload_threat_feed purge_old_data ack_alert integrity_register
      anchor_chain integrity_check
  handle-guards (patching_config body) st = require_role-guards b.settings request _ st "admin"
  handle-guards reloading_feed st = require_role-guards b.settings request _ st "admin"
  handle-guards (purging days) st = require_role-guards b.settings request _ st "admin"
  handle-guards (acknowledging alert_id) st = require_role-guards b.settings request _ st "analyst"
  handle-guards (registering body) st = require_role-guards b.settings request _ st "admin"
  handle-guards (anchoring body) st = api_key-guards _ st
  handle-guards (checking body) st = api_key-guards _ st

module _ (b : Backend) (env : Env) (agent trusted : String) (given : agent ≢ "")
    (hashed : trusted ≢ "") where
  run_register-stores :
      (st : Service)
      → (run_register b env (some (agent, trusted)) st).1.db
        ≡ register_agent_hash env agent trusted st.db
  unfolding run_register
  run_register-stores st = rw (==-false_of_ne agent "" given, ==-false_of_ne trusted "" hashed) refl

  run_check-answers :
      (reported : String) (st : Service)
      → reported ≢ ""
      → (run_check b env (some (agent, reported)) st).0
        ≡ handled (
            checked
              (check_agent_hash agent reported st.db).0
              (check_agent_hash agent reported st.db).1)
  unfolding run_check
  run_check-answers reported st n =
      rw (==-false_of_ne agent "" given, ==-false_of_ne reported "" n) refl

  -- Once an admin has registered a hash for an agent, whoever has a key and reports a hash of the agent
  -- is told whether it is the registered one, whatever was registered before; with no text empty.
  pub checking_registered :
      (admins other : Request) (role reported : String) (st : Service)
      → get_caller_role b.settings admins ≡ some "admin"
      → get_caller_role b.settings other ≡ some role
      → reported ≢ ""
      → (handle b env other
          (checking (some (agent, reported)))
          (handle b env admins (registering (some (agent, trusted))) st).1).0
        ≡ handled (checked (trusted == reported) trusted)
  unfolding integrity_register integrity_check
  checking_registered admins other role reported st is_admin has_key n =
      ap (λ p. p.0) (require_api_key-known b env other role _ _ has_key)
      ∙ run_check-answers reported _ n
      ∙ ap (λ p. handled (checked p.0 p.1))
          (ap (λ s'. check_agent_hash agent reported s'.db)
              (ap (λ p. p.1) (require_role-rank b.settings admins _ st admin admin is_admin))
            ∙ ap (check_agent_hash agent reported) (run_register-stores st)
            ∙ check_agent_hash-register_agent_hash env agent agent trusted reported st.db
            ∙ rw eq_refl refl)
