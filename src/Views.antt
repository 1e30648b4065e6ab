-- ===== src/Views.antt =====
-- The routes that only read: server/routers/analytics.py and audit.py, and the GET routes of alerts.py,
-- anchor.py and system.py. A limit that a request gives is not negative.
pub mod Open
use insider_threat_detection.Common.{
  ℕ, String, Bool, true, Option, none, some, List, ◌==◌, if◌then◌else◌, is_empty, length,
}
use insider_threat_detection.Database.{Db, AlertRow, AnchorRow, AuditRow, BaselineRow, UserRow}
use insider_threat_detection.Database.Alerts.{list_alerts}
use insider_threat_detection.Database.Anchors.{get_anchors}
use insider_threat_detection.Database.Audit.{get_audit_chain}
use insider_threat_detection.Database.Baselines.{get_device_baseline, get_user_baseline}
use insider_threat_detection.Database.Scores.{get_risk_score}
use insider_threat_detection.Database.Timeline.{Item, get_timeline}
use insider_threat_detection.AttackGraph.{Graph, build_attack_graph, cycled}

-- `str.lower`, the place of a text among the timestamps in the order of texts, and `int` of a text,
-- where `none` is a ValueError.
pub record ArgReading : Type 0 where
  pub lower : String → String
  pub place_of : String → ℕ
  pub int : String → Option ℕ

-- The parameters of a request, `none` where one is missing.
pub record QueryArgs : Type 0 where
  pub hostname : Option String
  pub username : Option String
  pub agent_id : Option String
  pub ack : Option String
  pub limit : Option String
  pub device_id : Option String
  pub since : Option String

-- What a route answers; `server_error` is an exception of the view.
pub data Page : Type 0 where
  bad_request server_error : Page
  risk : String → ℕ → Page
  baseline : String → List BaselineRow → ℕ → Page
  attack_graph : String → Graph → List String → Page
  uba_baseline : String → List UserRow → ℕ → Page
  audit : String → List AuditRow → ℕ → Page
  alerts : List AlertRow → ℕ → Page
  anchors : List AnchorRow → ℕ → Page
  timeline : List Item → ℕ → Page
  healthy : Page

abbrev pub required : Option String → (String → Page) → Page
required none view = bad_request
required (some name) view = if is_empty name then bad_request else view name

-- `int(request.args.get("limit", default))`
abbrev pub limit_or : ArgReading → ℕ → Option String → Option ℕ
limit_or r default none = some default
limit_or r default (some text) = r.int text

abbrev pub limited : Option ℕ → (ℕ → Page) → Page
limited none view = server_error
limited (some limit) view = view limit

-- `request.args.get("hostname") or None`
abbrev pub non_empty : Option String → Option String
non_empty none = none
non_empty (some s) = if is_empty s then none else some s

abbrev pub place_or_none : ArgReading → Option String → Option ℕ
place_or_none r none = none
place_or_none r (some text) = some (r.place_of text)

abbrev pub ack_of : ArgReading → Option String → Option Bool
ack_of r none = none
ack_of r (some text) = some (r.lower text == "true")

module _ (r : ArgReading) (args : QueryArgs) (db : Db) where
  unfoldable pub get_risk : Page
  get_risk = required args.hostname (λ host. risk host (get_risk_score host db))

  unfoldable pub get_baseline : Page
  get_baseline =
      required args.hostname
        (λ host. baseline host (get_device_baseline host db) (length (get_device_baseline host db)))

  unfoldable pub get_attack_graph : Page
  get_attack_graph =
      required args.hostname (λ host.
        attack_graph host (build_attack_graph host db) (cycled (build_attack_graph host db)))

  unfoldable pub get_uba_baseline : Page
  get_uba_baseline =
      required args.username
        (λ user. uba_baseline user (get_user_baseline user db) (length (get_user_baseline user db)))

  unfoldable pub audit_chain : Page
  audit_chain = required args.hostname (λ host. limited (limit_or r 500 args.limit) (λ limit.
      audit host (get_audit_chain host limit db) (length (get_audit_chain host limit db))))

  unfoldable pub list_alerts_page : Page
  list_alerts_page = limited (limit_or r 200 args.limit) (λ limit.
      let rows = list_alerts (non_empty args.hostname) (ack_of r args.ack) limit db in
      alerts rows (length rows))

  unfoldable pub get_anchors_endpoint : Page
  get_anchors_endpoint = required args.agent_id (λ agent.
      limited (limit_or r 100 args.limit)
        (λ limit. anchors (get_anchors agent limit db) (length (get_anchors agent limit db))))

  unfoldable pub get_timeline_page : Page
  get_timeline_page = limited (limit_or r 500 args.limit) (λ limit.
      let items =
        get_timeline (non_empty args.hostname) (non_empty args.device_id)
          (place_or_none r (non_empty args.since)) limit db in
      timeline items (length items))

abbrev pub health : Page
health = healthy
