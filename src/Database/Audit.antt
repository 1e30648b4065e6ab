-- ===== src/Database/Audit.antt =====
-- _tail_server_hash, append_audit_record, get_audit_chain
pub mod Linked
pub mod Served
use insider_threat_detection.Common.{
  ℕ, String, Bool, Option, none, some, List, [], ◌∷◌, ◌++◌, map, ◌==◌, if◌then◌else◌, take, select,
  any, first, sort_asc, sort_desc,
}
use insider_threat_detection.Common.Int.{pos}
use insider_threat_detection.Json.{Json, Dict, num, str}
use insider_threat_detection.Chain.{Hasher, genesis_hash}
use insider_threat_detection.Database.{Env, utcnow, AuditRow, Db}

abbrev pub of_host : String → AuditRow → Bool
of_host hostname r = r.hostname == hostname

abbrev hash_or_genesis : Option AuditRow → String
hash_or_genesis none = genesis_hash
hash_or_genesis (some r) = r.record_hash

unfoldable pub tail_server_hash : String → Db → String
tail_server_hash hostname db =
    hash_or_genesis (first (sort_desc (λ r. r.id) (select (of_host hostname) db.audit_chain)))

-- Every row of the host's chain, oldest first, up to the limit.
unfoldable pub get_audit_chain : String → ℕ → Db → List AuditRow
get_audit_chain hostname limit db =
    take limit (sort_asc (λ r. r.id) (select (of_host hostname) db.audit_chain))

-- What GET /api/v1/audit answers for a row; the texts of the time and of the event are given.
abbrev pub row_dict : (ℕ → String) → (Json → String) → AuditRow → Dict
row_dict time_text event_text r =
    ("id", num (pos r.id))
    ∷ ("recorded_at", str (time_text r.recorded_at))
    ∷ ("hostname", str r.hostname)
    ∷ ("prev_hash", str r.prev_hash)
    ∷ ("event_json", str (event_text r.event_json))
    ∷ ("record_hash", str r.record_hash)
    ∷ []

module _ (h : Hasher) where
  abbrev pub audit_hash : String → Json → String
  audit_hash prev_hash event =
      h.sha256_hex (h.dumps (("prev_hash", str prev_hash) ∷ ("event", event) ∷ []))

  unfoldable pub audit_row : Env → String → Json → Db → AuditRow
  unfolding tail_server_hash
  audit_row env hostname event db = record {
    id = env.fresh (map (λ r. r.id) db.audit_chain);
    recorded_at = utcnow env;
    hostname = hostname;
    prev_hash = tail_server_hash hostname db;
    event_json = event;
    record_hash = audit_hash (tail_server_hash hostname db) event;
  }

  -- The unique index on `record_hash`: the IntegrityError is passed over.
  unfoldable pub append_audit_record : Env → String → Json → Db → String × Db
  unfolding audit_row
  append_audit_record env hostname event db =
      let row = audit_row env hostname event db in
      (
        row.record_hash,
        if any (λ r. r.record_hash == row.record_hash) db.audit_chain
            then db
            else record db { audit_chain = db.audit_chain ++ row ∷ [] },
      )
