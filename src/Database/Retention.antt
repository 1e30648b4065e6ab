-- ===== src/Database/Retention.antt =====
-- purge_old_records
pub mod Chains
pub mod Worker
use insider_threat_detection.Common.{
  ℕ, ◌+◌, ◌-◌, ◌*◌, ◌≤◌, String, ◌≡◌, ap, not, List, arith, ltb, length, select, select-select,
  length-partition, sort_asc,
}
use insider_threat_detection.Database.Events.{get_recent_events}
use insider_threat_detection.Database.{Env, Db}

pub record Counts : Type 0 where
  pub events : ℕ
  pub alerts : ℕ
  pub audit_chain : ℕ

-- DELETE FROM … WHERE … < :cutoff, with the row count.
module _ {A : Type 0} (time : A → ℕ) (since : ℕ) where
  abbrev pub expired : List A → List A
  expired = select (λ r. ltb (time r) since)

  abbrev pub kept : List A → List A
  kept = select (λ r. not (ltb (time r) since))

unfoldable pub purge_old_records : Env → ℕ → Db → Counts × Db
purge_old_records env retention_days db =
    let since = env.now - retention_days * 86400 in
    (
      record {
        events = length (expired (λ r. r.received_at) since db.events);
        alerts = length (expired (λ r. r.created_at) since db.alerts);
        audit_chain = length (expired (λ r. r.recorded_at) since db.audit_chain);
      },
      record db {
        events = kept (λ r. r.received_at) since db.events;
        alerts = kept (λ r. r.created_at) since db.alerts;
        audit_chain = kept (λ r. r.recorded_at) since db.audit_chain;
      },
    )

-- The counts that a purge reports are the rows that it takes from each table.
pub purge_old_records-counts :
    (env : Env) (days : ℕ) (db : Db)
    → let (counts, after) = purge_old_records env days db in
      (counts.events + length after.events ≡ length db.events)
      × (counts.alerts + length after.alerts ≡ length db.alerts)
      × (counts.audit_chain + length after.audit_chain ≡ length db.audit_chain)
unfolding purge_old_records
purge_old_records-counts env days db =
    (length-partition _ db.events, length-partition _ db.alerts, length-partition _ db.audit_chain)

-- A purge leaves what the detection rules read within a window no longer than the retention time.
pub get_recent_events-purge_old_records :
    (env : Env) (days window : ℕ) (host : String) (db : Db)
    → window ≤ days * 86400
    → get_recent_events env host window (purge_old_records env days db).1
      ≡ get_recent_events env host window db
unfolding purge_old_records get_recent_events
get_recent_events-purge_old_records env days window host db h =
    ap (sort_asc (λ r. r.received_at)) (select-select _ _ db.events (λ r p. ground arith))
