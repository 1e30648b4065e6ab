-- ===== src/Migrations/Agreement.antt =====
-- The first migration goes back and forth, and makes the tables that the server declares.
use insider_threat_detection.Common.{
  ◌+◌, String, ◌≡◌, refl, ap, ◌∙◌, false, Option, none, some, List, [], ◌∷◌, arith, ◌==◌, ◌>>=◌,
  length, select, All, first,
}
use insider_threat_detection.Migrations.Metadata.{
  Table, Index, metadata_tables, metadata_indexes, events_tbl, alerts_tbl, audit_tbl,
  log_anchors_tbl, risk_scores_tbl, device_baseline_tbl, agent_integrity_tbl, user_baseline_tbl,
  host_timezone_tbl,
}
use insider_threat_detection.Migrations.{
  Catalog, has_table, has_index, upgrade, downgrade, init_db, added, create_missing,
  stamp_alembic_head,
}
use insider_threat_detection.Migrations.Initial.{
  upgrade_agent_integrity, upgrade_alerts, upgrade_audit_chain, upgrade_device_baseline,
  upgrade_events, upgrade_host_timezone, upgrade_log_anchors, upgrade_risk_scores,
  upgrade_user_baseline,
}
use insider_threat_detection.Migrations.Startup.{create_missing_new}

-- None of the migration's tables and indexes is there yet.
abbrev pub IsFree : Catalog → Type 0
IsFree d =
    All (λ t. has_table t.name d.tables ≡ false) metadata_tables
    × All (λ i. has_index i.name d.indexes ≡ false) metadata_indexes

-- In a database that has none of its tables and indexes, the migration succeeds, and its way back
-- succeeds then and leaves the database as it was.
pub downgrade-upgrade : (d : Catalog) → IsFree d → (upgrade d >>= downgrade) ≡ some d
unfolding upgrade downgrade
downgrade-upgrade d (ts, is) =
    rw
      (
        ts.1.1.1.1.1.1.0, ts.1.0, is.1.1.1.1.1.0, is.1.1.1.0, is.1.1.1.1.0, ts.1.1.0,
        ts.1.1.1.1.1.0, ts.0, is.1.0, is.0, is.1.1.0, ts.1.1.1.1.1.1.1.1.0, ts.1.1.1.0,
        ts.1.1.1.1.0, ts.1.1.1.1.1.1.1.0,
      )
      refl

abbrev pub find_table : String → List Table → Option Table
find_table name ts = first (select (λ t. t.name == name) ts)

abbrev pub find_index : String → List Index → Option Index
find_index name is = first (select (λ i. i.name == name) is)

pub record IsProvisioned (d e : Catalog) : Type 0 where
  pub tables : All (λ t. find_table t.name e.tables ≡ some t) metadata_tables
  pub indexes : All (λ i. find_index i.name e.indexes ≡ some i) metadata_indexes
  pub table_count : length e.tables ≡ length metadata_tables + length d.tables
  pub index_count : length e.indexes ≡ length metadata_indexes + length d.indexes

abbrev upgraded : Catalog → Catalog
upgraded d = record d {
  tables =
      upgrade_user_baseline ∷ upgrade_risk_scores ∷ upgrade_log_anchors ∷ upgrade_host_timezone
      ∷ upgrade_events ∷ upgrade_device_baseline ∷ upgrade_audit_chain ∷ upgrade_alerts
      ∷ upgrade_agent_integrity ∷ d.tables;
  indexes =
      (record { name = "idx_events_received_at"; table = "events"; column = "received_at" })
      ∷ (record { name = "idx_events_hostname"; table = "events"; column = "hostname" })
      ∷ (record { name = "idx_events_device_id"; table = "events"; column = "device_id" })
      ∷ (record { name = "idx_alerts_rule_name"; table = "alerts"; column = "rule_name" })
      ∷ (record { name = "idx_alerts_hostname"; table = "alerts"; column = "hostname" })
      ∷ (record { name = "idx_alerts_created_at"; table = "alerts"; column = "created_at" })
      ∷ d.indexes;
}

upgrade-upgraded : (d : Catalog) → IsFree d → upgrade d ≡ some (upgraded d)
unfolding upgrade
upgrade-upgraded d (ts, is) =
    rw
      (
        ts.1.1.1.1.1.1.0, ts.1.0, is.1.1.1.1.1.0, is.1.1.1.0, is.1.1.1.1.0, ts.1.1.0,
        ts.1.1.1.1.1.0, ts.0, is.1.0, is.0, is.1.1.0, ts.1.1.1.1.1.1.1.1.0, ts.1.1.1.0,
        ts.1.1.1.1.0, ts.1.1.1.1.1.1.1.0,
      )
      refl

upgraded-IsProvisioned : (d : Catalog) → IsProvisioned d (upgraded d)
upgraded-IsProvisioned d = record {
  tables = (refl, (refl, (refl, (refl, (refl, (refl, (refl, (refl, (refl, tt)))))))));
  indexes = (refl, (refl, (refl, (refl, (refl, (refl, tt))))));
  table_count = omega arith;
  index_count = omega arith;
}

abbrev created : Catalog → Catalog
created d = added host_timezone_tbl (
    added user_baseline_tbl (
      added agent_integrity_tbl (
        added device_baseline_tbl (
          added risk_scores_tbl
            (added log_anchors_tbl (added audit_tbl (added alerts_tbl (added events_tbl d))))))))

create_missing-created : (d : Catalog) → IsFree d → create_missing metadata_tables d ≡ created d
create_missing-created d (ts, is) =
    create_missing_new events_tbl
      (alerts_tbl ∷ audit_tbl ∷ log_anchors_tbl ∷ risk_scores_tbl ∷ device_baseline_tbl
        ∷ agent_integrity_tbl ∷ user_baseline_tbl ∷ host_timezone_tbl ∷ [])
      d ts.0
    ∙ create_missing_new alerts_tbl
        (audit_tbl ∷ log_anchors_tbl ∷ risk_scores_tbl ∷ device_baseline_tbl ∷ agent_integrity_tbl
          ∷ user_baseline_tbl ∷ host_timezone_tbl ∷ [])
        (added events_tbl d) ts.1.0
    ∙ create_missing_new audit_tbl
        (log_anchors_tbl ∷ risk_scores_tbl ∷ device_baseline_tbl ∷ agent_integrity_tbl
          ∷ user_baseline_tbl ∷ host_timezone_tbl ∷ [])
        (added alerts_tbl (added events_tbl d)) ts.1.1.0
    ∙ create_missing_new log_anchors_tbl
        (risk_scores_tbl ∷ device_baseline_tbl ∷ agent_integrity_tbl ∷ user_baseline_tbl
          ∷ host_timezone_tbl ∷ [])
        (added audit_tbl (added alerts_tbl (added events_tbl d))) ts.1.1.1.0
    ∙ create_missing_new risk_scores_tbl
        (device_baseline_tbl ∷ agent_integrity_tbl ∷ user_baseline_tbl ∷ host_timezone_tbl ∷ [])
        (added log_anchors_tbl (added audit_tbl (added alerts_tbl (added events_tbl d))))
        ts.1.1.1.1.0
    ∙ create_missing_new device_baseline_tbl
        (agent_integrity_tbl ∷ user_baseline_tbl ∷ host_timezone_tbl ∷ [])
        (added risk_scores_tbl
          (added log_anchors_tbl (added audit_tbl (added alerts_tbl (added events_tbl d)))))
        ts.1.1.1.1.1.0
    ∙ create_missing_new agent_integrity_tbl (user_baseline_tbl ∷ host_timezone_tbl ∷ [])
        (added device_baseline_tbl (
          added risk_scores_tbl
            (added log_anchors_tbl (added audit_tbl (added alerts_tbl (added events_tbl d))))))
        ts.1.1.1.1.1.1.0
    ∙ create_missing_new user_baseline_tbl (host_timezone_tbl ∷ [])
        (added agent_integrity_tbl (
          added device_baseline_tbl (
            added risk_scores_tbl
              (added log_anchors_tbl (added audit_tbl (added alerts_tbl (added events_tbl d)))))))
        ts.1.1.1.1.1.1.1.0
    ∙ create_missing_new host_timezone_tbl ([])
        (added user_baseline_tbl (
          added agent_integrity_tbl (
            added device_baseline_tbl (
              added risk_scores_tbl (
                added log_anchors_tbl (added audit_tbl (added alerts_tbl (added events_tbl d))))))))
        ts.1.1.1.1.1.1.1.1.0

created-IsProvisioned :
    (head : Option String) (d : Catalog) → IsProvisioned d (stamp_alembic_head head (created d))
unfolding stamp_alembic_head
created-IsProvisioned none d = record {
  tables = (refl, (refl, (refl, (refl, (refl, (refl, (refl, (refl, (refl, tt)))))))));
  indexes = (refl, (refl, (refl, (refl, (refl, (refl, tt))))));
  table_count = omega arith;
  index_count = omega arith;
}
created-IsProvisioned (some head) d = record {
  tables = (refl, (refl, (refl, (refl, (refl, (refl, (refl, (refl, (refl, tt)))))))));
  indexes = (refl, (refl, (refl, (refl, (refl, (refl, tt))))));
  table_count = omega arith;
  index_count = omega arith;
}

init_db-created :
    (head : Option String) (d : Catalog)
    → IsFree d
    → init_db head d ≡ stamp_alembic_head head (created d)
unfolding init_db
init_db-created head d free = ap (stamp_alembic_head head) (create_missing-created d free)

init_db-IsProvisioned :
    (head : Option String) (d : Catalog) → IsFree d → IsProvisioned d (init_db head d)
init_db-IsProvisioned head d free = rw (init_db-created head d free) (created-IsProvisioned head d)

-- In a database that has none of the tables and indexes, the migration succeeds, and after it, as
-- after `init_db`, each table of the metadata is there with the same columns, each index is there,
-- and nothing else has been added.
pub upgrade-init_db :
    (head : Option String) (d : Catalog)
    → IsFree d
    → ((e : Catalog) × (upgrade d ≡ some e) × IsProvisioned d e) × IsProvisioned d (init_db head d)
upgrade-init_db head d free = (
  (upgraded d, upgrade-upgraded d free, upgraded-IsProvisioned d),
  init_db-IsProvisioned head d free,
)
