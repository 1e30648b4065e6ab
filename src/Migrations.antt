-- ===== src/Migrations.antt =====
-- alembic/versions/3573a583044a_initial_schema.py, and `init_db` and `_stamp_alembic_head` of
-- server/database.py: the tables that a database has and the revision that it is marked with.
pub mod Metadata
pub mod Initial
pub mod Agreement
pub mod Startup
use insider_threat_detection.Common.{
  String, Bool, Option, none, some, List, [], ◌∷◌, ◌++◌, ◌==◌, if◌then◌else◌, ◌>>=◌, select, any,
  or_else,
}
use insider_threat_detection.Migrations.Initial.{
  upgrade_agent_integrity, upgrade_alerts, upgrade_audit_chain, upgrade_device_baseline,
  upgrade_events, upgrade_host_timezone, upgrade_log_anchors, upgrade_risk_scores,
  upgrade_user_baseline,
}
use insider_threat_detection.Migrations.Metadata.{Table, Index, metadata_tables, metadata_indexes}

-- The table and the index made last come first; alembic_version is the revision.
pub record Catalog : Type 0 where
  pub tables : List Table
  pub indexes : List Index
  pub revision : Option String

abbrev pub has_table : String → List Table → Bool
has_table name = any (λ t. t.name == name)

abbrev pub has_index : String → List Index → Bool
has_index name = any (λ i. i.name == name)

-- Each operation fails, as `none`, where the database does not allow it.
abbrev pub create_table : Table → Catalog → Option Catalog
create_table t d =
    if has_table t.name d.tables then none else some (record d { tables = t ∷ d.tables })

abbrev pub create_index : Index → Catalog → Option Catalog
create_index i d =
    if has_index i.name d.indexes then none else some (record d { indexes = i ∷ d.indexes })

abbrev pub drop_named_table : String → List Table → Option (List Table)
drop_named_table name [] = none
drop_named_table name (t ∷ ts) =
    let rest = drop_named_table name ts in
    if t.name == name then some ts else rest >>= λ us. some (t ∷ us)

abbrev pub drop_table : String → Catalog → Option Catalog
drop_table name d = drop_named_table name d.tables >>= λ ts. some (record d { tables = ts })

abbrev pub drop_named_index : String → List Index → Option (List Index)
drop_named_index name [] = none
drop_named_index name (i ∷ is) =
    let rest = drop_named_index name is in
    if i.name == name then some is else rest >>= λ js. some (i ∷ js)

abbrev pub drop_index : String → Catalog → Option Catalog
drop_index name d = drop_named_index name d.indexes >>= λ is. some (record d { indexes = is })

abbrev pub in_order : List (Catalog → Option Catalog) → Catalog → Option Catalog
in_order [] d = some d
in_order (op ∷ ops) d = op d >>= λ e. in_order ops e

abbrev pub upgrade_ops : List (Catalog → Option Catalog)
upgrade_ops =
    create_table upgrade_agent_integrity
    ∷ create_table upgrade_alerts
    ∷ create_index
        (record { name = "idx_alerts_created_at"; table = "alerts"; column = "created_at" })
    ∷ create_index (record { name = "idx_alerts_hostname"; table = "alerts"; column = "hostname" })
    ∷ create_index
        (record { name = "idx_alerts_rule_name"; table = "alerts"; column = "rule_name" })
    ∷ create_table upgrade_audit_chain
    ∷ create_table upgrade_device_baseline
    ∷ create_table upgrade_events
    ∷ create_index
        (record { name = "idx_events_device_id"; table = "events"; column = "device_id" })
    ∷ create_index (record { name = "idx_events_hostname"; table = "events"; column = "hostname" })
    ∷ create_index
        (record { name = "idx_events_received_at"; table = "events"; column = "received_at" })
    ∷ create_table upgrade_host_timezone
    ∷ create_table upgrade_log_anchors
    ∷ create_table upgrade_risk_scores
    ∷ create_table upgrade_user_baseline
    ∷ []

unfoldable pub upgrade : Catalog → Option Catalog
upgrade = in_order upgrade_ops

abbrev pub downgrade_ops : List (Catalog → Option Catalog)
downgrade_ops =
    drop_table "user_baseline"
    ∷ drop_table "risk_scores"
    ∷ drop_table "log_anchors"
    ∷ drop_table "host_timezone"
    ∷ drop_index "idx_events_received_at"
    ∷ drop_index "idx_events_hostname"
    ∷ drop_index "idx_events_device_id"
    ∷ drop_table "events"
    ∷ drop_table "device_baseline"
    ∷ drop_table "audit_chain"
    ∷ drop_index "idx_alerts_rule_name"
    ∷ drop_index "idx_alerts_hostname"
    ∷ drop_index "idx_alerts_created_at"
    ∷ drop_table "alerts"
    ∷ drop_table "agent_integrity"
    ∷ []

unfoldable pub downgrade : Catalog → Option Catalog
downgrade = in_order downgrade_ops

abbrev pub added : Table → Catalog → Catalog
added t d = record d {
  tables = t ∷ d.tables;
  indexes = select (λ i. i.table == t.name) metadata_indexes ++ d.indexes;
}

-- `create_all` with checkfirst: a table that is missing is made, with its indexes.
abbrev pub create_missing : List Table → Catalog → Catalog
create_missing [] d = d
create_missing (t ∷ ts) d = create_missing ts (if has_table t.name d.tables then d else added t d)

-- The head revision of the migration scripts; `none` where Alembic or the scripts are missing or
-- fail.
unfoldable pub stamp_alembic_head : Option String → Catalog → Catalog
stamp_alembic_head none d = d
stamp_alembic_head (some head) d = record d { revision = or_else d.revision (some head) }

unfoldable pub init_db : Option String → Catalog → Catalog
unfolding stamp_alembic_head
init_db head d = stamp_alembic_head head (create_missing metadata_tables d)
