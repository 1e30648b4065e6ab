-- ===== src/Migrations/Metadata.antt =====
-- The tables and indexes that server/database.py declares.
use insider_threat_detection.Common.{String, Bool, true, false, List, [], ◌∷◌}

pub data ColumnType : Type 0 where
  integer text float : ColumnType

pub record Column : Type 0 where
  pub name : String
  pub kind : ColumnType
  pub primary_key : Bool
  pub nullable : Bool
  pub unique : Bool

-- `sa.Column("id", sa.Integer, primary_key=True, autoincrement=True)`
abbrev pub id_column : Column
id_column = record {
  name = "id";
  kind = integer;
  primary_key = true;
  nullable = false;
  unique = false;
}

abbrev pub required_column : String → ColumnType → Column
required_column name kind = record {
  name = name;
  kind = kind;
  primary_key = false;
  nullable = false;
  unique = false;
}

abbrev pub nullable_column : String → ColumnType → Column
nullable_column name kind = record {
  name = name;
  kind = kind;
  primary_key = false;
  nullable = true;
  unique = false;
}

abbrev pub unique_column : String → ColumnType → Column
unique_column name kind = record {
  name = name;
  kind = kind;
  primary_key = false;
  nullable = false;
  unique = true;
}

pub record Table : Type 0 where
  pub name : String
  pub columns : List Column

-- An index on one column of a table.
pub record Index : Type 0 where
  pub name : String
  pub table : String
  pub column : String

abbrev pub events_tbl : Table
events_tbl = record {
  name = "events";
  columns =
      id_column
      ∷ required_column "received_at" text
      ∷ required_column "hostname" text
      ∷ required_column "event_type" text
      ∷ required_column "device_id" text
      ∷ nullable_column "serial" text
      ∷ nullable_column "manufacturer" text
      ∷ nullable_column "product" text
      ∷ nullable_column "bus_path" text
      ∷ nullable_column "transfer_bytes" integer
      ∷ required_column "raw_json" text
      ∷ [];
}

abbrev pub alerts_tbl : Table
alerts_tbl = record {
  name = "alerts";
  columns =
      id_column
      ∷ required_column "created_at" text
      ∷ required_column "hostname" text
      ∷ required_column "device_id" text
      ∷ required_column "rule_name" text
      ∷ required_column "severity" text
      ∷ required_column "description" text
      ∷ required_column "raw_event_json" text
      ∷ nullable_column "acknowledged" integer
      ∷ [];
}

abbrev pub audit_tbl : Table
audit_tbl = record {
  name = "audit_chain";
  columns =
      id_column
      ∷ required_column "recorded_at" text
      ∷ required_column "hostname" text
      ∷ required_column "prev_hash" text
      ∷ required_column "event_json" text
      ∷ unique_column "record_hash" text
      ∷ [];
}

abbrev pub log_anchors_tbl : Table
log_anchors_tbl = record {
  name = "log_anchors";
  columns =
      id_column
      ∷ required_column "agent_id" text
      ∷ required_column "chain_head_hash" text
      ∷ required_column "anchored_at" text
      ∷ required_column "server_signature" text
      ∷ [];
}

abbrev pub risk_scores_tbl : Table
risk_scores_tbl = record {
  name = "risk_scores";
  columns =
      id_column
      ∷ unique_column "hostname" text
      ∷ nullable_column "score" integer
      ∷ required_column "window_start" text
      ∷ required_column "window_end" text
      ∷ required_column "updated_at" text
      ∷ [];
}

abbrev pub device_baseline_tbl : Table
device_baseline_tbl = record {
  name = "device_baseline";
  columns =
      id_column
      ∷ required_column "hostname" text
      ∷ required_column "device_id" text
      ∷ required_column "first_seen" text
      ∷ required_column "last_seen" text
      ∷ nullable_column "seen_count" integer
      ∷ [];
}

abbrev pub agent_integrity_tbl : Table
agent_integrity_tbl = record {
  name = "agent_integrity";
  columns =
      id_column
      ∷ unique_column "agent_id" text
      ∷ required_column "trusted_hash" text
      ∷ required_column "registered_at" text
      ∷ [];
}

abbrev pub user_baseline_tbl : Table
user_baseline_tbl = record {
  name = "user_baseline";
  columns =
      id_column
      ∷ required_column "username" text
      ∷ required_column "hostname" text
      ∷ required_column "device_id" text
      ∷ required_column "first_seen" text
      ∷ required_column "last_seen" text
      ∷ nullable_column "seen_count" integer
      ∷ [];
}

abbrev pub host_timezone_tbl : Table
host_timezone_tbl = record {
  name = "host_timezone";
  columns =
      id_column
      ∷ unique_column "hostname" text
      ∷ required_column "utc_offset_hours" float
      ∷ required_column "updated_at" text
      ∷ [];
}

abbrev pub metadata_tables : List Table
metadata_tables =
    events_tbl ∷ alerts_tbl ∷ audit_tbl ∷ log_anchors_tbl ∷ risk_scores_tbl ∷ device_baseline_tbl
    ∷ agent_integrity_tbl ∷ user_baseline_tbl ∷ host_timezone_tbl ∷ []

abbrev pub metadata_indexes : List Index
metadata_indexes =
    (record { name = "idx_events_hostname"; table = "events"; column = "hostname" })
    ∷ (record { name = "idx_events_device_id"; table = "events"; column = "device_id" })
    ∷ (record { name = "idx_events_received_at"; table = "events"; column = "received_at" })
    ∷ (record { name = "idx_alerts_hostname"; table = "alerts"; column = "hostname" })
    ∷ (record { name = "idx_alerts_rule_name"; table = "alerts"; column = "rule_name" })
    ∷ (record { name = "idx_alerts_created_at"; table = "alerts"; column = "created_at" })
    ∷ []
