-- ===== src/Migrations/Initial.antt =====
-- The tables that the first migration creates, alembic/versions/3573a583044a_initial_schema.py.
use insider_threat_detection.Common.{[], ◌∷◌}
use insider_threat_detection.Migrations.Metadata.{
  integer, text, float, Table, id_column, required_column, nullable_column, unique_column,
}

abbrev pub upgrade_agent_integrity : Table
upgrade_agent_integrity = record {
  name = "agent_integrity";
  columns =
      id_column
      ∷ unique_column "agent_id" text
      ∷ required_column "trusted_hash" text
      ∷ required_column "registered_at" text
      ∷ [];
}

abbrev pub upgrade_alerts : Table
upgrade_alerts = record {
  name = "alerts";
  columns =
      id_column
      ∷ required_column "created_at" text
      ∷ required_column "hostname" text
      ∷ required_column "device_id" text
      ∷ required_column "rule_name" text
      ∷ required_column "severity" text
      ∷ required_column "description" text
      ∷ required_column "raw_event_json" text
      ∷ nullable_column "acknowledged" integer
      ∷ [];
}

abbrev pub upgrade_audit_chain : Table
upgrade_audit_chain = record {
  name = "audit_chain";
  columns =
      id_column
      ∷ required_column "recorded_at" text
      ∷ required_column "hostname" text
      ∷ required_column "prev_hash" text
      ∷ required_column "event_json" text
      ∷ unique_column "record_hash" text
      ∷ [];
}

abbrev pub upgrade_device_baseline : Table
upgrade_device_baseline = record {
  name = "device_baseline";
  columns =
      id_column
      ∷ required_column "hostname" text
      ∷ required_column "device_id" text
      ∷ required_column "first_seen" text
      ∷ required_column "last_seen" text
      ∷ nullable_column "seen_count" integer
      ∷ [];
}

abbrev pub upgrade_events : Table
upgrade_events = record {
  name = "events";
  columns =
      id_column
      ∷ required_column "received_at" text
      ∷ required_column "hostname" text
      ∷ required_column "event_type" text
      ∷ required_column "device_id" text
      ∷ nullable_column "serial" text
      ∷ nullable_column "manufacturer" text
      ∷ nullable_column "product" text
      ∷ nullable_column "bus_path" text
      ∷ nullable_column "transfer_bytes" integer
      ∷ required_column "raw_json" text
      ∷ [];
}

abbrev pub upgrade_host_timezone : Table
upgrade_host_timezone = record {
  name = "host_timezone";
  columns =
      id_column
      ∷ unique_column "hostname" text
      ∷ required_column "utc_offset_hours" float
      ∷ required_column "updated_at" text
      ∷ [];
}

abbrev pub upgrade_log_anchors : Table
upgrade_log_anchors = record {
  name = "log_anchors";
  columns =
      id_column
      ∷ required_column "agent_id" text
      ∷ required_column "chain_head_hash" text
      ∷ required_column "anchored_at" text
      ∷ required_column "server_signature" text
      ∷ [];
}

abbrev pub upgrade_risk_scores : Table
upgrade_risk_scores = record {
  name = "risk_scores";
  columns =
      id_column
      ∷ unique_column "hostname" text
      ∷ nullable_column "score" integer
      ∷ required_column "window_start" text
      ∷ required_column "window_end" text
      ∷ required_column "updated_at" text
      ∷ [];
}

abbrev pub upgrade_user_baseline : Table
upgrade_user_baseline = record {
  name = "user_baseline";
  columns =
      id_column
      ∷ required_column "username" text
      ∷ required_column "hostname" text
      ∷ required_column "device_id" text
      ∷ required_column "first_seen" text
      ∷ required_column "last_seen" text
      ∷ nullable_column "seen_count" integer
      ∷ [];
}
