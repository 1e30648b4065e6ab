-- ===== src/ServerConfig/Constants.antt =====
-- server/config.py: all settings and the constants that the other modules import; and the database
-- URL that alembic/env.py takes.
use Prim.Native.String.{◌++◌ as append}
use insider_threat_detection.Common.{
  value_or, String, ◌≡◌, ◌≢◌, Bool, true, false, Option, none, some, if◌then◌else◌, is_empty, ◌>>=◌,
  ==-false_of_ne,
}
use insider_threat_detection.Common.Int.{ℤ, pos}
use insider_threat_detection.ServerConfig.{Environment, ServerSettings, server_settings}

-- Every constant that is a text, a Boolean or a number without a range.
pub record Constants : Type 0 where
  pub server_host : String
  pub server_port : ℤ
  pub tls_cert : String
  pub tls_key : String
  pub ca_cert : String
  pub db_path : String
  pub database_url : String
  pub splunk_hec_url : String
  pub splunk_hec_token : String
  pub splunk_index : String
  pub splunk_verify_tls : Bool
  pub anchor_key : String
  pub allow_unsigned_anchors : Bool
  pub api_secret_key : String
  pub api_keys : String
  pub smtp_host : String
  pub smtp_port : ℤ
  pub smtp_user : String
  pub smtp_password : String
  pub smtp_from : String
  pub smtp_to : String
  pub smtp_use_tls : Bool
  pub slack_webhook_url : String
  pub notify_min_severity : String
  pub threat_feed_path : String
  pub threat_feed_url : String
  pub honeypot_vids : String
  -- the settings with a range
  pub numbers : ServerSettings

-- `bool_of` is the Boolean that Pydantic reads a text as.
module _ (env : Environment) (bool_of : String → Option Bool) where
  abbrev pub text : String → String → String
  text name default = value_or default (env.value name)

  abbrev pub bool_or : Bool → Option String → Option Bool
  bool_or default none = some default
  bool_or default (some t) = bool_of t

  abbrev pub int_or : ℤ → Option String → Option ℤ
  int_or default none = some default
  int_or default (some t) = env.int_of t

  -- `_s.ITDN_DATABASE_URL or f"sqlite:///{_s.ITDN_DB_PATH}"`
  abbrev pub url_or_sqlite : String → String → String
  url_or_sqlite url path = if is_empty url then append "sqlite:///" path else url

  abbrev pub constants_of : ℤ → Bool → Bool → ℤ → Bool → ServerSettings → Constants
  constants_of port splunk_tls unsigned smtp_port smtp_tls numbers = record {
    server_host = text "ITDN_SERVER_HOST" "0.0.0.0";
    server_port = port;
    tls_cert = text "ITDN_TLS_CERT" "/etc/itdn/server.crt";
    tls_key = text "ITDN_TLS_KEY" "/etc/itdn/server.key";
    ca_cert = text "ITDN_CA_CERT" "/etc/itdn/ca.crt";
    db_path = text "ITDN_DB_PATH" "/var/lib/itdn/itdn.db";
    database_url =
        url_or_sqlite (text "ITDN_DATABASE_URL" "") (text "ITDN_DB_PATH" "/var/lib/itdn/itdn.db");
    splunk_hec_url = text "SPLUNK_HEC_URL" "https://splunk.internal:8088/services/collector/event";
    splunk_hec_token = text "SPLUNK_HEC_TOKEN" "";
    splunk_index = text "SPLUNK_INDEX" "itdn";
    splunk_verify_tls = splunk_tls;
    anchor_key = text "ITDN_ANCHOR_KEY" "";
    allow_unsigned_anchors = unsigned;
    api_secret_key = text "ITDN_API_KEY" "";
    api_keys = text "ITDN_API_KEYS" "";
    smtp_host = text "ITDN_SMTP_HOST" "";
    smtp_port = smtp_port;
    smtp_user = text "ITDN_SMTP_USER" "";
    smtp_password = text "ITDN_SMTP_PASSWORD" "";
    smtp_from = text "ITDN_SMTP_FROM" "itdn-alerts@localhost";
    smtp_to = text "ITDN_SMTP_TO" "";
    smtp_use_tls = smtp_tls;
    slack_webhook_url = text "ITDN_SLACK_WEBHOOK_URL" "";
    notify_min_severity = text "ITDN_NOTIFY_MIN_SEVERITY" "HIGH";
    threat_feed_path = text "ITDN_THREAT_FEED_PATH" "";
    threat_feed_url = text "ITDN_THREAT_FEED_URL" "";
    honeypot_vids = text "ITDN_HONEYPOT_VIDS" "";
    numbers = numbers;
  }

  -- `_ServerSettings()`; `none` is a ValidationError, and the server does not start.
  unfoldable pub constants : Option Constants
  unfolding server_settings
  constants = server_settings env >>= λ numbers.
      int_or (pos 8443) (env.value "ITDN_SERVER_PORT") >>= λ port.
      bool_or true (env.value "SPLUNK_VERIFY_TLS") >>= λ splunk_tls.
      bool_or false (env.value "ITDN_ALLOW_UNSIGNED_ANCHORS") >>= λ unsigned.
      int_or (pos 587) (env.value "ITDN_SMTP_PORT") >>= λ smtp_port.
      bool_or true (env.value "ITDN_SMTP_USE_TLS") >>= λ smtp_tls.
      some (constants_of port splunk_tls unsigned smtp_port smtp_tls numbers)

-- `context.get_x_argument(as_dictionary=True).get("db_url") or DATABASE_URL`
unfoldable pub migration_url : Option String → Constants → String
migration_url none c = c.database_url
migration_url (some url) c = if is_empty url then c.database_url else url

-- A migration with a db_url option that is not empty works on the server's database only if the option
-- names it.
pub migration_url-same :
    (url : String) (c : Constants)
    → url ≢ ""
    → migration_url (some url) c ≡ c.database_url
    → url ≡ c.database_url
unfolding migration_url
migration_url-same url c n e = rw (==-false_of_ne url "" n) at e
