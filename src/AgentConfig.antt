-- ===== src/AgentConfig.antt =====
-- agent/config.py: the settings of the agent, read from the environment and a .env file; and `_db_path`
-- of agent/retry_queue.py, which reads the environment alone.
pub mod Started
use insider_threat_detection.Common.{
  value_or, ℕ, String, Bool, true, Option, none, some, or_else, if◌then◌else◌, is_empty, ◌>>=◌,
}
use insider_threat_detection.Common.Int.{ℤ}
use insider_threat_detection.ServerConfig.{Environment, setting}

-- `os.environ` and the .env file, the readings of a text that Pydantic takes for an integer, a Boolean
-- and a float above zero, `socket.gethostname()` and `os.path.join`.
pub record AgentEnvironment : Type 0 where
  pub environ : String → Option String
  pub dotenv : String → Option String
  pub int_of : String → Option ℤ
  pub bool_of : String → Option Bool
  pub is_positive_float : String → Option Bool
  pub gethostname : String
  pub join : String → String → String

module _ (e : AgentEnvironment) where
  -- A variable of the environment goes before the file's.
  abbrev pub environment : Environment
  environment = record {
    value = λ name. or_else (e.environ name) (e.dotenv name);
    int_of = e.int_of;
  }

  abbrev pub text_setting : String → String → String
  text_setting name default = value_or default (environment.value name)

  abbrev pub bool_or : Bool → Option String → Option Bool
  bool_or default none = some default
  bool_or default (some text) = e.bool_of text

  -- `Field(default=2.0, gt=0)`; the text is kept, and `none` is the default.
  abbrev pub positive_or_default : Option String → Option (Option String)
  positive_or_default none = some none
  positive_or_default (some text) =
      e.is_positive_float text >>= λ positive. if positive then some (some text) else none

  pub record AgentSettings : Type 0 where
    pub server_url : String
    pub server_cert : String
    pub agent_cert : String
    pub agent_key : String
    pub hostname : String
    pub local_log_dir : String
    pub local_log_file : String
    pub retry_db : String
    pub flush_interval : ℕ
    pub max_queue_size : ℕ
    pub poll_interval : Option String
    pub bt_monitor_enabled : Bool
    pub log_key : String
    pub anchor_interval : ℕ

  -- `_s.ITDN_RETRY_DB or …`
  abbrev pub non_empty_or : String → String → String
  non_empty_or text default = if is_empty text then default else text

  abbrev pub settings_of : ℕ → ℕ → Option String → Bool → ℕ → AgentSettings
  settings_of flush most poll bluetooth anchor =
      let log_dir = text_setting "ITDN_LOG_DIR" "/var/log/itdn" in
      record {
        server_url = text_setting "ITDN_SERVER_URL" "https://siem.internal:8443";
        server_cert = text_setting "ITDN_SERVER_CERT" "/etc/itdn/siem-ca.crt";
        agent_cert = text_setting "ITDN_AGENT_CERT" "/etc/itdn/agent.crt";
        agent_key = text_setting "ITDN_AGENT_KEY" "/etc/itdn/agent.key";
        hostname = text_setting "ITDN_HOSTNAME" e.gethostname;
        local_log_dir = log_dir;
        local_log_file = e.join log_dir "agent.log";
        retry_db = non_empty_or (text_setting "ITDN_RETRY_DB" "") (e.join log_dir "retry.db");
        flush_interval = flush;
        max_queue_size = most;
        poll_interval = poll;
        bt_monitor_enabled = bluetooth;
        log_key = text_setting "ITDN_LOG_KEY" "";
        anchor_interval = anchor;
      }

  -- `_AgentSettings()` and the constants; `none` is a ValidationError.
  unfoldable pub agent_settings : Option AgentSettings
  agent_settings = setting environment "ITDN_FLUSH_INTERVAL" 10 1 none >>= λ flush.
      setting environment "ITDN_MAX_QUEUE_SIZE" 500 1 none >>= λ most.
      positive_or_default (environment.value "ITDN_POLL_INTERVAL") >>= λ poll.
      bool_or true (environment.value "ITDN_BT_ENABLED") >>= λ bluetooth.
      setting environment "ITDN_ANCHOR_INTERVAL" 300 1 none >>= λ anchor.
      some (settings_of flush most poll bluetooth anchor)

  -- `os.environ.get(name, default)`, without the file.
  abbrev pub environ_or : String → String → String
  environ_or name default = value_or default (e.environ name)

  unfoldable pub db_path : String
  db_path =
      environ_or "ITDN_RETRY_DB" (e.join (environ_or "ITDN_LOG_DIR" "/var/log/itdn") "retry.db")
