-- ===== src/ServerConfig.antt =====
-- server/config.py: the settings with a range, read from the environment when the server starts.
pub mod Thresholds
pub mod Constants
use insider_threat_detection.Common.{ℕ, String, ◌&&◌, Option, none, some, leb, if◌then◌else◌, ◌>>=◌}
use insider_threat_detection.Common.Int.{ℤ, pos, negsuc}
use insider_threat_detection.RuleConfig.{Config}

-- The environment, and the integer that Pydantic reads a text as.
pub record Environment : Type 0 where
  pub value : String → Option String
  pub int_of : String → Option ℤ

-- The range of a `Field`: ge, or gt as the number after it, and le.
abbrev pub in_bounds : ℕ → Option ℕ → ℤ → Option ℕ
in_bounds least none (pos n) = if leb least n then some n else none
in_bounds least (some most) (pos n) = if leb least n && leb n most then some n else none
in_bounds least most (negsuc n) = none

-- `none` is a ValidationError. A default is not checked.
abbrev pub checked : Environment → ℕ → Option ℕ → Option String → ℕ → Option ℕ
checked env least most none default = some default
checked env least most (some text) default = env.int_of text >>= in_bounds least most

abbrev pub setting : Environment → String → ℕ → ℕ → Option ℕ → Option ℕ
setting env name default least most = checked env least most (env.value name) default

pub record ServerSettings : Type 0 where
  pub config : Config
  pub rate_limit_max : ℕ
  pub rate_limit_window_secs : ℕ
  pub retention_days : ℕ

unfoldable pub load_config : Environment → Option Config
load_config env = setting env "ITDN_AFTER_HOURS_START" 22 0 (some 23) >>= λ first_hour.
    setting env "ITDN_AFTER_HOURS_END" 6 0 (some 23) >>= λ last_hour.
    setting env "ITDN_VOLUME_THRESHOLD_BYTES" 1073741824 1 none >>= λ volume.
    setting env "ITDN_RAPID_CYCLE_COUNT" 5 1 none >>= λ cycles.
    setting env "ITDN_RAPID_CYCLE_WINDOW_SECS" 300 1 none >>= λ window.
    setting env "ITDN_ALERT_DEDUP_SECS" 3600 1 none >>= λ dedup. some (record {
      after_hours_start = first_hour;
      after_hours_end = last_hour;
      volume_threshold_bytes = volume;
      rapid_cycle_count = cycles;
      rapid_cycle_window_secs = window;
      alert_dedup_window_secs = dedup;
    })

-- `_ServerSettings()`, as far as the settings are numbers with a range.
unfoldable pub server_settings : Environment → Option ServerSettings
unfolding load_config
server_settings env = load_config env >>= λ config.
    setting env "ITDN_RATE_LIMIT_MAX" 200 1 none >>= λ most.
    setting env "ITDN_RATE_LIMIT_WINDOW_SECS" 60 1 none >>= λ window.
    setting env "ITDN_RETENTION_DAYS" 90 1 none >>= λ days. some (record {
      config = config;
      rate_limit_max = most;
      rate_limit_window_secs = window;
      retention_days = days;
    })
