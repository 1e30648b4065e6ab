-- ===== src/Examples/Scores.antt =====
-- The settings and the anomaly score at concrete inputs.
use insider_threat_detection.Common.{
  ℕ, suc, ◌+◌, ◌-◌, ◌≤◌, ◌≡◌, refl, none, some, List, [], ◌∷◌, ◌==◌, ltb, if◌then◌else◌,
}
use insider_threat_detection.Json.{num}
use insider_threat_detection.Common.Int.{pos}
use insider_threat_detection.RuleConfig.Valid.{IsValid}
use insider_threat_detection.ServerConfig.{Environment, ServerSettings, server_settings}
use insider_threat_detection.ServerConfig.Thresholds.{
  patching, resetting, ConfigCall, config_calls, server_settings-IsValid,
}
use insider_threat_detection.Anomaly.{Float, AnomalyEvent, HourReading, get_anomaly}
use insider_threat_detection.Anomaly.Bounds.{InRange, get_anomaly-InRange}

abbrev environment : Environment
environment = record {
  value = λ name. if name == "ITDN_RAPID_CYCLE_COUNT" then some "3" else none;
  int_of = λ text. if text == "3" then some (pos 3) else none;
}

abbrev started : ServerSettings
started = record {
  config = record {
    after_hours_start = 22;
    after_hours_end = 6;
    volume_threshold_bytes = 1073741824;
    rapid_cycle_count = 3;
    rapid_cycle_window_secs = 300;
    alert_dedup_window_secs = 3600;
  };
  rate_limit_max = 200;
  rate_limit_window_secs = 60;
  retention_days = 90;
}

environment-started : server_settings environment ≡ some started
unfolding server_settings
environment-started = refl

abbrev config_changes : List ConfigCall
config_changes = patching (("after_hours_end", num (pos 99)) ∷ []) ∷ resetting ∷ []

server_settings-IsValid_example :
    IsValid (config_calls started.config config_changes started.config)
    × (1 ≤ 200)
    × (1 ≤ 60)
    × (1 ≤ 90)
server_settings-IsValid_example =
    server_settings-IsValid environment started config_changes environment-started

-- The whole numbers from -1 on, each written as the number after it.
abbrev toy_float : Float
toy_float = record {
  F = ℕ;
  of_nat = suc;
  minus_one = 0;
  add = λ x y. x + y - 1;
  sub = λ x y. x + 1 - y;
  mul = λ x y. x;
  div = λ x y. x;
  sqrt = λ x. x;
  abs = λ x. x;
  lt = ltb;
  minus_one-lt-zero = refl;
  zero-lt-one = refl;
  minus_one-lt-one = refl;
}

abbrev hours : HourReading
hours = record { hour_of = λ text. none; current_hour = 12 }

abbrev copied : ℕ → AnomalyEvent
copied bytes = record { device_id = "0781:5567"; transfer_bytes = bytes; timestamp = "" }

get_anomaly-InRange_example :
    InRange toy_float (get_anomaly toy_float none hours (copied 0 ∷ copied 3 ∷ copied 9 ∷ []))
get_anomaly-InRange_example =
    get_anomaly-InRange toy_float none hours (copied 0 ∷ copied 3 ∷ copied 9 ∷ [])
