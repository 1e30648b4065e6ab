-- ===== src/ServerConfig/Thresholds.antt =====
-- The thresholds of a server that has started, over all that is done to them at run time.
use mathlib.Core.Option.{some_inj}
use insider_threat_detection.Common.{
  ℕ, ◌≤◌, String, ◌≡◌, refl, Option, none, some, List, [], ◌∷◌, arith, ◌>>=◌, >>=-eq-some,
}
use insider_threat_detection.Common.Int.{ℤ, pos, negsuc}
use insider_threat_detection.Json.{Dict}
use insider_threat_detection.RuleConfig.{Config, update_config, reset_to_defaults}
use insider_threat_detection.RuleConfig.Valid.{IsValid, update_config-IsValid}
use insider_threat_detection.ServerConfig.{
  Environment, in_bounds, checked, ServerSettings, load_config, server_settings,
}

abbrev pub Below : Option ℕ → ℕ → Type 0
Below none n = Unit
Below (some most) n = n ≤ most

in_bounds-range :
    (least : ℕ) (most : Option ℕ) (z : ℤ) (n : ℕ)
    → in_bounds least most z ≡ some n
    → (least ≤ n) × Below most n
in_bounds-range least none (pos m) n e = ground arith
in_bounds-range least (some most) (pos m) n e = ground arith
in_bounds-range least none (negsuc m) n e = cc
in_bounds-range least (some most) (negsuc m) n e = cc

pub checked-range :
    (env : Environment) (least : ℕ) (most : Option ℕ) (text : Option String) (default n : ℕ)
    → (least ≤ default) × Below most default
    → checked env least most text default ≡ some n
    → (least ≤ n) × Below most n
checked-range env least most none default n ok e = let same = some_inj.0 e in rw (← same) ok
checked-range env least most (some text) default n ok e =
    let (z, read, fits) = >>=-eq-some (env.int_of text) (in_bounds least most) e in
    in_bounds-range least most z n fits

-- What is done to the thresholds of a running server: a PATCH of the configuration, or a reset.
pub data ConfigCall : Type 0 where
  patching : Dict → ConfigCall
  resetting : ConfigCall

abbrev pub config_calls : Config → List ConfigCall → Config → Config
config_calls defaults [] c = c
config_calls defaults (patching updates ∷ calls) c =
    config_calls defaults calls (update_config updates c).0
config_calls defaults (resetting ∷ calls) c =
    config_calls defaults calls (reset_to_defaults defaults c)

abbrev config_of : ℕ → ℕ → ℕ → ℕ → ℕ → ℕ → Config
config_of first_hour last_hour volume cycles window dedup = record {
  after_hours_start = first_hour;
  after_hours_end = last_hour;
  volume_threshold_bytes = volume;
  rapid_cycle_count = cycles;
  rapid_cycle_window_secs = window;
  alert_dedup_window_secs = dedup;
}

config_parts :
    (a b v n w d : Option ℕ) (c : Config)
    → (a >>= λ first_hour. b >>= λ last_hour. v >>= λ volume. n >>= λ cycles. w >>= λ window.
        d >>= λ dedup. some (config_of first_hour last_hour volume cycles window dedup))
      ≡ some c
    → (a ≡ some c.after_hours_start)
      × (b ≡ some c.after_hours_end)
      × (v ≡ some c.volume_threshold_bytes)
      × (n ≡ some c.rapid_cycle_count)
      × (w ≡ some c.rapid_cycle_window_secs)
      × (d ≡ some c.alert_dedup_window_secs)
config_parts none b v n w d c e = cc
config_parts (some a) none v n w d c e = cc
config_parts (some a) (some b) none n w d c e = cc
config_parts (some a) (some b) (some v) none w d c e = cc
config_parts (some a) (some b) (some v) (some n) none d c e = cc
config_parts (some a) (some b) (some v) (some n) (some w) none c e = cc
config_parts (some a) (some b) (some v) (some n) (some w) (some d) c e =
    let same = some_inj.0 e in rw (← same) (refl, refl, refl, refl, refl, refl)

load_config-IsValid : (env : Environment) (c : Config) → load_config env ≡ some c → IsValid c
unfolding load_config
load_config-IsValid env c e =
    let (a, b, v, n, w, d) = config_parts _ _ _ _ _ _ c e in
    record {
      start =
          (checked-range env 0 (some 23) (env.value "ITDN_AFTER_HOURS_START") 22 _
            (omega arith, omega arith) a).1;
      stop =
          (checked-range env 0 (some 23) (env.value "ITDN_AFTER_HOURS_END") 6 _
            (omega arith, omega arith) b).1;
      volume =
          (checked-range env 1 none (env.value "ITDN_VOLUME_THRESHOLD_BYTES") 1073741824 _
            (omega arith, tt) v).0;
      count =
          (checked-range env 1 none (env.value "ITDN_RAPID_CYCLE_COUNT") 5 _ (omega arith, tt) n).0;
      window =
          (checked-range env 1 none (env.value "ITDN_RAPID_CYCLE_WINDOW_SECS") 300 _
            (omega arith, tt) w).0;
      dedup =
          (checked-range env 1 none (env.value "ITDN_ALERT_DEDUP_SECS") 3600 _ (omega arith, tt)
            d).0;
    }

reset-IsValid : (defaults c : Config) → IsValid defaults → IsValid (reset_to_defaults defaults c)
unfolding reset_to_defaults
reset-IsValid defaults c d = d

config_calls-IsValid :
    (defaults : Config) (calls : List ConfigCall) (c : Config)
    → IsValid defaults
    → IsValid c
    → IsValid (config_calls defaults calls c)
config_calls-IsValid defaults [] c d v = v
config_calls-IsValid defaults (patching updates ∷ calls) c d v =
    config_calls-IsValid defaults calls (update_config updates c).0 d
      (update_config-IsValid updates c v)
config_calls-IsValid defaults (resetting ∷ calls) c d v =
    config_calls-IsValid defaults calls _ d (reset-IsValid defaults c d)

settings_config :
    (o : Option Config) (a b d : Option ℕ) (s : ServerSettings)
    → (o >>= λ config. a >>= λ most. b >>= λ window. d >>= λ days. some (record {
      config = config;
      rate_limit_max = most;
      rate_limit_window_secs = window;
      retention_days = days;
    }))
      ≡ some s
    → (o ≡ some s.config)
      × (a ≡ some s.rate_limit_max)
      × (b ≡ some s.rate_limit_window_secs)
      × (d ≡ some s.retention_days)
settings_config none a b d s e = cc
settings_config (some c) none b d s e = cc
settings_config (some c) (some a) none d s e = cc
settings_config (some c) (some a) (some b) none s e = cc
settings_config (some c) (some a) (some b) (some d) s e =
    let same = some_inj.0 e in rw (← same) (refl, refl, refl, refl)

-- A server that starts, whatever its environment, has thresholds in their ranges then and after
-- every sequence of updates, of whatever content, and resets; and the limit of requests, the length
-- of its window and the days of retention are at least 1.
pub server_settings-IsValid :
    (env : Environment) (s : ServerSettings) (calls : List ConfigCall)
    → server_settings env ≡ some s
    → IsValid (config_calls s.config calls s.config)
      × (1 ≤ s.rate_limit_max)
      × (1 ≤ s.rate_limit_window_secs)
      × (1 ≤ s.retention_days)
unfolding server_settings
server_settings-IsValid env s calls e =
    let (c, most, window, days) = settings_config _ _ _ _ s e in
    let valid = load_config-IsValid env s.config c in
    (
      config_calls-IsValid s.config calls s.config valid valid,
      (checked-range env 1 none (env.value "ITDN_RATE_LIMIT_MAX") 200 _ (omega arith, tt) most).0,
      (checked-range env 1 none (env.value "ITDN_RATE_LIMIT_WINDOW_SECS") 60 _ (omega arith, tt)
          window).0,
      (checked-range env 1 none (env.value "ITDN_RETENTION_DAYS") 90 _ (omega arith, tt) days).0,
    )
