-- ===== src/RuleConfig.antt =====
-- server/detection/rule_config.py: the thresholds that PATCH /api/v1/config may change.
pub mod Valid
use insider_threat_detection.Common.{
  ℕ, String, Bool, ◌&&◌, ◌||◌, Option, none, some, List, [], ◌∷◌, ◌==◌, leb, if◌then◌else◌, ◌>>=◌,
  is_some,
}
use insider_threat_detection.Common.Int.{ℤ, pos, negsuc}
use insider_threat_detection.Json.{Json, Dict, num}

pub record Config : Type 0 where
  pub after_hours_start : ℕ
  pub after_hours_end : ℕ
  pub volume_threshold_bytes : ℕ
  pub rapid_cycle_count : ℕ
  pub rapid_cycle_window_secs : ℕ
  pub alert_dedup_window_secs : ℕ

-- The keys of `_runtime`, which are `_POSITIVE_INT_KEYS`.
pub data Key : Type 0 where
  start_key stop_key volume_key count_key window_key dedup_key : Key

unfoldable pub key_of : String → Option Key
key_of key =
    if key == "after_hours_start"
    then some start_key
    else if key == "after_hours_end"
    then some stop_key
    else if key == "volume_threshold_bytes"
    then some volume_key
    else if key == "rapid_cycle_count"
    then some count_key
    else if key == "rapid_cycle_window_secs"
    then some window_key
    else if key == "alert_dedup_window_secs"
    then some dedup_key
    else none

abbrev pub is_key : String → Bool
is_key key = is_some (key_of key)

abbrev pub field : Key → Config → ℕ
field start_key c = c.after_hours_start
field stop_key c = c.after_hours_end
field volume_key c = c.volume_threshold_bytes
field count_key c = c.rapid_cycle_count
field window_key c = c.rapid_cycle_window_secs
field dedup_key c = c.alert_dedup_window_secs

abbrev pub set_field : Key → ℕ → Config → Config
set_field start_key value c = record c { after_hours_start = value }
set_field stop_key value c = record c { after_hours_end = value }
set_field volume_key value c = record c { volume_threshold_bytes = value }
set_field count_key value c = record c { rapid_cycle_count = value }
set_field window_key value c = record c { rapid_cycle_window_secs = value }
set_field dedup_key value c = record c { alert_dedup_window_secs = value }

-- `_runtime` as a dict.
abbrev pub config_value : String → Config → Option ℕ
config_value key c = key_of key >>= λ k. some (field k c)

abbrev pub set_known : Option Key → ℕ → Config → Config
set_known none value c = c
set_known (some k) value c = set_field k value c

unfoldable pub set_value : String → ℕ → Config → Config
unfolding key_of
set_value key = set_known (key_of key)

-- `_RANGE_CONSTRAINTS.get(key, (1, 2**31 - 1))`
abbrev pub lowest : String → ℕ
lowest key = if key == "after_hours_start" || key == "after_hours_end" then 0 else 1

abbrev pub highest : String → ℕ
highest key = if key == "after_hours_start" || key == "after_hours_end" then 23 else 2147483647

pub data ConfigError : Type 0 where
  unknown_key : String → ConfigError
  not_integer : String → Json → ConfigError
  out_of_range : String → ℕ → ℕ → ℤ → ConfigError

-- One turn of the loop: the value to be set, or the message. A bool or a float is no integer.
pub data Checked : Type 0 where
  accepted : ℕ → Checked
  rejected : ConfigError → Checked

abbrev check_int : String → ℤ → Checked
check_int key (pos n) =
    if leb (lowest key) n && leb n (highest key)
    then accepted n
    else rejected (out_of_range key (lowest key) (highest key) (pos n))
check_int key (negsuc n) = rejected (out_of_range key (lowest key) (highest key) (negsuc n))

abbrev check_value : String → Json → Checked
check_value key (num n) = check_int key n
check_value key value = rejected (not_integer key value)

unfoldable pub check_update : String → Json → Checked
unfolding key_of
check_update key value = if is_key key then check_value key value else rejected (unknown_key key)

abbrev note :
    Checked → String → List ConfigError × List (String × ℕ) → List ConfigError × List (String × ℕ)
note (accepted n) key (errors, validated) = (errors, (key, n) ∷ validated)
note (rejected e) key (errors, validated) = (e ∷ errors, validated)

-- The errors and the validated values, in the order of the updates.
unfoldable pub validate : Dict → List ConfigError × List (String × ℕ)
unfolding check_update
validate [] = ([], [])
validate ((key, value) ∷ updates) = note (check_update key value) key (validate updates)

-- `_runtime.update(validated)`
unfoldable pub apply_all : List (String × ℕ) → Config → Config
unfolding set_value
apply_all [] c = c
apply_all ((key, value) ∷ validated) c = apply_all validated (set_value key value c)

unfoldable pub update_config : Dict → Config → Config × List ConfigError
unfolding validate apply_all
update_config updates c =
    let (errors, validated) = validate updates in (apply_all validated c, errors)

-- `reset_to_defaults`: the values that the environment gave at the start.
unfoldable pub reset_to_defaults : Config → Config → Config
reset_to_defaults defaults c = defaults
