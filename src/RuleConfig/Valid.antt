-- ===== src/RuleConfig/Valid.antt =====
-- Every update, valid or not, keeps the thresholds in their ranges.
use insider_threat_detection.Common.{
  ℕ, ◌≤◌, String, ◌≡◌, refl, sym, ap, ◌∙◌, ◌≢◌, inl, inr, true, false, Option, none, some, List, [],
  ◌∷◌, arith, ◌==◌, eq_iff, if◌then◌else◌, Bool-cases, Option-cases, ◌>>=◌, eq_of_==,
  ne_of_==-false, All, or_else,
}
use insider_threat_detection.Json.{Json, Dict, get}
use insider_threat_detection.RuleConfig.{
  Config, ConfigError, Checked, accepted, rejected, config_value, Key, start_key, stop_key,
  volume_key, count_key, window_key, dedup_key, key_of, field, set_field, set_known, set_value,
  is_key, lowest, highest, check_update, note, validate, apply_all, update_config,
}

Key-discrete : Discrete Key
Key-discrete = hlevel

-- What the settings model of server/config.py asks of the defaults.
pub record IsValid (c : Config) : Type 0 where
  pub start : c.after_hours_start ≤ 23
  pub stop : c.after_hours_end ≤ 23
  pub volume : 1 ≤ c.volume_threshold_bytes
  pub count : 1 ≤ c.rapid_cycle_count
  pub window : 1 ≤ c.rapid_cycle_window_secs
  pub dedup : 1 ≤ c.alert_dedup_window_secs

abbrev Fits : String × ℕ → Type 0
Fits (key, n) = (is_key key ≡ true) × (lowest key ≤ n) × (n ≤ highest key)

check_update-Fits :
    (key : String) (value : Json) (n : ℕ) → check_update key value ≡ accepted n → Fits (key, n)
unfolding check_update
check_update-Fits key value n e = ground arith

note-Fits :
    (checked : Checked) (key : String) (rest : List ConfigError × List (String × ℕ))
    → ((n : ℕ) → checked ≡ accepted n → Fits (key, n))
    → All Fits rest.1
    → All Fits (note checked key rest).1
note-Fits (accepted n) key rest f a = (f n refl, a)
note-Fits (rejected e) key rest f a = a

validate-Fits : (updates : Dict) → All Fits (validate updates).1
unfolding validate
validate-Fits [] = tt
validate-Fits ((key, value) ∷ updates) =
    note-Fits (check_update key value) key (validate updates) (check_update-Fits key value)
      (validate-Fits updates)

set_value-IsValid :
    (key : String) (n : ℕ) (c : Config) → Fits (key, n) → IsValid c → IsValid (set_value key n c)
unfolding set_value
set_value-IsValid key n c f v = ground arith

apply_all-IsValid :
    (validated : List (String × ℕ)) (c : Config)
    → All Fits validated
    → IsValid c
    → IsValid (apply_all validated c)
unfolding apply_all
apply_all-IsValid [] c f v = v
apply_all-IsValid ((key, n) ∷ rest) c f v =
    apply_all-IsValid rest (set_value key n c) f.1 (set_value-IsValid key n c f.0 v)

-- Whatever is sent to valid settings, hours stay below 24 and the other thresholds at least 1.
pub update_config-IsValid :
    (updates : Dict) (c : Config) → IsValid c → IsValid (update_config updates c).0
unfolding update_config
update_config-IsValid updates c v =
    apply_all-IsValid (validate updates).1 c (validate-Fits updates) v

-- The keys of a dict are different.
abbrev pub DistinctKeys : Dict → Type 0
DistinctKeys [] = Unit {0}
DistinctKeys ((key, value) ∷ updates) = (get key updates ≡ none) × DistinctKeys updates

-- What the updates ask for a key, if it is accepted.
abbrev accepted_or_none : Checked → Option ℕ
accepted_or_none (accepted n) = some n
accepted_or_none (rejected e) = none

unfoldable pub requested : String → Dict → Option ℕ
requested key updates = get key updates >>= λ value. accepted_or_none (check_update key value)

abbrev name : Key → String
name start_key = "after_hours_start"
name stop_key = "after_hours_end"
name volume_key = "volume_threshold_bytes"
name count_key = "rapid_cycle_count"
name window_key = "rapid_cycle_window_secs"
name dedup_key = "alert_dedup_window_secs"

name-key_of : (key : String) (k : Key) → key_of key ≡ some k → key ≡ name k
unfolding key_of
name-key_of key k e = ground (
  arith,
  eq_iff key "after_hours_start",
  eq_iff key "after_hours_end",
  eq_iff key "volume_threshold_bytes",
  eq_iff key "rapid_cycle_count",
  eq_iff key "rapid_cycle_window_secs",
  eq_iff key "alert_dedup_window_secs",
)

field-set_field : (k j : Key) (n : ℕ) (c : Config) → k ≢ j → field j (set_field k n c) ≡ field j c
field-set_field start_key j n c h = ground arith
field-set_field stop_key j n c h = ground arith
field-set_field volume_key j n c h = ground arith
field-set_field count_key j n c h = ground arith
field-set_field window_key j n c h = ground arith
field-set_field dedup_key j n c h = ground arith

field-set_self : (k : Key) (n : ℕ) (c : Config) → field k (set_field k n c) ≡ n
field-set_self start_key n c = refl
field-set_self _ n c = refl

set_value_known :
    (key : String) (k : Key) (n : ℕ) (c : Config)
    → key_of key ≡ some k
    → set_value key n c ≡ set_field k n c
unfolding set_value
set_value_known key k n c e = ap (λ o. set_known o n c) e

value-set_self :
    (key : String) (n : ℕ) (c : Config)
    → is_key key ≡ true
    → config_value key (set_value key n c) ≡ some n
value-set_self key n c known = elim (Option-cases (key_of key)) [
  | inl e ↦ ground arith
  | inr (k, e) ↦ rw (set_value_known key k n c e, e) (ap some (field-set_self k n c))
]

value-set_ne :
    (key other : String) (n : ℕ) (c : Config)
    → (key == other) ≡ false
    → config_value other (set_value key n c) ≡ config_value other c
value-set_ne key other n c differ = elim (Option-cases (key_of key)) [
  | inl e ↦ unfold set_value in rw e
  | inr (k, e) ↦ elim (Option-cases (key_of other)) [
    | inl o ↦ rw o
    | inr (j, o) ↦
        rw (set_value_known key k n c e, o)
          (ap some (
            field-set_field k j n c (λ same.
              ne_of_==-false key other differ
                (name-key_of key k e ∙ ap name same ∙ sym (name-key_of other j o)))))
  ]
]

value-set_value :
    (key other : String) (n : ℕ) (c : Config)
    → is_key key ≡ true
    → config_value other (set_value key n c)
      ≡ (if key == other then some n else config_value other c)
value-set_value key other n c k = elim (Bool-cases (key == other)) [
  | inl here ↦ rw here (rw (← eq_of_== key other here) (value-set_self key n c k))
  | inr there ↦ rw there (value-set_ne key other n c there)
]

value-apply_note :
    (other key : String) (value : Json) (updates : Dict) (c : Config)
    → get key updates ≡ none
    → (checked : Checked) → check_update key value ≡ checked
    → ((c' : Config)
        → config_value other (apply_all (validate updates).1 c')
          ≡ or_else (requested other updates) (config_value other c'))
    → config_value other (apply_all (note checked key (validate updates)).1 c)
      ≡ or_else (requested other ((key, value) ∷ updates)) (config_value other c)
unfolding apply_all requested
value-apply_note other key value updates c absent (accepted n) e ih =
    let known : is_key key ≡ true = (check_update-Fits key value n e).0 in
    ih (set_value key n c) ∙ elim (Bool-cases (key == other)) [
      | inl here ↦ rw (here, ← eq_of_== key other here, e, value-set_self key n c known, absent)
      | inr there ↦ rw (there, value-set_value key other n c known, there)
    ]
value-apply_note other key value updates c absent (rejected r) e ih =
    ih c ∙ elim (Bool-cases (key == other)) [
      | inl here ↦ rw (here, ← eq_of_== key other here, e, absent)
      | inr there ↦ rw there
    ]

value-apply_all :
    (other : String) (updates : Dict) (c : Config)
    → DistinctKeys updates
    → config_value other (apply_all (validate updates).1 c)
      ≡ or_else (requested other updates) (config_value other c)
unfolding apply_all validate requested
value-apply_all other [] c d = refl
value-apply_all other ((key, value) ∷ updates) c d =
    value-apply_note other key value updates c d.0 (check_update key value) refl
      (λ c'. value-apply_all other updates c' d.1)

-- A dict's keys are different: the value that an accepted update asks for is what the threshold is
-- afterwards, and every other threshold stays.
pub config_value-update_config :
    (other : String) (updates : Dict) (c : Config)
    → DistinctKeys updates
    → config_value other (update_config updates c).0
      ≡ or_else (requested other updates) (config_value other c)
unfolding update_config
config_value-update_config other updates c d = value-apply_all other updates c d
