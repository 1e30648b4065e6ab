-- ===== src/Metrics.antt =====
-- server/metrics.py: the counters.
pub mod Render
pub mod Scrape
use insider_threat_detection.Common.{
  ℕ, ◌+◌, String, ◌≡◌, Bool, ◌&&◌, List, [], ◌∷◌, arith, ◌==◌, eq_iff, if◌then◌else◌,
}
use insider_threat_detection.Event.{Severity, low, medium, high, critical}

abbrev pub severity_text : Severity → String
severity_text low = "LOW"
severity_text medium = "MEDIUM"
severity_text high = "HIGH"
severity_text critical = "CRITICAL"

-- A dict from labels to counts, a label being a severity and a rule.
abbrev pub Label : Type 0
Label = String × String

abbrev pub same_label : Label → Label → Bool
same_label (s, r) (s', r') = s == s' && r == r'

-- `counts.get(key, 0)`
unfoldable pub count_of : Label → List (Label × ℕ) → ℕ
count_of key [] = 0
count_of key ((k, n) ∷ counts) = if same_label k key then n else count_of key counts

-- `counts[key] = counts.get(key, 0) + 1`
unfoldable pub increment : Label → List (Label × ℕ) → List (Label × ℕ)
increment key [] = (key, 1) ∷ []
increment key ((k, n) ∷ counts) =
    if same_label k key then (k, n + 1) ∷ counts else (k, n) ∷ increment key counts

unfoldable pub sum_counts : List (Label × ℕ) → ℕ
sum_counts [] = 0
sum_counts ((k, n) ∷ counts) = n + sum_counts counts

pub record Metrics : Type 0 where
  pub events_ingested : ℕ
  pub alerts_fired : List (Label × ℕ)
  -- keyed by rule alone: the severity of the label is empty
  pub rule_fires : List (Label × ℕ)

abbrev pub no_metrics : Metrics
no_metrics = record { events_ingested = 0; alerts_fired = []; rule_fires = [] }

unfoldable pub inc_events_ingested : Metrics → Metrics
inc_events_ingested m = record m { events_ingested = m.events_ingested + 1 }

unfoldable pub inc_alerts_fired : Severity → String → Metrics → Metrics
inc_alerts_fired severity rule_name m = record m {
  alerts_fired = increment (severity_text severity, rule_name) m.alerts_fired;
}

unfoldable pub inc_rule_fire : String → Metrics → Metrics
inc_rule_fire rule_name m = record m { rule_fires = increment ("", rule_name) m.rule_fires }

-- One count goes up by one, and every other stays.
pub count_of-increment :
    (key other : Label) (counts : List (Label × ℕ))
    → count_of other (increment key counts)
      ≡ (if same_label key other then count_of other counts + 1 else count_of other counts)
unfolding count_of increment
count_of-increment key other [] = ground arith
count_of-increment (s, r) (s', r') (((t, q), n) ∷ counts) = ground (
  arith,
  count_of-increment (s, r) (s', r') counts,
  eq_iff s s',
  eq_iff r r',
  eq_iff t s,
  eq_iff q r,
  eq_iff t s',
  eq_iff q r',
)

pub sum_counts-increment :
    (key : Label) (counts : List (Label × ℕ))
    → sum_counts (increment key counts) ≡ sum_counts counts + 1
unfolding sum_counts increment
sum_counts-increment key [] = omega arith
sum_counts-increment key ((k, n) ∷ counts) = ground (arith, sum_counts-increment key counts)
