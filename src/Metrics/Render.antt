-- ===== src/Metrics/Render.antt =====
-- server/metrics.py: `render`, with the gauge that server/app.py registers, which GET /metrics of
-- server/routers/system.py answers with.
use Prim.Native.Nat.{Ordering}
use Prim.Native.String.{compare, ◌++◌ as append}
use insider_threat_detection.Common.{
  ℕ, String, Bool, true, false, none, some, List, [], ◌∷◌, ◌++◌, map, if◌then◌else◌, length,
}
use insider_threat_detection.Database.{Db}
use insider_threat_detection.Database.Alerts.{list_alerts}
use insider_threat_detection.Metrics.{Label, Metrics}

-- A line of the exposition format: a # HELP or # TYPE line, or a sample.
pub data Line : Type 0 where
  comment : String → Line
  sample : String → List (String × String) → ℕ → Line

-- Texts are ordered by their characters, pairs of texts by the first that differs.
abbrev pub ordered_by : Ordering → Bool → Bool
ordered_by Ordering.lt later = true
ordered_by Ordering.eq later = later
ordered_by Ordering.gt later = false

abbrev pub label_le : Label → Label → Bool
label_le (s, r) (s', r') = ordered_by (compare s s') (ordered_by (compare r r') true)

-- `sorted` of a dict's items: no two items have one label.
abbrev pub insert_label : Label × ℕ → List (Label × ℕ) → List (Label × ℕ)
insert_label x [] = x ∷ []
insert_label x (y ∷ ys) =
    let rest = insert_label x ys in if label_le x.0 y.0 then x ∷ y ∷ ys else y ∷ rest

abbrev pub sorted_items : List (Label × ℕ) → List (Label × ℕ)
sorted_items [] = []
sorted_items (x ∷ xs) = insert_label x (sorted_items xs)

abbrev pub fired_line : Label × ℕ → Line
fired_line ((severity, rule), count) =
    sample "itdn_alerts_fired_total" (("severity", severity) ∷ ("rule_name", rule) ∷ []) count

abbrev pub rule_line : Label × ℕ → Line
rule_line ((severity, rule), count) =
    sample "itdn_rule_fires_total" (("rule_name", rule) ∷ []) count

-- `active` is what the callback returns.
unfoldable pub render_lines : Metrics → ℕ → List Line
render_lines m active =
    comment "# HELP itdn_events_ingested_total Total device events received"
    ∷ comment "# TYPE itdn_events_ingested_total counter"
    ∷ sample "itdn_events_ingested_total" [] m.events_ingested
    ∷ comment (
        append "# HELP itdn_alerts_fired_total "
          "Alerts persisted after deduplication, by severity and rule")
    ∷ comment "# TYPE itdn_alerts_fired_total counter"
    ∷ (map fired_line (sorted_items m.alerts_fired)
        ++ (comment (
              append "# HELP itdn_rule_fires_total " "Times each rule fired (before deduplication)")
            ∷ comment "# TYPE itdn_rule_fires_total counter"
            ∷ (map rule_line (sorted_items m.rule_fires)
                ++ (comment "# HELP itdn_alerts_active Current number of unacknowledged alerts"
                    ∷ comment "# TYPE itdn_alerts_active gauge"
                    ∷ sample "itdn_alerts_active" [] active
                    ∷ []))))

-- The text, for `str` of an integer.
module _ (shown : ℕ → String) where
  abbrev pub label_text : List (String × String) → String
  label_text [] = ""
  label_text ((k, v) ∷ []) = append k (append "=\"" (append v "\""))
  label_text ((k, v) ∷ labels) =
      append k (append "=\"" (append v (append "\"," (label_text labels))))

  abbrev pub braced : List (String × String) → String
  braced [] = ""
  braced (l ∷ labels) = append "{" (append (label_text (l ∷ labels)) "}")

  abbrev pub line_text : Line → String
  line_text (comment text) = text
  line_text (sample name labels value) =
      append name (append (braced labels) (append " " (shown value)))

  abbrev pub joined : List Line → String
  joined [] = ""
  joined (l ∷ ls) = append (line_text l) (append "\n" (joined ls))

  unfoldable pub render : Metrics → ℕ → String
  unfolding render_lines
  render m active = joined (render_lines m active)

-- The callback: `len(db.list_alerts(acknowledged=False, limit=100_000))`
unfoldable pub active_alerts : Db → ℕ
active_alerts db = length (list_alerts none (some false) 100000 db)
