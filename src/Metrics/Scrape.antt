-- ===== src/Metrics/Scrape.antt =====
-- What a scrape of GET /metrics reads.
use Prim.Native.String.{compare}
use text.Mathlib.TextPositions.{compare_refl}
use insider_threat_detection.Common.{
  or_else-none, ℕ, min, String, ◌≡◌, refl, sym, ap, ◌∙◌, Bool, true, false, not, ◌&&◌, inl, inr,
  Option, none, some, List, [], ◌∷◌, ◌++◌, map, arith, ◌==◌, eq_iff, if◌then◌else◌, Bool-cases,
  length, select, or_else, length-take, sort_desc, length-sort_desc,
}
use insider_threat_detection.Database.{AlertRow, Db}
use insider_threat_detection.Database.Alerts.{list_alerts}
use insider_threat_detection.Metrics.{Label, same_label, Metrics}
use insider_threat_detection.Metrics.Render.{
  Line, comment, sample, ordered_by, label_le, insert_label, sorted_items, fired_line, rule_line,
  render_lines, active_alerts,
}

-- The value of the first sample with a name and its labels.
abbrev pub same_labels : List (String × String) → List (String × String) → Bool
same_labels [] [] = true
same_labels ((k, v) ∷ ls) ((k', v') ∷ ls') = k == k' && (v == v' && same_labels ls ls')
same_labels _ _ = false

abbrev pub value_of : String → List (String × String) → List Line → Option ℕ
value_of name labels [] = none
value_of name labels (comment text ∷ lines) = value_of name labels lines
value_of name labels (sample n ls value ∷ lines) =
    let rest = value_of name labels lines in
    if n == name && same_labels ls labels then some value else rest

-- `counts.get(key)`
abbrev pub find_count : Label → List (Label × ℕ) → Option ℕ
find_count key [] = none
find_count key ((k, n) ∷ counts) =
    let rest = find_count key counts in if same_label k key then some n else rest

label_le_refl : (l : Label) → label_le l l ≡ true
label_le_refl (s, r) =
    ap (λ o. ordered_by o (ordered_by (compare r r) true)) (compare_refl s)
    ∙ ap (λ o. ordered_by o true) (compare_refl r)

same_label-eq : (k l : Label) → same_label k l ≡ true → k ≡ l
same_label-eq (s, r) (s', r') e = ground (arith, e, eq_iff s s', eq_iff r r')

apart :
    (k l key : Label) → label_le k l ≡ false → same_label k key ≡ true → same_label l key ≡ false
apart k l key above same = elim (Bool-cases (same_label l key)) [
  | inr other ↦ other
  | inl same' ↦
      let e = same_label-eq k key same ∙ sym (same_label-eq l key same') in
      let r = label_le_refl l in let clash = rw e at above in cc
]

find_count-insert_label :
    (key : Label) (x : Label × ℕ) (xs : List (Label × ℕ))
    → find_count key (insert_label x xs) ≡ find_count key (x ∷ xs)
find_count-insert_label key x [] = refl
find_count-insert_label key (k, n) ((l, m) ∷ ys) = elim (Bool-cases (label_le k l)) [
  | inl e ↦ rw e refl
  | inr e ↦ rw e (ground (arith, apart k l key e, find_count-insert_label key (k, n) ys))
]

find_count-sorted_items :
    (key : Label) (xs : List (Label × ℕ)) → find_count key (sorted_items xs) ≡ find_count key xs
find_count-sorted_items key [] = refl
find_count-sorted_items key ((k, n) ∷ xs) =
    find_count-insert_label key (k, n) (sorted_items xs)
    ∙ ap (λ o. if same_label k key then some n else o) (find_count-sorted_items key xs)

value_of-fired :
    (s r : String) (xs : List (Label × ℕ)) (rest : List Line)
    → value_of "itdn_alerts_fired_total"
        (("severity", s) ∷ ("rule_name", r) ∷ [])
        (map fired_line xs ++ rest)
      ≡ or_else
          (find_count (s, r) xs)
          (value_of "itdn_alerts_fired_total" (("severity", s) ∷ ("rule_name", r) ∷ []) rest)
value_of-fired s r [] rest = refl
value_of-fired s r (((t, q), n) ∷ xs) rest = ground (arith, value_of-fired s r xs rest)

-- Samples of one name are not found among those of another.
value_of-skipped :
    (name : String) (labels : List (String × String)) (f : Label × ℕ → Line) (xs : List (Label × ℕ))
    (rest : List Line)
    → ((x : Label × ℕ) (ls : List Line) → value_of name labels (f x ∷ ls) ≡ value_of name labels ls)
    → value_of name labels (map f xs ++ rest) ≡ value_of name labels rest
value_of-skipped name labels f [] rest skips = refl
value_of-skipped name labels f (x ∷ xs) rest skips =
    skips x (map f xs ++ rest) ∙ value_of-skipped name labels f xs rest skips

-- The open alerts of the database.
abbrev pub open_alerts : Db → List AlertRow
open_alerts db = select (λ r. not r.acknowledged) db.alerts

active_alerts-open : (db : Db) → active_alerts db ≡ min 100000 (length (open_alerts db))
unfolding active_alerts list_alerts
active_alerts-open db =
    length-take 100000 (sort_desc (λ r. r.created_at) (open_alerts db))
    ∙ ap (min 100000) (length-sort_desc (λ r. r.created_at) (open_alerts db))

fired_sample :
    (m : Metrics) (active : ℕ) (s r : String)
    → value_of "itdn_alerts_fired_total"
        (("severity", s) ∷ ("rule_name", r) ∷ [])
        (render_lines m active)
      ≡ find_count (s, r) m.alerts_fired
unfolding render_lines
fired_sample m active s r =
    value_of-fired s r (sorted_items m.alerts_fired) _
    ∙ ap (or_else (find_count (s, r) (sorted_items m.alerts_fired))) (
        value_of-skipped "itdn_alerts_fired_total" _ rule_line (sorted_items m.rule_fires) _
          (λ x ls. refl))
    ∙ or_else-none (find_count (s, r) (sorted_items m.alerts_fired))
    ∙ find_count-sorted_items (s, r) m.alerts_fired

active_sample :
    (m : Metrics) (active : ℕ)
    → value_of "itdn_alerts_active" [] (render_lines m active) ≡ some active
unfolding render_lines
active_sample m active =
    value_of-skipped "itdn_alerts_active" [] fired_line (sorted_items m.alerts_fired) _
      (λ x ls. refl)
    ∙ value_of-skipped "itdn_alerts_active" [] rule_line (sorted_items m.rule_fires) _
        (λ x ls. refl)

-- A scrape reads the number of events ingested, for each severity and rule the number of alerts that
-- were counted, or no sample if there were none, and as the gauge the number of open alerts in the
-- database, but 100000 at most.
pub render_lines-samples :
    (m : Metrics) (db : Db) (severity rule : String)
    → let lines = render_lines m (active_alerts db) in
      (value_of "itdn_events_ingested_total" [] lines ≡ some m.events_ingested)
      × (value_of "itdn_alerts_fired_total"
            (("severity", severity) ∷ ("rule_name", rule) ∷ [])
            lines
          ≡ find_count (severity, rule) m.alerts_fired)
      × (value_of "itdn_alerts_active" [] lines ≡ some (min 100000 (length (open_alerts db))))
render_lines-samples m db severity rule = (
  (unfold render_lines in refl),
  fired_sample m (active_alerts db) severity rule,
  active_sample m (active_alerts db) ∙ ap some (active_alerts-open db),
)
