-- ===== src/AlertManager/Dedup.antt =====
-- No alert repeats within the window.
use insider_threat_detection.Common.{
  ℕ, ◌+◌, ◌<◌, String, ◌≡◌, inl, inr, Bool, true, false, ◌&&◌, List, [], ◌∷◌, ◌++◌, arith, ◌==◌,
  Option-cases, any, All, All-append,
}
use insider_threat_detection.Event.{Event, Alert}
use insider_threat_detection.Database.{Env, AlertRow, cutoff}
use insider_threat_detection.Database.Alerts.{
  insert_alert, get_recent_alert, get_recent_alert-none, is_recent,
}
use insider_threat_detection.AlertManager.{Server, process_alert, process_alerts}

abbrev pub same_alert : AlertRow → AlertRow → Bool
same_alert r s =
    r.hostname == s.hostname && r.device_id == s.device_id && r.rule_name == s.rule_name

-- Rows with one host, device and rule are more than the window apart, in the order of the table.
abbrev pub IsSpaced : ℕ → List AlertRow → Type 0
IsSpaced w [] = Unit {0}
IsSpaced w (r ∷ rs) =
    All (λ s. same_alert r s ≡ true → r.created_at + w < s.created_at) rs × IsSpaced w rs

IsSpaced-append :
    (w : ℕ) (rs : List AlertRow) (x : AlertRow)
    → IsSpaced w rs
    → All (λ r. same_alert r x ≡ true → r.created_at + w < x.created_at) rs
    → IsSpaced w (rs ++ x ∷ [])
IsSpaced-append w [] x s a = (tt, tt)
IsSpaced-append w (r ∷ rs) x s a =
    (All-append _ rs (x ∷ []) s.0 (a.0, tt), IsSpaced-append w rs x s.1 a.1)

old_enough :
    (env : Env) (w : ℕ) (host dev rule : String) (rs : List AlertRow)
    → any (is_recent (cutoff env w) host dev rule) rs ≡ false
    → All
        (λ r.
          (r.hostname == host && r.device_id == dev && r.rule_name == rule) ≡ true
          → r.created_at + w < env.now)
        rs
old_enough env w host dev rule [] n = tt
old_enough env w host dev rule (r ∷ rs) n =
    (λ s. ground (arith, n, s), old_enough env w host dev rule rs (ground arith))

module _ (w : ℕ) (env : Env) where
  process_alert-IsSpaced :
      (event : Event) (alert : Alert) (s : Server)
      → IsSpaced w s.db.alerts
      → IsSpaced w (process_alert w env event alert s).db.alerts
  unfolding process_alert insert_alert
  process_alert-IsSpaced event alert s h =
      elim (Option-cases
        (get_recent_alert env event.hostname event.device_id alert.rule_name w s.db)) [
          | inr (row, e) ↦ rw e h
          | inl e ↦ rw e (
              IsSpaced-append w s.db.alerts _ h (
                old_enough env w event.hostname event.device_id alert.rule_name s.db.alerts (
                  (get_recent_alert-none env event.hostname event.device_id alert.rule_name w
                      s.db).0
                    e)))
        ]

  -- Whatever alerts are processed, at whatever time, if no two stored alerts for one host, device
  -- and rule were within the window of each other, none are afterwards.
  pub process_alerts-IsSpaced :
      (event : Event) (alerts : List Alert) (s : Server)
      → IsSpaced w s.db.alerts
      → IsSpaced w (process_alerts w env event alerts s).db.alerts
  unfolding process_alerts
  process_alerts-IsSpaced event [] s h = h
  process_alerts-IsSpaced event (alert ∷ alerts) s h =
      process_alerts-IsSpaced event alerts _ (process_alert-IsSpaced event alert s h)
