-- ===== src/Monitor/Raising.antt =====
-- A callback that raises in the polling loops: `_poll_monitor_loop` of agent/monitor/usb_monitor.py, and
-- `_loop` of agent/monitor/bt_monitor.py, which is written like it. Nothing in them catches an
-- exception, so that it ends the loop and its thread; the udev, WMI and ETW loops log it and go on.
use mathlib.Core.Option.{some_inj}
use insider_threat_detection.Common.{
  ℕ, zero, suc, ◌≡◌, refl, sym, ap, ◌∙◌, inl, inr, Bool, true, false, Option, none, some, List, [],
  ◌∷◌, ◌++◌, if◌then◌else◌, any, Bool-cases,
}
use insider_threat_detection.Monitor.{
  EventDict, Clock, Snapshot, poll_events, after_round, poll_from, poll_monitor_loop,
}

-- The events for which the callback is called: all up to the first on which it raises.
abbrev pub called : (EventDict → Bool) → List EventDict → List EventDict
called raises [] = []
called raises (e ∷ es) = let later = called raises es in e ∷ (if raises e then [] else later)

module _ (raises : EventDict → Bool) where
  called_through :
      (es later : List EventDict)
      → any raises es ≡ true
      → called raises (es ++ later) ≡ called raises es
  called_through [] later r = cc
  called_through (e ∷ es) later r = elim (Bool-cases (raises e)) [
    | inl now ↦ rw now refl
    | inr not_now ↦ rw not_now (ap (λ xs. e ∷ xs) (called_through es later (rw not_now at r)))
  ]

  called_all :
      (es later : List EventDict)
      → any raises es ≡ false
      → called raises (es ++ later) ≡ es ++ called raises later
  called_all [] later r = refl
  called_all (e ∷ es) later r = elim (Bool-cases (raises e)) [
    | inl now ↦ let clash = rw now at r in cc
    | inr not_now ↦ rw not_now (ap (λ xs. e ∷ xs) (called_all es later (rw not_now at r)))
  ]

  called_round :
      (es all : List EventDict) (rest rest' : Option (List EventDict))
      → after_round es rest ≡ some all
      → ((later : List EventDict) → rest ≡ some later → rest' ≡ some (called raises later))
      → (if any raises es then some (called raises es) else after_round es rest')
        ≡ some (called raises all)
  called_round es all none rest' e same = cc
  called_round es all (some later) rest' e same = elim (Bool-cases (any raises es)) [
    | inl now ↦ rw now (
        ap some (sym (called_through es later now))
        ∙ ap (λ xs. some (called raises xs)) (some_inj.0 e))
    | inr not_now ↦
        rw (not_now, same later refl)
          (ap some (sym (called_all es later not_now))
            ∙ ap (λ xs. some (called raises xs)) (some_inj.0 e))
  ]

  module _ (clock : ℕ → Clock) (stop : ℕ → Bool) (snapshots : ℕ → Snapshot) where
    -- The loop before its round n, with the events that it calls the callback for.
    unfoldable pub poll_raising_from : ℕ → ℕ → Snapshot → Option (List EventDict)
    poll_raising_from zero n previous = none
    poll_raising_from (suc fuel) n previous =
        let events = poll_events (clock n) previous (snapshots n) in
        let rest = poll_raising_from fuel (suc n) (snapshots n) in
        if stop n
        then some []
        else if any raises events
        then some (called raises events)
        else after_round events rest

    unfoldable pub poll_raising_loop : ℕ → Option (List EventDict)
    unfolding poll_raising_from
    poll_raising_loop fuel = poll_raising_from fuel 1 (snapshots 0)

    poll_raising_from-called :
        (fuel n : ℕ) (previous : Snapshot) (events : List EventDict)
        → poll_from clock stop snapshots fuel n previous ≡ some events
        → poll_raising_from fuel n previous ≡ some (called raises events)
    unfolding poll_raising_from poll_from
    poll_raising_from-called zero n previous events e = cc
    poll_raising_from-called (suc fuel) n previous events e = elim (Bool-cases (stop n)) [
      | inl stopped ↦
          let nothing = rw stopped at e in
          rw stopped (ap (λ xs. some (called raises xs)) (some_inj.0 nothing))
      | inr going ↦
          let round = rw going at e in
          rw going (
            called_round (poll_events (clock n) previous (snapshots n)) events _ _ round
              (λ later f. poll_raising_from-called fuel (suc n) (snapshots n) later f))
    ]

    -- Of a run of the polling loop that comes to its end, a callback that raises on some of its events
    -- gets those up to the first such event, and none after it, in this round or later ones; one
    -- that raises on no event gets them all.
    pub poll_raising_loop-called :
        (fuel : ℕ) (events : List EventDict)
        → poll_monitor_loop clock stop snapshots fuel ≡ some events
        → poll_raising_loop fuel ≡ some (called raises events)
    unfolding poll_raising_loop poll_monitor_loop
    poll_raising_loop-called fuel events e = poll_raising_from-called fuel 1 (snapshots 0) events e
