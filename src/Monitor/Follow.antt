-- ===== src/Monitor/Follow.antt =====
-- A server that follows the events of a polling monitor knows which devices are attached.
use insider_threat_detection.Common.{
  ℕ, zero, suc, ◌+◌, String, ◌≡◌, refl, ap, ◌∙◌, inl, inr, Bool, true, false, not, ◌&&◌, ◌||◌, some,
  List, [], ◌∷◌, ◌++◌, map, arith, ◌==◌, if◌then◌else◌, Bool-cases, eq_of_==, select, All,
  All-select,
}
use insider_threat_detection.Event.{EventType, connected, disconnected, data_transfer}
use insider_threat_detection.Monitor.{
  EventDict, Snapshot, has_path, Clock, disconnect_evt, event_of, poll_events, poll_from,
  poll_monitor_loop,
}

abbrev pub attached_after : EventType → Bool → Bool
attached_after connected before = true
attached_after disconnected before = false
attached_after data_transfer before = before

-- Whether a path is among the entries that pass a test on the path.
select-has_path :
    (q : String → Bool) (k : String) (devices : Snapshot)
    → has_path k (select (λ e. q e.0) devices) ≡ (q k && has_path k devices)
select-has_path q k [] = ground arith
select-has_path q k (e ∷ devices) = elim (Bool-cases (e.0 == k)) [
  | inl same ↦ ground (arith, select-has_path q k devices, same, ap q (eq_of_== e.0 k same))
  | inr other ↦ ground (arith, select-has_path q k devices, other)
]

-- The field of an event that tells the devices of a listing apart: the serial for Bluetooth, the bus
-- path for USB devices on Linux, the device id for those on Windows.
module _ (key : EventDict → String) where
  -- Whether the device k is attached after an event, if `before` tells whether it was.
  abbrev pub observe : String → EventDict → Bool → Bool
  observe k e before = if key e == k then attached_after e.event_type before else before

  abbrev pub follow : String → List EventDict → Bool → Bool
  follow k [] before = before
  follow k (e ∷ events) before = follow k events (observe k e before)

  abbrev new_entries : Snapshot → Snapshot → Snapshot
  new_entries previous current = select (λ e. not (has_path e.0 previous)) current

  -- Each entry of a listing is a connected event with its key.
  abbrev pub IsEntry : String × EventDict → Type 0
  IsEntry e = (key e.1 ≡ e.0) × (e.1.event_type ≡ connected)

  abbrev pub IsListing : Snapshot → Type 0
  IsListing = All IsEntry

  pub follow-append :
      (k : String) (xs ys : List EventDict) (before : Bool)
      → follow k (xs ++ ys) before ≡ follow k ys (follow k xs before)
  follow-append k [] ys before = refl
  follow-append k (e ∷ xs) ys before = follow-append k xs ys (observe k e before)

  observe_connected :
      (k : String) (e : String × EventDict) (before : Bool)
      → IsEntry e
      → observe k e.1 before ≡ (before || (e.0 == k))
  observe_connected k (path, evt) before (named, plugged) = rw (named, plugged) (ground arith)

  follow_connected :
      (k : String) (devices : Snapshot) (before : Bool)
      → IsListing devices
      → follow k (map event_of devices) before ≡ (before || has_path k devices)
  follow_connected k [] before l = ground arith
  follow_connected k (e ∷ devices) before l =
      ap (λ b. follow k (map event_of devices) b) (observe_connected k e before l.0)
      ∙ follow_connected k devices (before || (e.0 == k)) l.1
      ∙ ground arith

  module _ (utcnow : Clock)
      (key_kept : (e : String × EventDict) → key (disconnect_evt utcnow e) ≡ key e.1) where
    observe_disconnected :
        (k : String) (e : String × EventDict) (before : Bool)
        → IsEntry e
        → observe k (disconnect_evt utcnow e) before ≡ (before && not (e.0 == k))
    observe_disconnected k (path, evt) before (named, plugged) =
        rw (key_kept (path, evt), named) (ground arith)

    follow_disconnected :
        (k : String) (devices : Snapshot) (before : Bool)
        → IsListing devices
        → follow k (map (disconnect_evt utcnow) devices) before
          ≡ (before && not (has_path k devices))
    follow_disconnected k [] before l = ground arith
    follow_disconnected k (e ∷ devices) before l =
        ap (λ b. follow k (map (disconnect_evt utcnow) devices) b)
          (observe_disconnected k e before l.0)
        ∙ follow_disconnected k devices (before && not (e.0 == k)) l.1
        ∙ ground arith

    -- A round's events, read by one who knew before it which devices were attached, tell which
    -- devices the new listing has.
    pub poll_events-follow :
        (k : String) (previous current : Snapshot)
        → IsListing previous
        → IsListing current
        → follow k (poll_events utcnow previous current) (has_path k previous) ≡ has_path k current
    unfolding poll_events
    poll_events-follow k previous current lp lc =
        follow-append k (map event_of (new_entries previous current)) _ (has_path k previous)
        ∙ ap (λ b. follow k (map (disconnect_evt utcnow) (new_entries current previous)) b)
            (follow_connected k (new_entries previous current) (has_path k previous)
              (All-select IsEntry _ current lc))
        ∙ follow_disconnected k (new_entries current previous) _ (All-select IsEntry _ previous lp)
        ∙ ground (
          arith,
          select-has_path (λ path. not (has_path path previous)) k current,
          select-has_path (λ path. not (has_path path current)) k previous,
        )

  module _ (clock : ℕ → Clock) (stop : ℕ → Bool) (snapshots : ℕ → Snapshot)
      (key_kept : (utcnow : Clock) (e : String × EventDict)
        → key (disconnect_evt utcnow e) ≡ key e.1)
      (listings : (n : ℕ) → IsListing (snapshots n)) where
    -- The loop comes to its end: it finds the stop event set after the listing `last`, and what it
    -- has handed over by then tells of a device whether that listing has it.
    pub record Returned (k : String) (fuel n : ℕ) (previous : Snapshot) : Type 0 where
      pub events : List EventDict
      pub last : ℕ
      pub returned : poll_from clock stop snapshots fuel n previous ≡ some events
      pub stopped : stop (suc last) ≡ true
      pub followed : follow k events (has_path k previous) ≡ has_path k (snapshots last)

    poll_from-round :
        (k : String) (fuel n : ℕ) (previous : Snapshot)
        → IsListing previous
        → stop n ≡ false
        → Returned k fuel (suc n) (snapshots n)
        → Returned k (suc fuel) n previous
    unfolding poll_from
    poll_from-round k fuel n previous l going rest = record {
      events = poll_events (clock n) previous (snapshots n) ++ rest.events;
      last = rest.last;
      returned = rw (going, rest.returned) refl;
      stopped = rest.stopped;
      followed =
          follow-append k (poll_events (clock n) previous (snapshots n)) rest.events
            (has_path k previous)
          ∙ ap (λ b. follow k rest.events b)
              (poll_events-follow (clock n) (key_kept (clock n)) k previous (snapshots n) l
                (listings n))
          ∙ rest.followed;
    }

    poll_from-stop :
        (k : String) (fuel n : ℕ)
        → stop (suc n) ≡ true
        → Returned k (suc fuel) (suc n) (snapshots n)
    unfolding poll_from
    poll_from-stop k fuel n stopping = record {
      events = [];
      last = n;
      returned = rw stopping refl;
      stopped = stopping;
      followed = refl;
    }

    poll_from-returns :
        (k : String) (fuel n : ℕ)
        → stop (suc n + fuel) ≡ true
        → Returned k (suc fuel) (suc n) (snapshots n)
    poll_from-returns k zero n later = poll_from-stop k zero n (ap stop (omega arith) ∙ later)
    poll_from-returns k (suc fuel) n later = elim (Bool-cases (stop (suc n))) [
      | inl stopping ↦ poll_from-stop k (suc fuel) n stopping
      | inr going ↦
          poll_from-round k (suc fuel) (suc n) (snapshots n) (listings n) going
            (poll_from-returns k fuel (suc n) (ap stop (omega arith) ∙ later))
    ]

    -- The polling loop ends: if the stop event is set when round m + 1 begins, then m + 1 units of
    -- fuel are enough for it to return, and from the events that it has handed over, and the
    -- listing that it began with, follows which devices its last listing has. It is assumed of each
    -- listing that an entry is a connected event with the entry's key, and of the key that a change
    -- of an event's type and time leaves it alone.
    pub poll_monitor_loop-returns :
        (k : String) (m : ℕ)
        → stop (suc m) ≡ true
        → (events : List EventDict) × (last : ℕ) × (poll_monitor_loop clock stop snapshots (suc m)
            ≡ some events)
          × (stop (suc last) ≡ true)
          × (follow k events (has_path k (snapshots 0)) ≡ has_path k (snapshots last))
    unfolding poll_monitor_loop
    poll_monitor_loop-returns k m later =
        let r = poll_from-returns k m 0 (ap stop (omega arith) ∙ later) in
        (r.events, r.last, r.returned, r.stopped, r.followed)
