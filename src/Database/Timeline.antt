-- ===== src/Database/Timeline.antt =====
-- get_timeline
use insider_threat_detection.Common.{
  ℕ, ◌+◌, min, String, ◌≡◌, Bool, true, ◌&&◌, ◌||◌, Option, none, some, List, ◌++◌, map, arith,
  ◌==◌, leb, is_empty, length, take, select, length-take, length-map, IsAscending,
  IsAscending-sort_asc, IsAscending-take, length-sort_asc, length-append, sort_asc,
}
use insider_threat_detection.Database.{EventRow, AlertRow, Db}

-- The rows with their `_kind`.
pub data Item : Type 0 where
  event_item : EventRow → Item
  alert_item : AlertRow → Item

abbrev pub ts : Item → ℕ
ts (event_item r) = r.received_at
ts (alert_item r) = r.created_at

abbrev pub text_filter : Option String → String → Bool
text_filter none s = true
text_filter (some wanted) s = is_empty wanted || s == wanted

abbrev pub since_filter : Option ℕ → ℕ → Bool
since_filter none t = true
since_filter (some since) t = leb since t

unfoldable pub event_rows : Option String → Option String → Option ℕ → ℕ → Db → List EventRow
event_rows hostname device_id since limit db = take limit (
    sort_asc (λ r. r.received_at)
      (select
        (λ r.
          text_filter hostname r.hostname
          && text_filter device_id r.device_id
          && since_filter since r.received_at)
        db.events))

unfoldable pub alert_rows : Option String → Option String → Option ℕ → ℕ → Db → List AlertRow
alert_rows hostname device_id since limit db = take limit (
    sort_asc (λ r. r.created_at)
      (select
        (λ r.
          text_filter hostname r.hostname
          && text_filter device_id r.device_id
          && since_filter since r.created_at)
        db.alerts))

unfoldable pub get_timeline : Option String → Option String → Option ℕ → ℕ → Db → List Item
unfolding event_rows alert_rows
get_timeline hostname device_id since limit db = take limit (
    sort_asc ts (
      map event_item (event_rows hostname device_id since limit db)
      ++ map alert_item (alert_rows hostname device_id since limit db)))

-- The timeline is in the order of time, and has as many items as there are matching events and
-- alerts, up to the limit: the limits of the two queries lose none that the result has room for.
pub get_timeline-sorted :
    (host dev : Option String) (since : Option ℕ) (limit : ℕ) (db : Db)
    → let found = get_timeline host dev since limit db in
      IsAscending ts found
      × (length found
          ≡ min limit (
              length (
                select
                  (λ r.
                    text_filter host r.hostname
                    && text_filter dev r.device_id
                    && since_filter since r.received_at)
                  db.events)
              + length (
                  select
                    (λ r.
                      text_filter host r.hostname
                      && text_filter dev r.device_id
                      && since_filter since r.created_at)
                    db.alerts)))
unfolding get_timeline
get_timeline-sorted host dev since limit db = (
  IsAscending-take ts limit _ (
      IsAscending-sort_asc ts (
        map event_item (event_rows host dev since limit db)
        ++ map alert_item (alert_rows host dev since limit db))),
  rw
      (
        length-take, length-sort_asc, length-append, length-map, length-map, length-take,
        length-take, length-sort_asc, length-sort_asc,
      )
      (omega arith),
)
