-- ===== src/Database/Events.antt =====
-- insert_event, get_recent_events, get_recent_events_by_device, device_is_new
use insider_threat_detection.Common.{
  ℕ, String, ◌≡◌, refl, Bool, true, false, not, ◌&&◌, none, some, List, [], ◌∷◌, ◌++◌, map, arith,
  ◌==◌, leb, select, any, first, any-append, sort_asc,
}
use insider_threat_detection.Event.{Event}
use insider_threat_detection.Database.{Env, utcnow, cutoff, EventRow, Db}

unfoldable pub event_row : Env → Event → Db → EventRow
event_row env event db = record {
  id = env.fresh (map (λ r. r.id) db.events);
  received_at = utcnow env;
  hostname = event.hostname;
  event_type = event.event_type;
  device_id = event.device_id;
  serial = event.serial;
  manufacturer = event.manufacturer;
  product = event.product;
  bus_path = event.bus_path;
  transfer_bytes = event.transfer_bytes;
  raw_json = event;
}

unfoldable pub insert_event : Env → Event → Db → ℕ × Db
unfolding event_row
insert_event env event db =
    let row = event_row env event db in (row.id, record db { events = db.events ++ row ∷ [] })

unfoldable pub get_recent_events : Env → String → ℕ → Db → List EventRow
get_recent_events env hostname window_secs db =
    sort_asc (λ r. r.received_at)
      (select (λ r. r.hostname == hostname && leb (cutoff env window_secs) r.received_at) db.events)

unfoldable pub get_recent_events_by_device : Env → String → ℕ → Db → List EventRow
get_recent_events_by_device env device_id window_secs db =
    sort_asc (λ r. r.received_at)
      (select (λ r. r.device_id == device_id && leb (cutoff env window_secs) r.received_at)
        db.events)

abbrev is_seen : String → String → EventRow → Bool
is_seen hostname device_id r = r.hostname == hostname && r.device_id == device_id

unfoldable pub device_is_new : String → String → Db → Bool
device_is_new hostname device_id db = elim (first (select (is_seen hostname device_id) db.events)) [
  | none ↦ true
  | some _ ↦ false
]

-- `device_is_new` is exactly that no stored event has the host and the device.
pub device_is_new-any :
    (host dev : String) (db : Db)
    → device_is_new host dev db ≡ not (any (is_seen host dev) db.events)
unfolding device_is_new
device_is_new-any host dev db = go db.events
  where
    go :
        (rows : List EventRow)
        → (elim (first (select (is_seen host dev) rows)) [ none ↦ true | some _ ↦ false ])
          ≡ not (any (is_seen host dev) rows)
    go [] = refl
    go (r ∷ rs) = ground (arith, go rs)

-- After an event is stored, a device is new on a host exactly if it was new before and is not that
-- event's device on that event's host.
pub device_is_new-insert_event :
    (env : Env) (e : Event) (host dev : String) (db : Db)
    → device_is_new host dev (insert_event env e db).1
      ≡ (device_is_new host dev db && not (e.hostname == host && e.device_id == dev))
unfolding insert_event
device_is_new-insert_event env e host dev db =
    rw (device_is_new-any, device_is_new-any, any-append) (ground arith)
