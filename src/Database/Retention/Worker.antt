-- ===== src/Database/Retention/Worker.antt =====
-- server/app.py: the worker that purges once a day.
use insider_threat_detection.Common.{
  ℕ, ◌-◌, ◌*◌, ◌≤◌, String, ◌≡◌, refl, ap, ◌∙◌, true, not, Option, none, some, List, [], ◌∷◌, arith,
  ◌==◌, ltb, leb, select-select, sort_asc, and-eq-true,
}
use insider_threat_detection.Database.{Env, Db}
use insider_threat_detection.Database.Events.{get_recent_events}
use insider_threat_detection.Database.Retention.{purge_old_records}

-- The rounds of the worker, each with the clock of its purge, or `none` where the purge raises: the
-- exception is logged, and the transaction has changed nothing.
unfoldable pub retention_worker : ℕ → List (Option Env) → Db → Db
unfolding purge_old_records
retention_worker days [] db = db
retention_worker days (none ∷ rounds) db = retention_worker days rounds db
retention_worker days (some env ∷ rounds) db =
    retention_worker days rounds (purge_old_records env days db).1

abbrev pub IsBefore : ℕ → List (Option Env) → Type 0
IsBefore now [] = Unit
IsBefore now (none ∷ rounds) = IsBefore now rounds
IsBefore now (some env ∷ rounds) = (env.now ≤ now) × IsBefore now rounds

recent_enough :
    (now earlier days window t : ℕ)
    → earlier ≤ now
    → window ≤ days * 86400
    → leb (now - window) t ≡ true
    → not (ltb t (earlier - days * 86400)) ≡ true
recent_enough now earlier days window t h k e = ground (arith, h, k, e)

get_recent_events-earlier :
    (env earlier : Env) (days window : ℕ) (host : String) (db : Db)
    → earlier.now ≤ env.now
    → window ≤ days * 86400
    → get_recent_events env host window (purge_old_records earlier days db).1
      ≡ get_recent_events env host window db
unfolding purge_old_records get_recent_events
get_recent_events-earlier env earlier days window host db h k = ap (sort_asc (λ r. r.received_at)) (
    select-select _ _ db.events (λ r p.
      recent_enough env.now earlier.now days window r.received_at h k
        ((and-eq-true (r.hostname == host) _ p).1)))

-- The detection rules read the same events of a host within a window no longer than the retention
-- time, however often the worker has run before, and whichever of its purges failed.
pub retention_worker-recent :
    (env : Env) (days window : ℕ) (host : String) (rounds : List (Option Env)) (db : Db)
    → IsBefore env.now rounds
    → window ≤ days * 86400
    → get_recent_events env host window (retention_worker days rounds db)
      ≡ get_recent_events env host window db
unfolding retention_worker
retention_worker-recent env days window host [] db b k = refl
retention_worker-recent env days window host (none ∷ rounds) db b k =
    retention_worker-recent env days window host rounds db b k
retention_worker-recent env days window host (some earlier ∷ rounds) db b k =
    retention_worker-recent env days window host rounds (purge_old_records earlier days db).1 b.1 k
    ∙ get_recent_events-earlier env earlier days window host db b.0 k
