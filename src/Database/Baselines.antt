-- ===== src/Database/Baselines.antt =====
-- update_device_baseline, get_device_baseline, update_user_baseline, user_device_is_new,
-- get_user_baseline
use insider_threat_detection.Common.{
  ℕ, ◌+◌, String, ◌≡◌, refl, ◌∙◌, inl, inr, Bool, true, false, not, ◌&&◌, ◌||◌, Option, none, some,
  List, [], ◌∷◌, ◌++◌, map, arith, ◌==◌, eq_iff, nat_eq, Option-cases, select, any, first,
  any-select, update_where, any-first, any-update_where, any-sort_asc, any-append, sort_asc,
}
use insider_threat_detection.Database.{Env, utcnow, BaselineRow, UserRow, Db}

abbrev is_pair : String → String → BaselineRow → Bool
is_pair hostname device_id r = r.hostname == hostname && r.device_id == device_id

abbrev seen_again : Env → ℕ → BaselineRow → BaselineRow
seen_again env count r = record r { last_seen = utcnow env; seen_count = count }

abbrev note_device :
    Env → String → String → Option BaselineRow → List BaselineRow → List BaselineRow
note_device env hostname device_id (some row) rows =
    update_where (λ r. nat_eq r.id row.id) (seen_again env (row.seen_count + 1)) rows
note_device env hostname device_id none rows =
    rows
    ++ record {
      id = env.fresh (map (λ r. r.id) rows);
      hostname = hostname;
      device_id = device_id;
      first_seen = utcnow env;
      last_seen = utcnow env;
      seen_count = 1;
    }
      ∷ []

unfoldable pub update_device_baseline : Env → String → String → Db → Db
update_device_baseline env hostname device_id db = record db {
  device_baseline =
      note_device env hostname device_id
        (first (select (is_pair hostname device_id) db.device_baseline)) db.device_baseline;
}

unfoldable pub get_device_baseline : String → Db → List BaselineRow
get_device_baseline hostname db =
    sort_asc (λ r. r.first_seen) (select (λ r. r.hostname == hostname) db.device_baseline)

abbrev is_triple : String → String → String → UserRow → Bool
is_triple username hostname device_id r =
    r.username == username && r.hostname == hostname && r.device_id == device_id

abbrev seen_again_by_user : Env → ℕ → UserRow → UserRow
seen_again_by_user env count r = record r { last_seen = utcnow env; seen_count = count }

abbrev note_user : Env → String → String → String → Option UserRow → List UserRow → List UserRow
note_user env username hostname device_id (some row) rows =
    update_where (λ r. nat_eq r.id row.id) (seen_again_by_user env (row.seen_count + 1)) rows
note_user env username hostname device_id none rows =
    rows
    ++ record {
      id = env.fresh (map (λ r. r.id) rows);
      username = username;
      hostname = hostname;
      device_id = device_id;
      first_seen = utcnow env;
      last_seen = utcnow env;
      seen_count = 1;
    }
      ∷ []

unfoldable pub update_user_baseline : Env → String → String → String → Db → Db
update_user_baseline env username hostname device_id db = record db {
  user_baseline =
      note_user env username hostname device_id
        (first (select (is_triple username hostname device_id) db.user_baseline)) db.user_baseline;
}

unfoldable pub user_device_is_new : String → String → String → Db → Bool
user_device_is_new username hostname device_id db =
    elim (first (select (is_triple username hostname device_id) db.user_baseline)) [
      | none ↦ true
      | some _ ↦ false
    ]

unfoldable pub get_user_baseline : String → Db → List UserRow
get_user_baseline username db =
    sort_asc (λ r. r.first_seen) (select (λ r. r.username == username) db.user_baseline)

-- server/scoring/baseline.py, BaselineProfiler: `is_known`, and `update`, which is
-- `update_device_baseline`.
unfoldable pub is_known : String → String → Db → Bool
unfolding get_device_baseline
is_known hostname device_id db =
    any (λ b. b.device_id == device_id) (get_device_baseline hostname db)

is_known-any :
    (host dev : String) (db : Db) → is_known host dev db ≡ any (is_pair host dev) db.device_baseline
unfolding is_known
is_known-any host dev db =
    any-sort_asc (λ r. r.first_seen) _ (select (λ r. r.hostname == host) db.device_baseline)
    ∙ any-select _ _ db.device_baseline

-- A device is known on a host exactly if it was before or has just been recorded there.
pub is_known-update_device_baseline :
    (env : Env) (host dev other_host other_dev : String) (db : Db)
    → is_known other_host other_dev (update_device_baseline env host dev db)
      ≡ (is_known other_host other_dev db || (host == other_host && dev == other_dev))
unfolding update_device_baseline
is_known-update_device_baseline env host dev g d db =
    rw (is_known-any, is_known-any)
      (elim (Option-cases (first (select (is_pair host dev) db.device_baseline))) [
        | inl e ↦ rw (e, any-append) (ground arith)
        | inr (row, e) ↦
            rw
              (
                e,
                any-update_where (is_pair g d) (λ r. nat_eq r.id row.id)
                    (seen_again env (row.seen_count + 1)) db.device_baseline (λ r. refl),
              )
              (ground (
                arith,
                any-first (is_pair host dev) db.device_baseline,
                eq_iff host g,
                eq_iff dev d,
              ))
      ])

user_device_is_new-any :
    (user host dev : String) (db : Db)
    → user_device_is_new user host dev db ≡ not (any (is_triple user host dev) db.user_baseline)
unfolding user_device_is_new
user_device_is_new-any user host dev db =
    ground (arith, any-first (is_triple user host dev) db.user_baseline)

-- A device is new to a user on a host exactly if it was before and has not just been recorded.
pub user_device_is_new-update_user_baseline :
    (env : Env) (user host dev other_user other_host other_dev : String) (db : Db)
    → user_device_is_new other_user other_host other_dev (update_user_baseline env user host dev db)
      ≡ (user_device_is_new other_user other_host other_dev db
          && not (user == other_user && host == other_host && dev == other_dev))
unfolding update_user_baseline
user_device_is_new-update_user_baseline env user host dev u g d db =
    rw (user_device_is_new-any, user_device_is_new-any)
      (elim (Option-cases (first (select (is_triple user host dev) db.user_baseline))) [
        | inl e ↦ rw (e, any-append) (ground arith)
        | inr (row, e) ↦
            rw
              (
                e,
                any-update_where (is_triple u g d) (λ r. nat_eq r.id row.id)
                    (seen_again_by_user env (row.seen_count + 1)) db.user_baseline (λ r. refl),
              )
              (ground (
                arith,
                any-first (is_triple user host dev) db.user_baseline,
                eq_iff user u,
                eq_iff host g,
                eq_iff dev d,
              ))
      ])
