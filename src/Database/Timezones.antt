-- ===== src/Database/Timezones.antt =====
-- update_host_timezone, get_host_timezone
use insider_threat_detection.Common.{
  String, ◌≡◌, inl, inr, Bool, ◌&&◌, Option, none, some, List, [], ◌∷◌, ◌++◌, map, arith, ◌==◌,
  eq_iff, if◌then◌else◌, Option-cases, select, any, first, update_where, first-select-append,
  any-first,
}
use insider_threat_detection.Common.Int.{ℤ}
use insider_threat_detection.Database.{Env, utcnow, TimezoneRow, Db}

abbrev of_host : String → TimezoneRow → Bool
of_host hostname r = r.hostname == hostname

abbrev set_offset : Env → String → ℤ → Option TimezoneRow → List TimezoneRow → List TimezoneRow
set_offset env hostname utc_offset_hours (some row) rows =
    update_where (of_host hostname)
      (λ r. record r { utc_offset_hours = utc_offset_hours; updated_at = utcnow env }) rows
set_offset env hostname utc_offset_hours none rows =
    rows
    ++ record {
      id = env.fresh (map (λ r. r.id) rows);
      hostname = hostname;
      utc_offset_hours = utc_offset_hours;
      updated_at = utcnow env;
    }
      ∷ []

unfoldable pub update_host_timezone : Env → String → ℤ → Db → Db
update_host_timezone env hostname utc_offset_hours db = record db {
  host_timezone =
      set_offset env hostname utc_offset_hours (first (select (of_host hostname) db.host_timezone))
        db.host_timezone;
}

abbrev offset_of : Option TimezoneRow → Option ℤ
offset_of none = none
offset_of (some r) = some r.utc_offset_hours

unfoldable pub get_host_timezone : String → Db → Option ℤ
get_host_timezone hostname db = offset_of (first (select (of_host hostname) db.host_timezone))

module _ (env : Env) (host other : String) (offset : ℤ) where
  offset-update_where :
      (rows : List TimezoneRow)
      → offset_of (
          first (
            select (of_host other) (
              update_where
                (of_host host)
                (λ r. record r { utc_offset_hours = offset; updated_at = utcnow env })
                rows)))
        ≡ (if host == other && any (of_host host) rows
            then some offset
            else offset_of (first (select (of_host other) rows)))
  offset-update_where [] = ground arith
  offset-update_where (r ∷ rs) = ground (
    arith,
    offset-update_where rs,
    eq_iff r.hostname host,
    eq_iff r.hostname other,
    eq_iff host other,
  )

  -- The offset that was recorded last for a host is the one that is read; the others stay.
  pub get_host_timezone-update_host_timezone :
      (db : Db)
      → get_host_timezone other (update_host_timezone env host offset db)
        ≡ (if host == other then some offset else get_host_timezone other db)
  unfolding get_host_timezone update_host_timezone
  get_host_timezone-update_host_timezone db =
      elim (Option-cases (first (select (of_host host) db.host_timezone))) [
        | inl e ↦ rw e (rw first-select-append (ground (arith, e, eq_iff host other)))
        | inr (row, e) ↦ rw e (
            rw (offset-update_where db.host_timezone)
              (ground (arith, any-first (of_host host) db.host_timezone, eq_iff host other)))
      ]
