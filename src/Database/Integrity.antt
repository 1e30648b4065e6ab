-- ===== src/Database/Integrity.antt =====
-- register_agent_hash, check_agent_hash
use insider_threat_detection.Common.{
  String, ◌≡◌, inl, inr, Bool, false, ◌&&◌, Option, none, some, List, [], ◌∷◌, ◌++◌, map, arith,
  ◌==◌, eq_iff, if◌then◌else◌, Option-cases, select, any, first, update_where, first-select-append,
  any-first,
}
use insider_threat_detection.Database.{Env, utcnow, IntegrityRow, Db}

abbrev of_agent : String → IntegrityRow → Bool
of_agent agent_id r = r.agent_id == agent_id

abbrev set_hash :
    Env → String → String → Option IntegrityRow → List IntegrityRow → List IntegrityRow
set_hash env agent_id agent_hash (some row) rows =
    update_where (of_agent agent_id)
      (λ r. record r { trusted_hash = agent_hash; registered_at = utcnow env }) rows
set_hash env agent_id agent_hash none rows =
    rows
    ++ record {
      id = env.fresh (map (λ r. r.id) rows);
      agent_id = agent_id;
      trusted_hash = agent_hash;
      registered_at = utcnow env;
    }
      ∷ []

unfoldable pub register_agent_hash : Env → String → String → Db → Db
register_agent_hash env agent_id agent_hash db = record db {
  agent_integrity =
      set_hash env agent_id agent_hash (first (select (of_agent agent_id) db.agent_integrity))
        db.agent_integrity;
}

abbrev compare_hash : String → Option IntegrityRow → Bool × String
compare_hash agent_hash none = (false, "")
compare_hash agent_hash (some r) = (r.trusted_hash == agent_hash, r.trusted_hash)

unfoldable pub check_agent_hash : String → String → Db → Bool × String
check_agent_hash agent_id agent_hash db =
    compare_hash agent_hash (first (select (of_agent agent_id) db.agent_integrity))

module _ (env : Env) (agent other trusted reported : String) where
  hash-update_where :
      (rows : List IntegrityRow)
      → compare_hash reported (
          first (
            select (of_agent other) (
              update_where
                (of_agent agent)
                (λ r. record r { trusted_hash = trusted; registered_at = utcnow env })
                rows)))
        ≡ (if agent == other && any (of_agent agent) rows
            then (trusted == reported, trusted)
            else compare_hash reported (first (select (of_agent other) rows)))
  hash-update_where [] = ground arith
  hash-update_where (r ∷ rs) = ground (
    arith,
    hash-update_where rs,
    eq_iff r.agent_id agent,
    eq_iff r.agent_id other,
    eq_iff agent other,
  )

  -- After a registration the agent is trusted exactly with the registered hash, whatever was
  -- registered before, and the answer for every other agent stays.
  pub check_agent_hash-register_agent_hash :
      (db : Db)
      → check_agent_hash other reported (register_agent_hash env agent trusted db) ≡ (
          if agent == other
          then (trusted == reported, trusted)
          else check_agent_hash other reported db)
  unfolding check_agent_hash register_agent_hash
  check_agent_hash-register_agent_hash db =
      elim (Option-cases (first (select (of_agent agent) db.agent_integrity))) [
        | inl e ↦ rw e (rw first-select-append (ground (arith, e, eq_iff agent other)))
        | inr (row, e) ↦ rw e (
            rw (hash-update_where db.agent_integrity)
              (ground (arith, any-first (of_agent agent) db.agent_integrity, eq_iff agent other)))
      ]
