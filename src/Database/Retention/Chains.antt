-- ===== src/Database/Retention/Chains.antt =====
-- What a purge does to the chains of the hosts.
use mathlib.Core.Path.{subst}
use insider_threat_detection.Common.{
  ℕ, ◌-◌, ◌*◌, String, ◌≡◌, refl, sym, ap, ◌∙◌, Bool, false, not, List, [], ◌∷◌, ◌++◌, arith, ltb,
  select, select-append,
}
use insider_threat_detection.Json.{Json}
use insider_threat_detection.Chain.{Hasher, genesis_hash}
use insider_threat_detection.Database.{Env, AuditRow, Db}
use insider_threat_detection.Database.Audit.{of_host, audit_hash}
use insider_threat_detection.Database.Audit.Linked.{RowsLinked, IsSound, last_hash}
use insider_threat_detection.Database.Retention.{kept, purge_old_records}

select_comm :
    {A : Type 0} (p q : A → Bool) (xs : List A) → select p (select q xs) ≡ select q (select p xs)
select_comm p q [] = refl
select_comm p q (x ∷ xs) = ground (arith, select_comm p q xs)

-- The rows that a purge at this time keeps.
abbrev pub rows_kept : Env → ℕ → List AuditRow → List AuditRow
rows_kept env days = kept (λ r. r.recorded_at) (env.now - days * 86400)

module _ (h : Hasher) where
  after-linked :
      (prev : String) (earlier : List AuditRow) (s : AuditRow) (later : List AuditRow)
      → RowsLinked h prev (earlier ++ s ∷ later)
      → s.prev_hash ≡ last_hash prev earlier
  after-linked prev [] s later l = l.0
  after-linked prev (r ∷ earlier) s later l = after-linked r.record_hash earlier s later l.2

  last_hash-digest :
      (prev : String) (r : AuditRow) (earlier rows : List AuditRow)
      → RowsLinked h prev (r ∷ (earlier ++ rows))
      → (before : String) × (event : Json) × (audit_hash h before event
          ≡ last_hash prev (r ∷ earlier))
  last_hash-digest prev r [] rows l = (prev, r.event_json, sym l.1)
  last_hash-digest prev r (s ∷ earlier) rows l = last_hash-digest r.record_hash s earlier rows l.2

  -- A purge that takes the first records of a host, and not all of them, leaves a chain that does not
  -- start at the genesis hash, unless that is the digest of some record.
  pub purge_old_records-unlinked :
      (env : Env) (days : ℕ) (host : String) (db : Db) (r s : AuditRow)
      (earlier later : List AuditRow)
      → IsSound h db
      → select (of_host host) db.audit_chain ≡ r ∷ (earlier ++ s ∷ later)
      → rows_kept env days (r ∷ earlier) ≡ []
      → ltb s.recorded_at (env.now - days * 86400) ≡ false
      → RowsLinked h genesis_hash
          (select (of_host host) (purge_old_records env days db).1.audit_chain)
      → (before : String) × (event : Json) × (audit_hash h before event ≡ genesis_hash)
  unfolding purge_old_records
  purge_old_records-unlinked env days host db r s earlier later sound rows gone stays linked =
      let chain = sound.linked host in
      let chain' : RowsLinked h genesis_hash (r ∷ (earlier ++ s ∷ later)) =
        subst (RowsLinked h genesis_hash) rows chain in
      let left : select (of_host host) (rows_kept env days db.audit_chain)
          ≡ s ∷ rows_kept env days later =
        select_comm (of_host host) _ db.audit_chain
        ∙ ap (rows_kept env days) rows
        ∙ select-append (λ x. not (ltb x.recorded_at (env.now - days * 86400))) (r ∷ earlier)
            (s ∷ later)
        ∙ ap (λ xs. xs ++ rows_kept env days (s ∷ later)) gone
        ∙ rw stays refl in
      let first : s.prev_hash ≡ genesis_hash = (subst (RowsLinked h genesis_hash) left linked).0 in
      let (before, event, digest) = last_hash-digest genesis_hash r earlier (s ∷ later) chain' in
      (before, event, digest ∙ sym (after-linked genesis_hash (r ∷ earlier) s later chain') ∙ first)
