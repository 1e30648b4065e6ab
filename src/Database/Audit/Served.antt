-- ===== src/Database/Audit/Served.antt =====
-- The audit chain as the API serves it, and the verifier that reads it.
use insider_threat_detection.Common.{
  ℕ, String, ◌≡◌, refl, sym, ap, ◌∙◌, ◌≢◌, some, List, [], ◌∷◌, map, arith, All, All-sort_asc,
  All-take,
}
use insider_threat_detection.Json.{Json, Dict, str, without}
use insider_threat_detection.Chain.{Hasher, genesis_hash, compute_hash, verify_chain}
use insider_threat_detection.Chain.Spec.{verify_chain-intact}
use insider_threat_detection.Chain.Tamper.{IsBroken, collision}
use insider_threat_detection.Database.{AuditRow, Db}
use insider_threat_detection.Database.Audit.{get_audit_chain, audit_hash, row_dict}
use insider_threat_detection.Database.Audit.Linked.{IsSound, RowsLinked}

module _ (h : Hasher) where
  abbrev HasDigest : AuditRow → Type 0
  HasDigest r = r.record_hash ≡ audit_hash h r.prev_hash r.event_json

  linked-HasDigest : (prev : String) (rs : List AuditRow) → RowsLinked h prev rs → All HasDigest rs
  linked-HasDigest prev [] l = tt
  linked-HasDigest prev (r ∷ rs) l =
      (l.1 ∙ ap (λ x. audit_hash h x r.event_json) (sym l.0), linked-HasDigest r.record_hash rs l.2)

  served-HasDigest :
      (host : String) (limit : ℕ) (db : Db)
      → IsSound h db
      → All HasDigest (get_audit_chain host limit db)
  unfolding get_audit_chain
  served-HasDigest host limit db sound =
      All-take HasDigest limit _
        (All-sort_asc (λ r. r.id) HasDigest _ (linked-HasDigest genesis_hash _ (sound.linked host)))

  module _ (time_text : ℕ → String) (event_text : Json → String) where
    -- The served row has an `id`, the digested record has none.
    row-digest :
        (r : AuditRow)
        → r.record_hash ≡ compute_hash h (row_dict time_text event_text r)
        → HasDigest r
        → IsBroken h
    unfolding compute_hash
    row-digest r e d =
        let signed : Dict = ("prev_hash", str r.prev_hash) ∷ ("event", r.event_json) ∷ [] in
        let served : Dict = without "record_hash" (row_dict time_text event_text r) in
        collision (h.dumps signed) (h.dumps served)
          (λ p. ground (arith, h.dumps_inj signed served p "id")) (sym d ∙ e)

    rejects :
        (r : AuditRow) (rs : List AuditRow)
        → HasDigest r
        → verify_chain h (map (row_dict time_text event_text) (r ∷ rs)) ≡ some []
        → IsBroken h
    rejects r rs d v =
        let link = ((verify_chain-intact h (map (row_dict time_text event_text) (r ∷ rs))).0 v).0 in
        row-digest r (ground (arith, link.sealed)) d

    -- A chain of at least one row that the server built, served by GET /api/v1/audit, is never
    -- accepted by `verify_chain`, unless the digest is broken: the verifier hashes the served
    -- fields, the server hashed the previous hash and the event.
    pub served_chain_rejected :
        (host : String) (limit : ℕ) (db : Db)
        → IsSound h db
        → get_audit_chain host limit db ≢ []
        → verify_chain h (map (row_dict time_text event_text) (get_audit_chain host limit db))
          ≡ some []
        → IsBroken h
    served_chain_rejected host limit db sound some_row v =
        go (get_audit_chain host limit db) (served-HasDigest host limit db sound) some_row v
      where
        go :
            (rows : List AuditRow)
            → All HasDigest rows
            → rows ≢ []
            → verify_chain h (map (row_dict time_text event_text) rows) ≡ some []
            → IsBroken h
        go [] a n v = absurd (n refl)
        go (r ∷ rs) a n v = rejects r rs a.0 v
