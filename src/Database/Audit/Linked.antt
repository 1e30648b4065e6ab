-- ===== src/Database/Audit/Linked.antt =====
-- Each host's rows form a chain from the genesis hash, and every append keeps it so.
use mathlib.Core.List.{append-nil}
use insider_threat_detection.Common.{
  ℕ, ◌<◌, String, ◌≡◌, refl, ap, ◌∙◌, ◌≢◌, inl, inr, Bool, Option, none, some, List, [], ◌∷◌, ◌++◌,
  map, arith, ◌==◌, Bool-cases, Option-cases, eq_of_==, select, any, All, first, or_else,
  first-insert_desc, select-append, All-append, All-select, sort_desc,
}
use insider_threat_detection.Json.{Json}
use insider_threat_detection.Chain.{Hasher, genesis_hash}
use insider_threat_detection.Database.{Env, AuditRow, Db}
use insider_threat_detection.Database.Audit.{
  of_host, hash_or_genesis, tail_server_hash, audit_hash, audit_row, append_audit_record,
}

-- The engine never gives a new row a key that is not above those of the table.
abbrev pub IsFresh : Env → Type 0
IsFresh env = (ids : List ℕ) → All (λ i. i < env.fresh ids) ids

abbrev pub IsGrowing : List AuditRow → Type 0
IsGrowing [] = Unit {0}
IsGrowing (r ∷ rs) = All (λ s. r.id < s.id) rs × IsGrowing rs

module _ (h : Hasher) where
  abbrev pub RowsLinked : String → List AuditRow → Type 0
  RowsLinked prev [] = Unit {0}
  RowsLinked prev (r ∷ rs) =
      (r.prev_hash ≡ prev)
      × (r.record_hash ≡ audit_hash h prev r.event_json)
      × RowsLinked r.record_hash rs

  pub record IsSound (db : Db) : Type 0 where
    pub growing : IsGrowing db.audit_chain
    pub linked : (host : String) → RowsLinked genesis_hash (select (of_host host) db.audit_chain)

abbrev pub last_hash : String → List AuditRow → String
last_hash prev [] = prev
last_hash prev (r ∷ rs) = last_hash r.record_hash rs

IsGrowing-select :
    (p : AuditRow → Bool) (rs : List AuditRow) → IsGrowing rs → IsGrowing (select p rs)
IsGrowing-select p [] g = tt
IsGrowing-select p (r ∷ rs) g =
    ground (arith, All-select (λ s. r.id < s.id) p rs g.0, IsGrowing-select p rs g.1)

-- The last row, as an option.
abbrev last : List AuditRow → Option AuditRow
last [] = none
last (r ∷ rs) = or_else (last rs) (some r)

last-above :
    (n : ℕ) (rs : List AuditRow) (z : AuditRow)
    → All (λ s. n < s.id) rs
    → last rs ≡ some z
    → n < z.id
last-above n [] z h e = cc
last-above n (r ∷ rs) z h e = ground (arith, last-above n rs z h.1)

last-none : (r : AuditRow) (rs : List AuditRow) → last (r ∷ rs) ≢ none
last-none r [] e = cc
last-none r (s ∷ rs) e = ground (arith, last-none s rs)

nil_of_last-none : (rs : List AuditRow) → last rs ≡ none → rs ≡ []
nil_of_last-none [] e = refl
nil_of_last-none (r ∷ rs) e = absurd (last-none r rs e)

hash_or_else :
    (r s : AuditRow) (rs : List AuditRow)
    → hash_or_genesis (last (r ∷ s ∷ rs)) ≡ hash_or_genesis (last (s ∷ rs))
hash_or_else r s rs = ground (arith, last-none s rs)

first-growing : (rs : List AuditRow) → IsGrowing rs → first (sort_desc (λ r. r.id) rs) ≡ last rs
first-growing [] g = refl
first-growing (r ∷ rs) g = elim (Option-cases (last rs)) [
  | inl e ↦ rw (nil_of_last-none rs e)
  | inr (z, e) ↦
      rw e (
        first-insert_desc (λ r. r.id) r z _ (first-growing rs g.1 ∙ e) (last-above r.id rs z g.0 e))
]

hash-last :
    (r : AuditRow) (rs : List AuditRow)
    → hash_or_genesis (last (r ∷ rs)) ≡ last_hash r.record_hash rs
hash-last r [] = refl
hash-last r (s ∷ rs) = hash_or_else r s rs ∙ hash-last s rs

hash_of_last : (rs : List AuditRow) → hash_or_genesis (last rs) ≡ last_hash genesis_hash rs
hash_of_last [] = refl
hash_of_last (r ∷ rs) = hash-last r rs

tail_server_hash-last :
    (host : String) (db : Db)
    → IsGrowing db.audit_chain
    → tail_server_hash host db ≡ last_hash genesis_hash (select (of_host host) db.audit_chain)
unfolding tail_server_hash
tail_server_hash-last host db g =
    rw (first-growing _ (IsGrowing-select (of_host host) db.audit_chain g))
      (hash_of_last (select (of_host host) db.audit_chain))

IsGrowing-append :
    (rs : List AuditRow) (r : AuditRow)
    → IsGrowing rs
    → All (λ s. s.id < r.id) rs
    → IsGrowing (rs ++ r ∷ [])
IsGrowing-append [] r g a = (tt, tt)
IsGrowing-append (s ∷ rs) r g a =
    (All-append (λ x. s.id < x.id) rs (r ∷ []) g.0 (a.0, tt), IsGrowing-append rs r g.1 a.1)

All-ids :
    (n : ℕ) (rs : List AuditRow) → All (λ i. i < n) (map (λ r. r.id) rs) → All (λ s. s.id < n) rs
All-ids n [] a = tt
All-ids n (r ∷ rs) a = (a.0, All-ids n rs a.1)

module _ (h : Hasher) where
  RowsLinked-append :
      (prev : String) (rs : List AuditRow) (r : AuditRow)
      → RowsLinked h prev rs
      → r.prev_hash ≡ last_hash prev rs
      → r.record_hash ≡ audit_hash h r.prev_hash r.event_json
      → RowsLinked h prev (rs ++ r ∷ [])
  RowsLinked-append prev [] r l p q = (p, q ∙ ap (λ x. audit_hash h x r.event_json) p, tt)
  RowsLinked-append prev (s ∷ rs) r l p q = (l.0, l.1, RowsLinked-append s.record_hash rs r l.2 p q)

  module _ (env : Env) (host : String) (event : Json) (db : Db) where
    added-linked :
        (other : String)
        → IsSound h db
        → RowsLinked h genesis_hash
            (select (of_host other) (db.audit_chain ++ audit_row h env host event db ∷ []))
    unfolding audit_row
    added-linked other sound = rw select-append (elim (Bool-cases (host == other)) [
      | inl here ↦ rw here (
          RowsLinked-append genesis_hash (select (of_host other) db.audit_chain) _
            (sound.linked other)
            (rw (eq_of_== host other here) (tail_server_hash-last other db sound.growing)) refl)
      | inr there ↦ rw (there, append-nil) (sound.linked other)
    ])

    -- If the chains of all hosts are linked from the genesis hash, each row with the digest of its
    -- previous hash and its event, they are so after an event is appended, if the key of the new
    -- row is above those of the table.
    pub append_audit_record-IsSound :
        IsFresh env → IsSound h db → IsSound h (append_audit_record h env host event db).1
    unfolding append_audit_record
    append_audit_record-IsSound fresh sound =
        elim (Bool-cases (
          any (λ r. r.record_hash == (audit_row h env host event db).record_hash) db.audit_chain)) [
            | inl known ↦ rw known sound
            | inr new ↦ rw new (record {
              growing =
                  IsGrowing-append db.audit_chain _ sound.growing
                    (All-ids _ db.audit_chain (fresh (map (λ r. r.id) db.audit_chain)));
              linked = λ other. added-linked other sound;
            })
          ]
