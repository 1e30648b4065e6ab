-- ===== src/Migrations/Startup.antt =====
-- What the start of the server does to a database, however often and over whatever it finds.
use insider_threat_detection.Common.{
  String, ◌≡◌, refl, ap, ◌∙◌, inl, inr, true, false, Option, none, some, List, [], ◌∷◌, arith,
  eq_refl, if◌then◌else◌, Bool-cases, All, or_else,
}
use insider_threat_detection.Migrations.Metadata.{Table, metadata_tables}
use insider_threat_detection.Migrations.{
  Catalog, has_table, added, create_missing, stamp_alembic_head, init_db,
}

pub create_missing_new :
    (t : Table) (ts : List Table) (d : Catalog)
    → has_table t.name d.tables ≡ false
    → create_missing (t ∷ ts) d ≡ create_missing ts (added t d)
create_missing_new t ts d missing = ap (λ b. create_missing ts (if b then d else added t d)) missing

create_missing_known :
    (t : Table) (ts : List Table) (d : Catalog)
    → has_table t.name d.tables ≡ true
    → create_missing (t ∷ ts) d ≡ create_missing ts d
create_missing_known t ts d known = ap (λ b. create_missing ts (if b then d else added t d)) known

has_created :
    (name : String) (ts : List Table) (d : Catalog)
    → has_table name d.tables ≡ true
    → has_table name (create_missing ts d).tables ≡ true
has_created name [] d there = there
has_created name (t ∷ ts) d there = elim (Bool-cases (has_table t.name d.tables)) [
  | inl known ↦
      ap (λ e. has_table name e.tables) (create_missing_known t ts d known)
      ∙ has_created name ts d there
  | inr missing ↦
      ap (λ e. has_table name e.tables) (create_missing_new t ts d missing)
      ∙ has_created name ts (added t d) (ground (arith, there))
]

-- The tables are all there.
abbrev IsCreated : List Table → Catalog → Type 0
IsCreated ts d = All (λ t. has_table t.name d.tables ≡ true) ts

IsCreated-same : (ts : List Table) (d e : Catalog) → d ≡ e → IsCreated ts e → IsCreated ts d
IsCreated-same ts d e same there = rw same there

create_missing-All : (ts : List Table) (d : Catalog) → IsCreated ts (create_missing ts d)
create_missing-All [] d = tt
create_missing-All (t ∷ ts) d = elim (Bool-cases (has_table t.name d.tables)) [
  | inl known ↦
      IsCreated-same (t ∷ ts) _ _ (create_missing_known t ts d known)
        (has_created t.name ts d known, create_missing-All ts d)
  | inr missing ↦ IsCreated-same (t ∷ ts) _ _ (create_missing_new t ts d missing) (
    has_created t.name ts (added t d) (ground (arith, eq_refl t.name)),
    create_missing-All ts (added t d),
  )
]

create_missing_same :
    (ts : List Table) (d : Catalog)
    → All (λ t. has_table t.name d.tables ≡ true) ts
    → create_missing ts d ≡ d
create_missing_same [] d there = refl
create_missing_same (t ∷ ts) d there =
    create_missing_known t ts d there.0 ∙ create_missing_same ts d there.1

create_missing-revision :
    (ts : List Table) (d : Catalog) → (create_missing ts d).revision ≡ d.revision
create_missing-revision [] d = refl
create_missing-revision (t ∷ ts) d = elim (Bool-cases (has_table t.name d.tables)) [
  | inl known ↦
      ap (λ e. e.revision) (create_missing_known t ts d known) ∙ create_missing-revision ts d
  | inr missing ↦
      ap (λ e. e.revision) (create_missing_new t ts d missing)
      ∙ create_missing-revision ts (added t d)
]

or_else-none : (o : Option String) → o ≡ or_else o none
or_else-none none = refl
or_else-none (some x) = refl

or_else_twice :
    (o : Option String) (x : String) → or_else (or_else o (some x)) (some x) ≡ or_else o (some x)
or_else_twice none x = refl
or_else_twice (some y) x = refl

stamp-tables : (head : Option String) (d : Catalog) → (stamp_alembic_head head d).tables ≡ d.tables
unfolding stamp_alembic_head
stamp-tables none d = refl
stamp-tables (some head) d = refl

stamp-stamp :
    (head : Option String) (d : Catalog)
    → stamp_alembic_head head (stamp_alembic_head head d) ≡ stamp_alembic_head head d
unfolding stamp_alembic_head
stamp-stamp none d = refl
stamp-stamp (some head) d = ap (λ o. record d { revision = o }) (or_else_twice d.revision head)

stamp-revision :
    (head : Option String) (d : Catalog)
    → (stamp_alembic_head head d).revision ≡ or_else d.revision head
unfolding stamp_alembic_head
stamp-revision none d = or_else-none d.revision
stamp-revision (some head) d = refl

stamped-All :
    (ts : List Table) (head : Option String) (d : Catalog)
    → All (λ t. has_table t.name (stamp_alembic_head head (create_missing ts d)).tables ≡ true) ts
stamped-All ts head d = rw (stamp-tables head (create_missing ts d)) (create_missing-All ts d)

-- After `init_db` every declared table is there, a second `init_db` changes nothing, and a revision
-- that the database was marked with is still its revision.
pub init_db-idempotent :
    (head : Option String) (d : Catalog)
    → All (λ t. has_table t.name (init_db head d).tables ≡ true) metadata_tables
      × (init_db head (init_db head d) ≡ init_db head d)
      × ((init_db head d).revision ≡ or_else d.revision head)
unfolding init_db
init_db-idempotent head d = (
  stamped-All metadata_tables head d,
  ap (stamp_alembic_head head) (
        create_missing_same metadata_tables
          (stamp_alembic_head head (create_missing metadata_tables d))
          (stamped-All metadata_tables head d))
      ∙ stamp-stamp head (create_missing metadata_tables d),
  stamp-revision head (create_missing metadata_tables d)
      ∙ ap (λ o. or_else o head) (create_missing-revision metadata_tables d),
)
