-- ===== src/Examples/Kept.antt =====
-- What is kept: the records in a log with a malformed key, and the rows that a purge leaves.
use text.Mathlib.TextLemmas.{cons≢nil}
use insider_threat_detection.Common.{
  ℕ, String, ◌≡◌, refl, inl, inr, Option, none, some, List, [], ◌∷◌, arith, All, Bool-cases, select,
  ◌==◌,
}
use insider_threat_detection.Json.{Json, str}
use insider_threat_detection.Chain.{Hasher, genesis_hash}
use insider_threat_detection.Logger.{open_logger, session}
use insider_threat_detection.Logger.Keys.{KeyReading, get_key, write_key, IsPlain, session-clear}
use insider_threat_detection.Database.{Env, AuditRow, Db, empty_db}
use insider_threat_detection.Database.Events.{insert_event, get_recent_events}
use insider_threat_detection.Database.Audit.{of_host, audit_hash}
use insider_threat_detection.Database.Audit.Linked.{RowsLinked, IsSound}
use insider_threat_detection.Database.Retention.{purge_old_records}
use insider_threat_detection.Database.Retention.Chains.{purge_old_records-unlinked}
use insider_threat_detection.Database.Retention.Worker.{retention_worker, retention_worker-recent}
use insider_threat_detection.Examples.Data.{toy_hasher, toy_cipher, at, plugged}
use insider_threat_detection.Examples.Chains.{actions}

abbrev key_reading : KeyReading toy_cipher
key_reading = record { strip = λ s. s; fromhex = λ s. some 5 }

session-clear_example :
    let key = write_key toy_cipher (get_key toy_cipher key_reading (some "00ff")) in
    All
      (IsPlain toy_cipher)
      (session toy_cipher toy_hasher key actions (open_logger toy_cipher key [])).file
session-clear_example =
    session-clear toy_cipher toy_hasher key_reading (some "00ff") actions refl refl

abbrev one_event : Db
one_event = (insert_event (at 40000) (plugged "a:b") empty_db).1

-- A purge, one that raises, and another.
abbrev rounds : List (Option Env)
rounds = some (at 39000) ∷ none ∷ some (at 41000) ∷ []

retention_worker-recent_example :
    get_recent_events (at 41000) "desk-1" 3600 (retention_worker 1 rounds one_event)
    ≡ get_recent_events (at 41000) "desk-1" 3600 one_event
retention_worker-recent_example =
    retention_worker-recent (at 41000) 1 3600 "desk-1" rounds one_event
      (omega arith, (omega arith, tt)) (omega arith)

-- A digest that is the genesis hash for every text.
abbrev constant_hasher : Hasher
constant_hasher = record toy_hasher {
  sha256_hex = λ d. genesis_hash;
  sha256_hex-ne-empty = λ d. cons≢nil;
}

abbrev row : ℕ → ℕ → AuditRow
row id recorded_at = record {
  id = id;
  recorded_at = recorded_at;
  hostname = "desk-1";
  prev_hash = genesis_hash;
  event_json = str "plug";
  record_hash = genesis_hash;
}

abbrev two_rows : Db
two_rows = record empty_db { audit_chain = row 1 5 ∷ row 2 100000 ∷ [] }

rows-linked :
    (host : String)
    → RowsLinked constant_hasher genesis_hash (select (of_host host) two_rows.audit_chain)
rows-linked host = elim (Bool-cases ("desk-1" == host)) [
  | inl e ↦ rw e (refl, refl, (refl, refl, tt))
  | inr e ↦ rw e tt
]

two_rows-IsSound : IsSound constant_hasher two_rows
two_rows-IsSound = record { growing = ((omega arith, tt), (tt, tt)); linked = rows-linked }

left-linked :
    RowsLinked constant_hasher genesis_hash
      (select (of_host "desk-1") (purge_old_records (at 100000) 1 two_rows).1.audit_chain)
unfolding purge_old_records
left-linked = (refl, refl, tt)

-- The digest is broken: it is the genesis hash.
purge_old_records-unlinked_example :
    (before : String) × (event : Json) × (audit_hash constant_hasher before event ≡ genesis_hash)
purge_old_records-unlinked_example =
    purge_old_records-unlinked constant_hasher (at 100000) 1 "desk-1" two_rows (row 1 5)
      (row 2 100000) [] [] two_rows-IsSound refl refl refl left-linked
