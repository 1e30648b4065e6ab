-- ===== src/Examples/Chains.antt =====
-- The chain theorems at logs of the toy hash.
use insider_threat_detection.Common.{◌≡◌, refl, ◌≢◌, ◌↔◌, true, false, some, List, [], ◌∷◌, map}
use insider_threat_detection.Json.{Dict, str}
use insider_threat_detection.Chain.{genesis_hash, verify_chain}
use insider_threat_detection.Chain.Spec.{Linked, head_after, verify_chain-intact}
use insider_threat_detection.Chain.Tamper.{IsBroken}
use insider_threat_detection.Logger.{
  new_record, Action, write_event, restart, load_from_file, open_logger, session,
}
use insider_threat_detection.Logger.Intact.{session-verifies}
use insider_threat_detection.Database.{Db, empty_db}
use insider_threat_detection.Database.Audit.{
  append_audit_record, audit_row, audit_hash, get_audit_chain, row_dict, tail_server_hash,
}
use insider_threat_detection.Database.Audit.Linked.{IsSound, append_audit_record-IsSound}
use insider_threat_detection.Database.Audit.Served.{served_chain_rejected}
use insider_threat_detection.Examples.Data.{toy_hasher, toy_cipher, at, at-IsFresh}

abbrev log : List Dict
log = new_record toy_cipher toy_hasher genesis_hash (str "plug") ∷ []

verify_chain-intact_example :
    (verify_chain toy_hasher log ≡ some []) ↔ Linked toy_hasher genesis_hash log
verify_chain-intact_example = verify_chain-intact toy_hasher log

-- The toy hash reads the previous hash only, so another event has the same one.
abbrev other_log : List Dict
other_log = new_record toy_cipher toy_hasher genesis_hash (str "pull") ∷ []

abbrev pub actions : List (Action toy_cipher toy_hasher)
actions =
    write_event 7 true (str "plug")
    ∷ write_event 8 false (str "lost")
    ∷ restart
    ∷ write_event 9 true (str "pull")
    ∷ []

session-verifies_example :
    let l = session toy_cipher toy_hasher (some 5) actions (open_logger toy_cipher (some 5) []) in
    (records : List Dict) × (load_from_file toy_cipher (some 5) l.file ≡ some records)
    × (verify_chain toy_hasher records ≡ some [])
    × (head_after toy_hasher genesis_hash records ≡ l.prev_hash)
session-verifies_example = session-verifies toy_cipher toy_hasher (some 5) actions

pub empty-IsSound : IsSound toy_hasher empty_db
empty-IsSound = record { growing = tt; linked = λ host. tt }

abbrev one_row : Db
one_row = (append_audit_record toy_hasher (at 10) "desk-1" (str "plug") empty_db).1

one_row-IsSound : IsSound toy_hasher one_row
one_row-IsSound =
    append_audit_record-IsSound toy_hasher (at 10) "desk-1" (str "plug") empty_db (at-IsFresh 10)
      empty-IsSound

served-some : get_audit_chain "desk-1" 500 one_row ≢ []
unfolding append_audit_record audit_row get_audit_chain tail_server_hash
served-some = λ e. cc

served-accepted :
    verify_chain toy_hasher
      (map (row_dict (λ t. "now") (λ j. "plug")) (get_audit_chain "desk-1" 500 one_row))
    ≡ some []
unfolding append_audit_record audit_row audit_hash get_audit_chain tail_server_hash row_dict
    verify_chain
served-accepted = refl

-- The toy hash ignores the rest of a record, so it is broken.
served_chain_rejected_example : IsBroken toy_hasher
served_chain_rejected_example =
    served_chain_rejected toy_hasher (λ t. "now") (λ j. "plug") "desk-1" 500 one_row one_row-IsSound
      served-some served-accepted
