-- ===== src/Examples/Exit.antt =====
-- The verifier's exit status and the anchors of a log at concrete runs.
use insider_threat_detection.Common.{
  String, ◌≡◌, refl, true, false, none, some, List, [], ◌∷◌, ◌++◌,
}
use insider_threat_detection.Json.{Dict, str}
use insider_threat_detection.Chain.{genesis_hash, verify_chain}
use insider_threat_detection.Chain.Spec.{head_after}
use insider_threat_detection.Logger.{
  Decrypted, malformed, plain, new_record, decrypt_record, load_from_file, Action, write_event,
  restart, open_logger, session, write,
}
use insider_threat_detection.Agent.Anchors.{anchored_head, anchored_head-session}
use insider_threat_detection.Logger.Keys.{bad_key, decrypt_with}
use insider_threat_detection.Verify.{
  FileLine, log_line, file, server, Args, Anchor, World, load_records, anchor_failures, main,
}
use insider_threat_detection.Verify.Gaps.{holding, main_overwritten-tail}
use insider_threat_detection.Examples.Data.{toy_hasher, toy_cipher}

abbrev log_record : Dict
log_record = new_record toy_cipher toy_hasher genesis_hash (str "plug")

abbrev lines : List (FileLine toy_cipher)
lines = log_line (plain log_record) ∷ []

abbrev world : World toy_cipher
world = record {
  log_key = bad_key;
  log_lines = some (lines ++ log_line malformed ∷ []);
  served_records = some [];
  served_anchors = none;
  server_modules = none;
}

abbrev args : Args
args = record { source = file; hostname = ""; anchors = false; verify_anchors = false }

abbrev remote_args : Args
remote_args = record {
  source = server;
  hostname = "desk-1";
  anchors = false;
  verify_anchors = true;
}

abbrev anchor : String → Anchor
anchor signature = record { chain_head_hash = "h"; server_signature = signature }

abbrev five : List Anchor
five = anchor "a" ∷ anchor "b" ∷ anchor "c" ∷ anchor "d" ∷ anchor "e" ∷ []

abbrev next_record : Dict
next_record =
    new_record toy_cipher toy_hasher
      "h0000000000000000000000000000000000000000000000000000000000000000" (str "pull")

whole-passes :
    main toy_cipher toy_hasher args
      (holding toy_cipher toy_hasher world (lines ++ log_line (plain next_record) ∷ []))
    ≡ 0
unfolding main load_records decrypt_with decrypt_record verify_chain new_record anchor_failures
whole-passes = refl

garbage-skipped : decrypt_with toy_cipher bad_key malformed ≡ Decrypted.value_error
unfolding decrypt_with decrypt_record
garbage-skipped = refl

main_overwritten-tail_example :
    main toy_cipher toy_hasher args
      (holding toy_cipher toy_hasher world (lines ++ log_line malformed ∷ []))
    ≡ 0
main_overwritten-tail_example =
    main_overwritten-tail toy_cipher toy_hasher args world lines (log_line (plain next_record))
      malformed refl garbage-skipped whole-passes

abbrev earlier : List (Action toy_cipher toy_hasher)
earlier = write_event 7 true (str "plug") ∷ []

abbrev later : List (Action toy_cipher toy_hasher)
later = restart ∷ write_event 8 true (str "pull") ∷ []

earlier-anchored :
    anchored_head
      (session toy_cipher toy_hasher
        (some 5)
        earlier
        (open_logger toy_cipher (some 5) [])).prev_hash
    ≡ some (String.◌∷◌ "h" genesis_hash)
unfolding anchored_head session write open_logger
earlier-anchored = refl

anchored_head-session_example :
    (records : List Dict) × (more : List Dict) × (head_after toy_hasher genesis_hash records
      ≡ String.◌∷◌ "h" genesis_hash)
    × (load_from_file toy_cipher
          (some 5)
          (session toy_cipher toy_hasher (some 5) later (
            session toy_cipher toy_hasher
              (some 5)
              earlier
              (open_logger toy_cipher (some 5) []))).file
        ≡ some (records ++ more))
    × (verify_chain toy_hasher (records ++ more) ≡ some [])
anchored_head-session_example =
    anchored_head-session toy_cipher toy_hasher (some 5) earlier later (String.◌∷◌ "h" genesis_hash)
      earlier-anchored
