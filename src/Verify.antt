-- ===== src/Verify.antt =====
-- tools/verify_chain.py: `main` and the display of the anchors, up to the exit status.
pub mod Exit
pub mod Gaps
pub mod Unread
use insider_threat_detection.Common.{
  ℕ, zero, suc, String, Bool, true, false, not, ◌&&◌, ◌||◌, Option, none, some, List, [], ◌∷◌, ◌==◌,
  if◌then◌else◌, is_empty, ◌>>=◌, length, take, select,
}
use insider_threat_detection.Json.{Dict}
use insider_threat_detection.Chain.{Hasher, ChainError, verify_chain}
use insider_threat_detection.Logger.{
  Cipher, Line, blank, Decrypted, decrypted, value_error, runtime_error,
}
use insider_threat_detection.Logger.Keys.{KeyResult, decrypt_with}
use insider_threat_detection.Database.Anchors.{Signing, partition, verify_anchor}

-- argparse asks for exactly one of --file and --server; an absent --hostname is "".
pub data Source : Type 0 where
  file : Source
  server : Source

pub record Args : Type 0 where
  pub source : Source
  pub hostname : String
  pub anchors : Bool
  pub verify_anchors : Bool

pub record Anchor : Type 0 where
  pub chain_head_hash : String
  pub server_signature : String

-- A line of the log file: one that the logger's reader knows, or JSON that is no object. An envelope
-- with a field that is no text, on which `fromhex` raises TypeError, is left out.
pub data FileLine (c : Cipher) : Type 0 where
  log_line : Line c → FileLine c
  no_object : FileLine c

-- What the tool finds outside: the log's lines (`none` where the file cannot be opened) and the key
-- for them, which may be malformed, the replies of the server (`none` where a request fails; a record that is `none` is no object), and the settings of
-- server.database, where that can be imported.
pub record World (c : Cipher) : Type 0 where
  pub log_key : KeyResult c
  pub log_lines : Option (List (FileLine c))
  pub served_records : Option (List (Option Dict))
  pub served_anchors : Option (List Anchor)
  pub server_modules : Option Signing

pub data AnchorStatus : Type 0 where
  unsigned unverified valid invalid : AnchorStatus

abbrev checked_status : Option Signing → Anchor → AnchorStatus
checked_status none a = unverified
checked_status (some s) a =
    if verify_anchor s a.chain_head_hash a.server_signature then valid else invalid

unfoldable pub anchor_status : Option Signing → Anchor → AnchorStatus
unfolding partition
anchor_status modules a =
    if (partition a.server_signature).0 == "unsigned-dev"
    then unsigned
    else checked_status modules a

abbrev pub is_valid : AnchorStatus → Bool
is_valid valid = true
is_valid _ = false

-- The failures among the anchors that are shown, the first five.
unfoldable pub show_anchors : Option Signing → Bool → Option (List Anchor) → ℕ
unfolding anchor_status
show_anchors modules verify none = 0
show_anchors modules verify (some anchors) =
    if verify
    then length (select (λ a. not (is_valid (anchor_status modules a))) (take 5 anchors))
    else 0

abbrev pub is_server : Source → Bool
is_server file = false
is_server server = true

module _ (c : Cipher) (h : Hasher) where
  -- What is kept of a line: its record, nothing on a ValueError, and an exit with status 2 on a
  -- RuntimeError.
  abbrev pub keep_record : Decrypted c → Option (List (Option Dict)) → Option (List (Option Dict))
  keep_record (decrypted d) rest = rest >>= λ records. some (some d ∷ records)
  keep_record value_error rest = rest
  keep_record runtime_error rest = none

  abbrev pub load_line :
      KeyResult c → FileLine c → Option (List (Option Dict)) → Option (List (Option Dict))
  load_line key no_object rest = rest >>= λ records. some (none ∷ records)
  load_line key (log_line blank) rest = rest
  load_line key (log_line line) rest = keep_record (decrypt_with c key line) rest

  -- `_load_from_file`: a record that is `none` is JSON that is no object.
  unfoldable pub load_file : KeyResult c → List (FileLine c) → Option (List (Option Dict))
  load_file key [] = some []
  load_file key (line ∷ lines) = load_line key line (load_file key lines)

  -- `none` is an exit with status 2.
  unfoldable pub load_records : Source → World c → Option (List (Option Dict))
  unfolding load_file
  load_records file w = w.log_lines >>= λ lines. load_file w.log_key lines
  load_records server w = w.served_records

  unfoldable pub anchor_failures : Args → World c → ℕ
  unfolding show_anchors
  anchor_failures args w =
      if (args.anchors || args.verify_anchors)
        && is_server args.source
        && not (is_empty args.hostname)
      then show_anchors w.server_modules args.verify_anchors w.served_anchors
      else 0

  -- The records, where all of them are objects.
  abbrev pub objects : List (Option Dict) → Option (List Dict)
  objects [] = some []
  objects (none ∷ records) = none
  objects (some r ∷ records) = objects records >>= λ rs. some (r ∷ rs)

  -- `verify_chain` is not called on an empty list. An exception that escapes ends with status 1; on
  -- a record that is no object `record.get` raises one.
  abbrev chain_errors : List (Option Dict) → Option (List ChainError)
  chain_errors [] = some []
  chain_errors (r ∷ records) = objects (r ∷ records) >>= λ rs. verify_chain h rs

  abbrev pub status_of : Option (List ChainError) → ℕ → ℕ
  status_of none failures = 1
  status_of (some (error ∷ errors)) failures = 1
  status_of (some []) zero = 0
  status_of (some []) (suc failures) = 1

  abbrev status_after : Option (List (Option Dict)) → ℕ → ℕ
  status_after none failures = 2
  status_after (some records) failures = status_of (chain_errors records) failures

  unfoldable pub main : Args → World c → ℕ
  unfolding load_records anchor_failures
  main args w =
      if is_server args.source && is_empty args.hostname
      then 2
      else status_after (load_records args.source w) (anchor_failures args w)
