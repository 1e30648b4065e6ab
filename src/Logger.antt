-- ===== src/Logger.antt =====
-- agent/logger.py (LocalAuditLogger), agent/crypto.py (encrypt_record, decrypt_record) and the
-- `_load_from_file` of tools/verify_chain.py.
pub mod Intact
pub mod Keys
use insider_threat_detection.Common.{
  ℕ, String, ◌≡◌, refl, Bool, Option, none, some, List, [], ◌∷◌, ◌++◌, if◌then◌else◌, ◌>>=◌,
}
use insider_threat_detection.Json.{Json, Dict, str, get}
use insider_threat_detection.Chain.{Hasher, genesis_hash}

-- AES-256-GCM of the `cryptography` package, with the nonce and the record that a call is given:
-- a sealed record opens again under its key.
pub record Cipher : Type 1 where
  pub Key : Type 0
  pub Sealed : Type 0
  pub seal : Key → ℕ → Dict → Sealed
  pub unseal : Key → Sealed → Option Dict
  pub unseal-seal : (k : Key) (nonce : ℕ) (d : Dict) → unseal k (seal k nonce d) ≡ some d

module _ (c : Cipher) where
  open c use {Key, Sealed, seal, unseal}

  -- A line of the log file, as `json.loads` reads it. A plain record has no `"v": 1`.
  pub data Line : Type 0 where
    blank : Line
    malformed : Line
    plain : Dict → Line
    envelope : Sealed → Line

  -- ValueError and RuntimeError of `decrypt_record`
  pub data Decrypted : Type 0 where
    decrypted : Dict → Decrypted
    value_error : Decrypted
    runtime_error : Decrypted

  abbrev opened : Option Dict → Decrypted
  opened none = value_error
  opened (some d) = decrypted d

  -- The key is `none` when ITDN_LOG_KEY is empty.
  unfoldable pub decrypt_record : Option Key → Line → Decrypted
  decrypt_record key blank = value_error
  decrypt_record key malformed = value_error
  decrypt_record key (plain d) = decrypted d
  decrypt_record none (envelope s) = runtime_error
  decrypt_record (some k) (envelope s) = opened (unseal k s)

  -- `encrypt_record` under a key, `json.dumps` without.
  unfoldable pub encode_record : Option Key → ℕ → Dict → Line
  encode_record none nonce record' = plain record'
  encode_record (some k) nonce record' = envelope (seal k nonce record')

  pub decrypt-encode :
      (key : Option Key) (nonce : ℕ) (d : Dict)
      → decrypt_record key (encode_record key nonce d) ≡ decrypted d
  unfolding decrypt_record encode_record
  decrypt-encode none nonce d = refl
  decrypt-encode (some k) nonce d = rw c.unseal-seal

  pub record Logger : Type 0 where
    pub prev_hash : String
    -- LOCAL_LOG_FILE, oldest line first; a file that does not exist is empty
    pub file : List Line

  -- The last line that is not blank.
  unfoldable pub last_line : Option Line → List Line → Option Line
  last_line found [] = found
  last_line found (blank ∷ lines) = last_line found lines
  last_line found (line ∷ lines) = last_line (some line) lines

  -- `record.get("record_hash", _GENESIS_HASH)`, or the handler's genesis hash. A `record_hash`
  -- that is no text, which no writer produces, counts as the genesis hash too.
  abbrev text_or_genesis : Option Json → String
  text_or_genesis (some (str s)) = s
  text_or_genesis _ = genesis_hash

  abbrev tail_hash : Decrypted → String
  tail_hash (decrypted d) = text_or_genesis (get "record_hash" d)
  tail_hash _ = genesis_hash

  abbrev tail_of : Option Key → Option Line → String
  tail_of key none = genesis_hash
  tail_of key (some line) = tail_hash (decrypt_record key line)

  unfoldable pub load_tail_hash : Option Key → List Line → String
  unfolding decrypt_record last_line
  load_tail_hash key file = tail_of key (last_line none file)

  -- The constructor: a logger over the file that an earlier run left.
  unfoldable pub open_logger : Option Key → List Line → Logger
  unfolding load_tail_hash
  open_logger key file = record { prev_hash = load_tail_hash key file; file = file }

  module _ (h : Hasher) where
    unfoldable pub new_record : String → Json → Dict
    new_record prev_hash event =
        let record' : Dict = ("prev_hash", str prev_hash) ∷ ("event", event) ∷ [] in
        record' ++ ("record_hash", str (h.sha256_hex (h.dumps record'))) ∷ []

    abbrev pub new_hash : String → Json → String
    new_hash prev_hash event =
        h.sha256_hex (h.dumps (("prev_hash", str prev_hash) ∷ ("event", event) ∷ []))

    -- `write`: `none` is the OSError that is raised again, with the logger as it was.
    unfoldable pub write : Option Key → ℕ → Bool → Json → Logger → Option String × Logger
    unfolding new_record encode_record
    write key nonce disk_ok event l =
        if disk_ok
        then (
          some (new_hash l.prev_hash event),
          record {
            prev_hash = new_hash l.prev_hash event;
            file = l.file ++ encode_record key nonce (new_record l.prev_hash event) ∷ [];
          },
        )
        else (none, l)

  -- One turn of the loop of `_load_from_file`, given what the later lines load as: a blank line
  -- and one that cannot be read are skipped, and `none` is the exit with status 2.
  abbrev pub keep : Decrypted → Option (List Dict) → Option (List Dict)
  keep (decrypted d) rest = rest >>= λ records. some (d ∷ records)
  keep value_error rest = rest
  keep runtime_error rest = none

  unfoldable pub load_line : Option Key → Line → Option (List Dict) → Option (List Dict)
  unfolding decrypt_record
  load_line key blank rest = rest
  load_line key line rest = keep (decrypt_record key line) rest

  unfoldable pub load_from_file : Option Key → List Line → Option (List Dict)
  unfolding load_line
  load_from_file key [] = some []
  load_from_file key (line ∷ lines) = load_line key line (load_from_file key lines)

module _ (c : Cipher) (h : Hasher) where
  -- What happens to a log over the agent's runs: an event is written (with the nonce that is drawn
  -- and whether the disk takes the line), or the agent starts again over the file.
  pub data Action : Type 0 where
    write_event : ℕ → Bool → Json → Action
    restart : Action

  unfoldable pub session : Option c.Key → List Action → Logger c → Logger c
  unfolding write open_logger
  session key [] l = l
  session key (write_event nonce disk_ok event ∷ actions) l =
      session key actions (write c h key nonce disk_ok event l).1
  session key (restart ∷ actions) l = session key actions (open_logger c key l.file)
