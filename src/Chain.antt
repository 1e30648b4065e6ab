-- ===== src/Chain.antt =====
-- tools/verify_chain.py: `_compute_hash` and `verify_chain` over records as dicts.
-- json.dumps with sorted keys and SHA-256 are an interface: `Bytes` is the type of encoded texts.
pub mod Spec
pub mod Tamper
use insider_threat_detection.Common.{
  ℕ, suc, String, ◌≡◌, ◌≢◌, Option, none, some, List, [], ◌∷◌, ◌++◌, ◌==◌, if◌then◌else◌, is_empty,
  ◌>>=◌,
}
use insider_threat_detection.Common.Int.{pos}
use insider_threat_detection.Json.{Json, Dict, num, get, sorted_get, without, text_or_empty}

-- What the code relies on: equal canonical texts come from mappings that are equal up to the
-- order of the keys of the objects in their values, and a digest in hexadecimal is never the empty text.
pub record Hasher : Type 1 where
  pub Bytes : Type 0
  pub Bytes_eq : Discrete Bytes
  pub dumps : Dict → Bytes
  pub sha256_hex : Bytes → String
  pub dumps_inj : (r s : Dict) → dumps r ≡ dumps s → (k : String) → sorted_get k r ≡ sorted_get k s
  pub sha256_hex-ne-empty : (b : Bytes) → sha256_hex b ≢ ""

-- `_GENESIS_HASH`: sixty-four zeros.
abbrev pub genesis_hash : String
genesis_hash = "0000000000000000000000000000000000000000000000000000000000000000"

-- The two messages that `verify_chain` appends, with the values that they show.
pub data ChainError : Type 0 where
  prev_hash_mismatch : Json → String → String → ChainError
  record_hash_mismatch : Json → String → String → ChainError

-- `record.get("id", idx)`
abbrev record_id : ℕ → Dict → Json
record_id idx record' = elim (get "id" record') [ none ↦ num (pos idx) | some v ↦ v ]

module _ (h : Hasher) where
  open h use {dumps, sha256_hex}

  unfoldable pub compute_hash : Dict → String
  compute_hash record' = sha256_hex (dumps (without "record_hash" record'))

  -- The messages about one record, in the order of the two checks.
  unfoldable pub record_errors : String → ℕ → Dict → String → String → List ChainError
  unfolding compute_hash
  record_errors prev_hash idx record' stored_prev stored_hash =
      let computed = compute_hash record' in
      (if stored_prev == prev_hash
        then []
        else prev_hash_mismatch (record_id idx record') prev_hash stored_prev ∷ [])
      ++ (if computed == stored_hash
          then []
          else record_hash_mismatch (record_id idx record') stored_hash computed ∷ [])

  -- The loop, from the expected previous hash. `none` is the TypeError of slicing a value that is
  -- no text for a message; such a value never equals a hash, so the message is always built.
  unfoldable pub verify_from : String → ℕ → List Dict → Option (List ChainError)
  unfolding record_errors
  verify_from prev_hash idx [] = some []
  verify_from prev_hash idx (record' ∷ records) =
      text_or_empty "prev_hash" record' >>= λ stored_prev.
      text_or_empty "record_hash" record' >>= λ stored_hash.
      let next = if is_empty stored_hash then prev_hash else stored_hash in
      verify_from next (suc idx) records >>= λ rest.
      some (record_errors prev_hash idx record' stored_prev stored_hash ++ rest)

  unfoldable pub verify_chain : List Dict → Option (List ChainError)
  unfolding verify_from
  verify_chain records = verify_from genesis_hash 0 records
