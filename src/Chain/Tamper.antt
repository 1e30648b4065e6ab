-- ===== src/Chain/Tamper.antt =====
-- Tamper evidence: an accepted chain is determined by its last hash, unless the digest is broken.
use insider_threat_detection.Common.{String, ◌≡◌, ◌≢◌, ◌⊎◌, List, [], ◌∷◌}
use insider_threat_detection.Json.{Dict, without, sorted_get}
use insider_threat_detection.Chain.{Hasher, genesis_hash, compute_hash}
use insider_threat_detection.Chain.Spec.{IsLink}

module _ (h : Hasher) where
  open h use {Bytes, dumps, sha256_hex}

  -- Two different texts with one digest, or a text whose digest is the genesis hash.
  pub data IsBroken : Type 0 where
    collision : (a b : Bytes) → a ≢ b → sha256_hex a ≡ sha256_hex b → IsBroken
    genesis_preimage : (a : Bytes) → sha256_hex a ≡ genesis_hash → IsBroken

  abbrev IsOneOf : Dict → List Dict → Type 0
  IsOneOf x [] = ⊥
  IsOneOf x (r ∷ rs) = (x ≡ r) ⊎ IsOneOf x rs

  -- One digest of two different texts, of a record of each of two logs, or a record of them whose
  -- digest is the genesis hash.
  pub data Breaks (rs ss : List Dict) : Type 0 where
    shared_digest :
        (r s : Dict)
        → IsOneOf r rs
        → IsOneOf s ss
        → dumps (without "record_hash" r) ≢ dumps (without "record_hash" s)
        → compute_hash h r ≡ compute_hash h s
        → Breaks rs ss
    genesis_digest :
        (r : Dict) → IsOneOf r rs ⊎ IsOneOf r ss → compute_hash h r ≡ genesis_hash → Breaks rs ss

  -- The two dicts map every key to the same value, up to the order of the keys of objects in it.
  abbrev pub SameRecord : Dict → Dict → Type 0
  SameRecord r s = (k : String) → sorted_get k r ≡ sorted_get k s

  abbrev pub SameRecords : List Dict → List Dict → Type 0
  SameRecords [] [] = Unit
  SameRecords (r ∷ rs) (s ∷ ss) = SameRecord r s × SameRecords rs ss
  SameRecords _ _ = ⊥

  -- The chain, newest record first, whose last hash is `last`.
  abbrev Backwards : String → List Dict → Type 0
  Backwards last [] = last ≡ genesis_hash
  Backwards last (r ∷ older) =
      (last ≡ compute_hash h r) × ((prev : String) × IsLink h prev r × Backwards prev older)

  abbrev pub newest_first : List Dict → List Dict → List Dict
  newest_first older [] = older
  newest_first older (r ∷ rs) = newest_first (r ∷ older) rs
