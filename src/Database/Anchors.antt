-- ===== src/Database/Anchors.antt =====
-- _sign_chain_head, verify_anchor, insert_anchor, get_anchors
pub mod Evidence
use Prim.Native.Char.{code}
use Prim.Native.String.{◌++◌ as append}
use insider_threat_detection.Common.{
  ℕ, String, Bool, false, not, ◌&&◌, Option, none, some, List, [], ◌∷◌, ◌++◌, map, ◌==◌, nat_eq,
  if◌then◌else◌, is_empty, ◌>>=◌, take, select, sort_desc,
}
use insider_threat_detection.Database.{Env, utcnow, AnchorRow, Db}

-- The keys that the server is configured with, and what hmac, hashlib and `cryptography` do with
-- them. `rsa_sign` is `none` where the TLS key is missing or signing raises; a signature is in hex.
pub record Signing : Type 0 where
  pub rsa_sign : String → Option String
  pub cert_exists : Bool
  pub rsa_verify : String → String → Bool
  pub anchor_key : String
  pub allow_unsigned_anchors : Bool
  pub fallback_key : String
  pub hmac_sha256 : String → String → String

abbrev sig_rsa : String
sig_rsa = "rsa-sha256"

abbrev pub sig_hmac : String
sig_hmac = "hmac-sha256"

abbrev sig_unsigned : String
sig_unsigned = "unsigned-dev"

abbrev pub prefixed : String → String → String
prefixed algorithm digest = append algorithm (append ":" digest)

-- `none` is AnchorSigningError.
unfoldable pub sign_chain_head : Signing → String → Option String
sign_chain_head s chain_head_hash = elim (s.rsa_sign chain_head_hash) [
  | some signature ↦ some (prefixed sig_rsa signature)
  | none ↦
      if not (is_empty s.anchor_key)
      then some (prefixed sig_hmac (s.hmac_sha256 s.anchor_key chain_head_hash))
      else if s.allow_unsigned_anchors
      then some (prefixed sig_unsigned (s.hmac_sha256 s.fallback_key chain_head_hash))
      else none
]

-- `signature.partition(":")`, without the separator.
unfoldable pub partition : String → String × String
partition String.[] = ("", "")
partition (String.◌∷◌ c s) =
    let (before, after) = partition s in
    if nat_eq (code c) b':' then ("", s) else (String.◌∷◌ c before, after)

abbrev check_digest : Signing → String → String → String → Bool
check_digest s chain_head_hash algorithm digest =
    if is_empty digest
    then false
    else if algorithm == sig_rsa
    then s.cert_exists && s.rsa_verify chain_head_hash digest
    else if algorithm == sig_hmac
    then not (is_empty s.anchor_key) && s.hmac_sha256 s.anchor_key chain_head_hash == digest
    else false

unfoldable pub verify_anchor : Signing → String → String → Bool
unfolding partition
verify_anchor s chain_head_hash signature =
    let (algorithm, digest) = partition signature in check_digest s chain_head_hash algorithm digest

unfoldable pub insert_anchor : Signing → Env → String → String → Db → Option (String × Db)
unfolding sign_chain_head
insert_anchor s env agent_id chain_head_hash db = sign_chain_head s chain_head_hash >>= λ sig.
    some (
      sig,
      record db {
        log_anchors =
            db.log_anchors
            ++ record {
              id = env.fresh (map (λ r. r.id) db.log_anchors);
              agent_id = agent_id;
              chain_head_hash = chain_head_hash;
              anchored_at = utcnow env;
              server_signature = sig;
            }
              ∷ [];
      },
    )

unfoldable pub get_anchors : String → ℕ → Db → List AnchorRow
get_anchors agent_id limit db =
    take limit (sort_desc (λ r. r.id) (select (λ r. r.agent_id == agent_id) db.log_anchors))
