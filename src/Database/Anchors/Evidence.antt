-- ===== src/Database/Anchors/Evidence.antt =====
-- Which anchors verify.
use text.Mathlib.TextLemmas.{nil-append, cons-append}
use Prim.Native.Char.{code}
use insider_threat_detection.Common.{
  String, ◌≡◌, refl, sym, ◌∙◌, ◌≢◌, ◌↔◌, inl, inr, true, false, not, ◌||◌, none, some, arith,
  eq_iff, eq_refl, nat_eq, is_empty, Bool-cases, Option-cases, is_some,
}
use insider_threat_detection.Database.Anchors.{
  Signing, sig_rsa, sig_hmac, sig_unsigned, prefixed, sign_chain_head, partition, check_digest,
  verify_anchor,
}

-- No character of the text is the separator.
abbrev NoColon : String → Type 0
NoColon String.[] = Unit {0}
NoColon (String.◌∷◌ c s) = (nat_eq (code c) b':' ≡ false) × NoColon s

partition-prefixed :
    (algorithm digest : String)
    → NoColon algorithm
    → partition (prefixed algorithm digest) ≡ (algorithm, digest)
unfolding partition
partition-prefixed String.[] digest h = rw (nil-append, cons-append) (rw nil-append)
partition-prefixed (String.◌∷◌ c s) digest h =
    rw cons-append (ground (arith, partition-prefixed s digest h.1, h.0))

NoColon-sig_rsa : NoColon sig_rsa
NoColon-sig_rsa = assumption refl

NoColon-sig_hmac : NoColon sig_hmac
NoColon-sig_hmac = assumption refl

NoColon-sig_unsigned : NoColon sig_unsigned
NoColon-sig_unsigned = assumption refl

-- What the libraries do: a signature and a MAC in hexadecimal are not empty.
pub record SigningLaws (s : Signing) : Type 0 where
  pub rsa : (m d : String) → s.rsa_sign m ≡ some d → d ≢ ""
  pub hmac : (k m : String) → s.hmac_sha256 k m ≢ ""

-- The server is set up with the certificate of its TLS key: where the key signs, the certificate is
-- there, and the signature verifies under it.
pub record HasCertificate (s : Signing) : Type 0 where
  pub matches :
      (m d : String) → s.rsa_sign m ≡ some d → (s.cert_exists ≡ true) × (s.rsa_verify m d ≡ true)

verify_anchor-prefixed :
    (s : Signing) (head algorithm digest : String)
    → NoColon algorithm
    → verify_anchor s head (prefixed algorithm digest) ≡ check_digest s head algorithm digest
unfolding verify_anchor
verify_anchor-prefixed s head algorithm digest n = rw (partition-prefixed algorithm digest n)

module _ (s : Signing) (head : String) where
  -- The server refuses to sign exactly when the TLS key cannot sign, ITDN_ANCHOR_KEY is empty and
  -- unsigned anchors are not allowed.
  pub sign_chain_head-refused :
      (sign_chain_head s head ≡ none)
      ↔ ((s.rsa_sign head ≡ none) × (s.anchor_key ≡ "") × (s.allow_unsigned_anchors ≡ false))
  unfolding sign_chain_head
  sign_chain_head-refused =
      (λ e. ground (arith, eq_iff s.anchor_key ""), λ e. ground (arith, eq_iff s.anchor_key ""))

  -- With libraries that keep their laws, and the certificate of the TLS key in place, a signature that the server gives verifies for its own
  -- hash exactly when a server-private key made it: an anchor made with the development key never
  -- does.
  pub verify_anchor-sign_chain_head :
      (sig : String)
      → SigningLaws s
      → HasCertificate s
      → sign_chain_head s head ≡ some sig
      → verify_anchor s head sig ≡ (is_some (s.rsa_sign head) || not (is_empty s.anchor_key))
  unfolding sign_chain_head
  verify_anchor-sign_chain_head sig laws certificate e = elim (Option-cases (s.rsa_sign head)) [
    | inr (d, signed) ↦
        let l = certificate.matches head d signed in
        let made : prefixed sig_rsa d ≡ sig = ground (arith, e, signed) in
        rw (← made, verify_anchor-prefixed s head sig_rsa d NoColon-sig_rsa, signed)
          (ground (arith, laws.rsa head d signed, l.0, l.1, eq_iff d ""))
    | inl unsigned ↦ elim (Bool-cases (is_empty s.anchor_key)) [
      | inl no_key ↦
          let made : prefixed sig_unsigned (s.hmac_sha256 s.fallback_key head) ≡ sig =
            ground (arith, e, unsigned) in
          rw
            (
              ← made,
              verify_anchor-prefixed s head sig_unsigned _ NoColon-sig_unsigned,
              unsigned,
              no_key,
            )
            (ground arith)
      | inr key ↦
          let made : prefixed sig_hmac (s.hmac_sha256 s.anchor_key head) ≡ sig =
            ground (arith, e, unsigned) in
          rw (← made, verify_anchor-prefixed s head sig_hmac _ NoColon-sig_hmac, unsigned, key)
            (ground (
              arith,
              eq_iff (s.hmac_sha256 s.anchor_key head) "",
              eq_refl (s.hmac_sha256 s.anchor_key head),
              laws.hmac s.anchor_key head,
            ))
    ]
  ]

  -- An anchor that verifies under the symmetric key carries exactly the MAC of the hash under it.
  pub verify_anchor-hmac_only :
      (digest : String)
      → verify_anchor s head (prefixed sig_hmac digest) ≡ true
      → (s.anchor_key ≢ "") × (digest ≡ s.hmac_sha256 s.anchor_key head)
  verify_anchor-hmac_only digest e =
      let checked : check_digest s head sig_hmac digest ≡ true =
        sym (verify_anchor-prefixed s head sig_hmac digest NoColon-sig_hmac) ∙ e in
      ground
        (arith, checked, eq_iff s.anchor_key "", eq_iff (s.hmac_sha256 s.anchor_key head) digest)
