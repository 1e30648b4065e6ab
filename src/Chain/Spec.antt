-- ===== src/Chain/Spec.antt =====
-- When `verify_chain` accepts: the records are linked from the genesis hash, each with the digest
-- of its other fields.
use insider_threat_detection.Common.{
  ℕ, suc, String, ◌≡◌, refl, sym, ap, ◌∙◌, ◌≢◌, ◌↔◌, some, List, [], ◌∷◌, ◌++◌, arith, eq_iff,
  eq_refl, if◌then◌else◌, is_empty, >>=-eq-some, ==-false_of_ne,
}
use insider_threat_detection.Json.{Dict, str, get, without, text_or_empty}
use insider_threat_detection.Chain.{
  Hasher, ChainError, genesis_hash, compute_hash, record_errors, verify_from, verify_chain,
}

append-eq-nil {ℓ} : {A : Type ℓ} (xs ys : List A) → xs ++ ys ≡ [] → (xs ≡ []) × (ys ≡ [])
append-eq-nil [] ys e = (refl, e)
append-eq-nil (x ∷ xs) ys e = cc

module _ (h : Hasher) where
  -- A record that follows the hash `prev`.
  pub record IsLink (prev : String) (r : Dict) : Type 0 where
    pub linked : text_or_empty "prev_hash" r ≡ some prev
    pub sealed : get "record_hash" r ≡ some (str (compute_hash h r))

  abbrev pub Linked : String → List Dict → Type 0
  Linked prev [] = Unit
  Linked prev (r ∷ rs) = IsLink prev r × Linked (compute_hash h r) rs

  -- The hash of the last record.
  abbrev pub head_after : String → List Dict → String
  head_after prev [] = prev
  head_after prev (r ∷ rs) = head_after (compute_hash h r) rs

  compute_hash-ne-empty : (r : Dict) → compute_hash h r ≢ ""
  unfolding compute_hash
  compute_hash-ne-empty r = h.sha256_hex-ne-empty (h.dumps (without "record_hash" r))

  verify_complete :
      (prev : String) (idx : ℕ) (rs : List Dict)
      → Linked prev rs
      → verify_from h prev idx rs ≡ some []
  unfolding verify_from
  verify_complete prev idx [] l = refl
  verify_complete prev idx (r ∷ rs) (s, l) =
      rw (s.linked, s.sealed)
        (rw (==-false_of_ne _ _ (compute_hash-ne-empty r), eq_refl)
          (rw (verify_complete (compute_hash h r) (suc idx) rs l, eq_refl) refl))

  record_errors-eq-nil :
      (prev : String) (idx : ℕ) (r : Dict) (p s : String)
      → record_errors h prev idx r p s ≡ []
      → (p ≡ prev) × (compute_hash h r ≡ s)
  unfolding record_errors
  record_errors-eq-nil prev idx r p s e = ground (arith, eq_iff p prev, eq_iff (compute_hash h r) s)

  text-of-nonempty :
      (k : String) (r : Dict) (s : String)
      → text_or_empty k r ≡ some s
      → s ≢ ""
      → get k r ≡ some (str s)
  text-of-nonempty k r s e n = ground arith

  verify_from-cons :
      (prev : String) (idx : ℕ) (r : Dict) (rs : List Dict)
      → verify_from h prev idx (r ∷ rs) ≡ some []
      → IsLink prev r × (verify_from h (compute_hash h r) (suc idx) rs ≡ some [])
  unfolding verify_from
  verify_from-cons prev idx r rs e =
      let (p, hp, e1) = >>=-eq-some (text_or_empty "prev_hash" r) _ e in
      let (s, hs, e2) = >>=-eq-some (text_or_empty "record_hash" r) _ e1 in
      let (rest, hr, e3) =
        >>=-eq-some (verify_from h (if is_empty s then prev else s) (suc idx) rs) _ e2 in
      finish p s rest hp hs hr (ground (arith, e3))
    where
      finish :
          (p s : String) (rest : List ChainError)
          → text_or_empty "prev_hash" r ≡ some p
          → text_or_empty "record_hash" r ≡ some s
          → verify_from h (if is_empty s then prev else s) (suc idx) rs ≡ some rest
          → record_errors h prev idx r p s ++ rest ≡ []
          → IsLink prev r × (verify_from h (compute_hash h r) (suc idx) rs ≡ some [])
      finish p s rest hp hs hr e =
          let parts = append-eq-nil (record_errors h prev idx r p s) rest e in
          let ok = record_errors-eq-nil prev idx r p s parts.0 in
          let full : s ≢ "" = λ q. compute_hash-ne-empty r (ok.1 ∙ q) in
          let link : IsLink prev r = record {
            linked = rw (← ok.0) hp;
            sealed = text-of-nonempty "record_hash" r s hs full ∙ ap (λ x. some (str x)) (sym ok.1);
          } in
          let seen : verify_from h s (suc idx) rs ≡ some rest =
            rw (==-false_of_ne s "" full) at hr in
          (link, rw ok.1 (seen ∙ ap some parts.1))

  verify_sound :
      (prev : String) (idx : ℕ) (rs : List Dict)
      → verify_from h prev idx rs ≡ some []
      → Linked prev rs
  unfolding verify_from
  verify_sound prev idx [] e = tt
  verify_sound prev idx (r ∷ rs) e =
      let (l, e') = verify_from-cons prev idx r rs e in
      (l, verify_sound (compute_hash h r) (suc idx) rs e')

  -- `verify_chain` reports nothing exactly when every record names the hash of the record before
  -- it, the first one the genesis hash, and carries the digest of its own other fields.
  pub verify_chain-intact :
      (rs : List Dict) → (verify_chain h rs ≡ some []) ↔ Linked genesis_hash rs
  unfolding verify_chain
  verify_chain-intact rs = (verify_sound genesis_hash 0 rs, verify_complete genesis_hash 0 rs)
