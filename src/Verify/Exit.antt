-- ===== src/Verify/Exit.antt =====
-- What an exit with status 0 says, and what it does not say.
use mathlib.Core.Option.{some_inj}
use insider_threat_detection.Common.{
  ℕ, zero, suc, ◌≡◌, refl, sym, ap, ◌∙◌, map, >>=-eq-some, ◌↔◌, inl, inr, true, false, not, ◌&&◌,
  Option, none, some, List, [], ◌∷◌, arith, ◌==◌, is_empty, Bool-cases, Option-cases, eq_of_==,
  length, take, select, All,
}
use insider_threat_detection.Json.{Dict}
use insider_threat_detection.Chain.{Hasher, ChainError, genesis_hash}
use insider_threat_detection.Chain.Spec.{Linked, verify_chain-intact}
use insider_threat_detection.Logger.{Cipher}
use insider_threat_detection.Database.Anchors.{Signing, partition, verify_anchor}
use insider_threat_detection.Verify.{
  Args, Anchor, World, anchor_status, is_valid, show_anchors, load_records, is_server,
  anchor_failures, objects, chain_errors, status_of, status_after, main,
}

-- The server's key material confirms the anchor's signature.
pub record IsGenuine (modules : Option Signing) (a : Anchor) : Type 0 where
  pub signing : Signing
  pub imported : modules ≡ some signing
  pub verified : verify_anchor signing a.chain_head_hash a.server_signature ≡ true

unsigned-invalid :
    (s : Signing) (a : Anchor)
    → ((partition a.server_signature).0 == "unsigned-dev") ≡ true
    → verify_anchor s a.chain_head_hash a.server_signature ≡ false
unfolding verify_anchor
unsigned-invalid s a e = rw (eq_of_== _ _ e) (ground arith)

is_valid-IsGenuine :
    (modules : Option Signing) (a : Anchor)
    → is_valid (anchor_status modules a) ≡ true
    → IsGenuine modules a
unfolding anchor_status
is_valid-IsGenuine none a v = absurd (ground (arith, v))
is_valid-IsGenuine (some s) a v = record {
  signing = s;
  imported = refl;
  verified = ground (arith, v);
}

genuine-is_valid :
    (s : Signing) (a : Anchor)
    → verify_anchor s a.chain_head_hash a.server_signature ≡ true
    → is_valid (anchor_status (some s) a) ≡ true
unfolding anchor_status
genuine-is_valid s a v = ground (arith, v, unsigned-invalid s a)

IsGenuine-is_valid :
    (modules : Option Signing) (a : Anchor)
    → IsGenuine modules a
    → is_valid (anchor_status modules a) ≡ true
IsGenuine-is_valid modules a g = rw g.imported (genuine-is_valid g.signing a g.verified)

module _ (modules : Option Signing) where
  All-IsGenuine :
      (anchors : List Anchor)
      → length (select (λ a. not (is_valid (anchor_status modules a))) anchors) ≡ 0
      → All (IsGenuine modules) anchors
  All-IsGenuine [] z = tt
  All-IsGenuine (a ∷ anchors) z = elim (Bool-cases (is_valid (anchor_status modules a))) [
    | inl v ↦ (is_valid-IsGenuine modules a v, All-IsGenuine anchors (ground (arith, z, v)))
    | inr v ↦ absurd (ground (arith, z, v))
  ]

  no_failures :
      (anchors : List Anchor)
      → All (IsGenuine modules) anchors
      → length (select (λ a. not (is_valid (anchor_status modules a))) anchors) ≡ 0
  no_failures [] g = refl
  no_failures (a ∷ anchors) g = rw (IsGenuine-is_valid modules a g.0) (no_failures anchors g.1)

module _ (c : Cipher) (h : Hasher) where
  -- What the tool has checked when it ends with status 0.
  pub record IsClean (args : Args) (w : World c) : Type 0 where
    pub addressed : (is_server args.source && is_empty args.hostname) ≡ false
    pub records : List Dict
    pub loaded : load_records c h args.source w ≡ some (map some records)
    pub linked : Linked h genesis_hash records
    pub anchored :
        is_server args.source ≡ true
        → args.verify_anchors ≡ true
        → (anchors : List Anchor) → w.served_anchors ≡ some anchors
        → All (IsGenuine w.server_modules) (take 5 anchors)

  objects-map-some : (rs : List Dict) → objects c h (map some rs) ≡ some rs
  objects-map-some [] = refl
  objects-map-some (r ∷ rs) = rw (objects-map-some rs) refl

  objects-eq-some :
      (records : List (Option Dict)) (rs : List Dict)
      → objects c h records ≡ some rs
      → records ≡ map some rs
  objects-eq-some [] rs e = rw (← some_inj.0 e) refl
  objects-eq-some (none ∷ records) rs e = cc
  objects-eq-some (some r ∷ records) rs e =
      let (later, found, e1) = >>=-eq-some (objects c h records) _ e in
      rw (← some_inj.0 e1) (ap (λ os. some r ∷ os) (objects-eq-some records later found))

  chain_errors-Linked :
      (rs : List Dict) → Linked h genesis_hash rs → chain_errors c h (map some rs) ≡ some []
  chain_errors-Linked [] l = refl
  chain_errors-Linked (r ∷ rs) l = rw (objects-map-some rs) ((verify_chain-intact h (r ∷ rs)).1 l)

  -- Without an error all records are objects, and each links to the one before it.
  chain_errors-intact :
      (records : List (Option Dict))
      → chain_errors c h records ≡ some []
      → (rs : List Dict) × (records ≡ map some rs) × Linked h genesis_hash rs
  chain_errors-intact [] e = ([], refl, tt)
  chain_errors-intact (r ∷ records) e =
      let (rs, found, intact) = >>=-eq-some (objects c h (r ∷ records)) _ e in
      (rs, objects-eq-some (r ∷ records) rs found, (verify_chain-intact h rs).0 intact)

  status_of-zero :
      (o : Option (List ChainError)) (n : ℕ) → status_of c h o n ≡ 0 → (o ≡ some []) × (n ≡ 0)
  status_of-zero none n e = cc
  status_of-zero (some (x ∷ xs)) n e = cc
  status_of-zero (some []) zero e = (refl, refl)
  status_of-zero (some []) (suc n) e = cc

  status_after-zero :
      (o : Option (List (Option Dict))) (n : ℕ)
      → status_after c h o n ≡ 0
      → (records : List (Option Dict)) × (o ≡ some records)
        × (chain_errors c h records ≡ some [])
        × (n ≡ 0)
  status_after-zero none n e = cc
  status_after-zero (some records) n e =
      let z = status_of-zero (chain_errors c h records) n e in (records, refl, z.0, z.1)

  main-exit :
      (args : Args) (w : World c)
      → main c h args w ≡ 0
      → ((is_server args.source && is_empty args.hostname) ≡ false)
        × (status_after c h (load_records c h args.source w) (anchor_failures c h args w) ≡ 0)
  unfolding main
  main-exit args w e = elim (Bool-cases (is_server args.source && is_empty args.hostname)) [
    | inl missing ↦ absurd (ground (arith, e, missing))
    | inr ok ↦ (ok, ground (arith, e, ok))
  ]

  failures-genuine :
      (args : Args) (w : World c) (anchors : List Anchor)
      → (is_server args.source && is_empty args.hostname) ≡ false
      → is_server args.source ≡ true
      → args.verify_anchors ≡ true
      → w.served_anchors ≡ some anchors
      → anchor_failures c h args w
        ≡ length (select (λ a. not (is_valid (anchor_status w.server_modules a))) (take 5 anchors))
  unfolding anchor_failures show_anchors
  failures-genuine args w anchors ok s v f = rw f (ground (arith, ok, s, v))

  no_failures-main : (args : Args) (w : World c) → IsClean args w → anchor_failures c h args w ≡ 0
  unfolding anchor_failures show_anchors
  no_failures-main args w clean = elim (Option-cases w.served_anchors) [
    | inl lost ↦ rw lost (ground arith)
    | inr (anchors, found) ↦ elim (Bool-cases args.verify_anchors) [
      | inr no_check ↦ rw (found, no_check) (ground arith)
      | inl check ↦ elim (Bool-cases (is_server args.source)) [
        | inr local ↦ rw (local, check) (ground arith)
        | inl remote ↦
            rw (found, check)
              (ground (
                arith,
                no_failures w.server_modules (take 5 anchors)
                    (clean.anchored remote check anchors found),
              ))
      ]
    ]
  ]

  clean_exit : (args : Args) (w : World c) → IsClean args w → main c h args w ≡ 0
  unfolding main
  clean_exit args w clean =
      rw
        (
          clean.addressed,
          clean.loaded,
          chain_errors-Linked clean.records clean.linked,
          no_failures-main args w clean,
        )
        refl

  pub main-zero : (args : Args) (w : World c) → (main c h args w ≡ 0) ↔ IsClean args w
  main-zero args w = (
    λ e.
        let (ok, rest) = main-exit args w e in
        let (found, loaded, intact, none_failed) = status_after-zero _ _ rest in
        let (records, all_objects, linked) = chain_errors-intact found intact in
        record {
          addressed = ok;
          records = records;
          loaded = loaded ∙ ap some all_objects;
          linked = linked;
          anchored = λ s v anchors f.
              All-IsGenuine w.server_modules (take 5 anchors)
                (sym (failures-genuine args w anchors ok s v f) ∙ none_failed);
        },
    λ clean. clean_exit args w clean,
  )
