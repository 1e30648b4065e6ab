-- ===== src/Verify/Gaps.antt =====
-- Changes that the exit status does not show.
use mathlib.Core.List.{append-nil, cons≢nil, cons-eq-cons}
use insider_threat_detection.Common.{
  String, ◌≡◌, refl, sym, ap, ◌∙◌, ◌≢◌, Bool, true, not, ◌&&◌, ◌||◌, Option, none, some, List, [],
  ◌∷◌, ◌++◌, map, if◌then◌else◌, is_empty, length, take, select, false≢true,
}
use insider_threat_detection.Json.{Dict}
use insider_threat_detection.Chain.{Hasher, genesis_hash, compute_hash}
use insider_threat_detection.Chain.Spec.{Linked}
use insider_threat_detection.Logger.{
  Cipher, Line, blank, malformed, plain, envelope, Decrypted, decrypted, value_error, runtime_error,
  decrypt_record, keep, load_line, load_from_file,
}
use insider_threat_detection.Database.Anchors.{Signing}
use insider_threat_detection.Logger.Keys.{KeyResult, decrypt_with}
use insider_threat_detection.Verify
use insider_threat_detection.Verify.{
  FileLine, log_line, no_object, load_file, keep_record, Source, file, server, Args, Anchor, World,
  show_anchors, load_records, anchor_failures, anchor_status, is_valid, is_server, main,
}
use insider_threat_detection.Verify.Exit.{main-zero}

take-append-length {ℓ} :
    {A : Type ℓ} (xs ys : List A) → take (length xs) (xs ++ ys) ≡ take (length xs) xs
take-append-length [] ys = refl
take-append-length (x ∷ xs) ys = ap (λ zs. x ∷ zs) (take-append-length xs ys)

take_five : (five more : List Anchor) → length five ≡ 5 → take 5 (five ++ more) ≡ take 5 five
take_five five more n = rw (← n) (take-append-length five more)

show_anchors-take :
    (modules : Option Signing) (verify : Bool) (xs ys : List Anchor)
    → take 5 xs ≡ take 5 ys
    → show_anchors modules verify (some xs) ≡ show_anchors modules verify (some ys)
unfolding show_anchors
show_anchors-take modules verify xs ys e =
    ap
      (λ zs.
        if verify then length (select (λ a. not (is_valid (anchor_status modules a))) zs) else 0)
      e

module _ (c : Cipher) (h : Hasher) (args : Args) (w : World c) where
  abbrev pub serving : List Anchor → World c
  serving anchors = record w { served_anchors = some anchors }

  load_records-serving :
      (anchors : List Anchor)
      → load_records c h args.source (serving anchors) ≡ load_records c h args.source w
  unfolding load_records
  load_records-serving anchors =
      elim args.source as (λ s. load_records c h s (serving anchors) ≡ load_records c h s w) [
        | file ↦ refl
        | server ↦ refl
      ]

  failures_after-fifth :
      (five more : List Anchor)
      → length five ≡ 5
      → anchor_failures c h args (serving (five ++ more)) ≡ anchor_failures c h args (serving five)
  unfolding anchor_failures
  failures_after-fifth five more n =
      ap
        (λ failures.
          if (args.anchors || args.verify_anchors)
            && is_server args.source
            && not (is_empty args.hostname)
          then failures
          else 0)
        (show_anchors-take w.server_modules args.verify_anchors (five ++ more) five
          (take_five five more n))

  -- Anchors after the fifth have no part in the exit status, also where --verify-anchors asks for a
  -- check of each.
  pub main_after-fifth :
      (five more : List Anchor)
      → length five ≡ 5
      → main c h args (serving (five ++ more)) ≡ main c h args (serving five)
  unfolding main
  main_after-fifth five more n =
      rw
        (
          failures_after-fifth five more n,
          load_records-serving (five ++ more),
          load_records-serving five,
        )
        refl

file-is_server : (source : Source) → source ≡ file → is_server source ≢ true
file-is_server source local s = false≢true (sym (ap is_server local) ∙ s)

abbrev pub joined : {A : Type 0} → Option (List A) → Option (List A) → Option (List A)
joined none b = none
joined (some as') none = none
joined (some as') (some bs) = some (as' ++ bs)

joined_nil : {A : Type 0} (b : Option (List A)) → b ≡ joined (some []) b
joined_nil none = refl
joined_nil (some bs) = refl

pub joined-parts :
    {A : Type 0} (a b : Option (List A)) (records : List A)
    → joined a b ≡ some records
    → (as' : List A) × (bs : List A) × (a ≡ some as') × (b ≡ some bs) × (records ≡ as' ++ bs)
joined-parts none b records e = cc
joined-parts (some as') none records e = cc
joined-parts (some as') (some bs) records e = (as', bs, refl, refl, cc)

module _ (c : Cipher) (key : Option c.Key) where
  keep-joined :
      (d : Decrypted c) (a b : Option (List Dict)) → keep c d (joined a b) ≡ joined (keep c d a) b
  keep-joined (decrypted d) none b = refl
  keep-joined (decrypted d) (some as') none = refl
  keep-joined (decrypted d) (some as') (some bs) = refl
  keep-joined value_error a b = refl
  keep-joined runtime_error a b = refl

  load_line-joined :
      (line : Line c) (a b : Option (List Dict))
      → load_line c key line (joined a b) ≡ joined (load_line c key line a) b
  unfolding load_line
  load_line-joined blank a b = refl
  load_line-joined malformed a b = keep-joined (decrypt_record c key malformed) a b
  load_line-joined (plain d) a b = keep-joined (decrypt_record c key (plain d)) a b
  load_line-joined (envelope s) a b = keep-joined (decrypt_record c key (envelope s)) a b

  pub load_from_file-joined :
      (xs ys : List (Line c))
      → load_from_file c key (xs ++ ys) ≡ joined (load_from_file c key xs) (load_from_file c key ys)
  unfolding load_from_file
  load_from_file-joined [] ys = joined_nil (load_from_file c key ys)
  load_from_file-joined (line ∷ xs) ys =
      rw (load_from_file-joined xs ys)
        (load_line-joined line (load_from_file c key xs) (load_from_file c key ys))

module _ (c : Cipher) (h : Hasher) where
  Linked-prefix :
      (prev : String) (as' bs : List Dict) → Linked h prev (as' ++ bs) → Linked h prev as'
  Linked-prefix prev [] bs l = tt
  Linked-prefix prev (r ∷ as') bs l = (l.0, Linked-prefix (compute_hash h r) as' bs l.1)

  abbrev pub holding : World c → List (FileLine c) → World c
  holding w lines = record w { log_lines = some lines }

  keep_record-joined :
      (d : Decrypted c) (a b : Option (List (Option Dict)))
      → keep_record c h d (joined a b) ≡ joined (keep_record c h d a) b
  keep_record-joined (decrypted d) none b = refl
  keep_record-joined (decrypted d) (some as') none = refl
  keep_record-joined (decrypted d) (some as') (some bs) = refl
  keep_record-joined value_error a b = refl
  keep_record-joined runtime_error a b = refl

  module _ (key : KeyResult c) where
    file_line-joined :
        (line : FileLine c) (a b : Option (List (Option Dict)))
        → Verify.load_line c h key line (joined a b) ≡ joined (Verify.load_line c h key line a) b
    file_line-joined no_object none b = refl
    file_line-joined no_object (some as') none = refl
    file_line-joined no_object (some as') (some bs) = refl
    file_line-joined (log_line blank) a b = refl
    file_line-joined (log_line malformed) a b =
        keep_record-joined (decrypt_with c key malformed) a b
    file_line-joined (log_line (plain d)) a b =
        keep_record-joined (decrypt_with c key (plain d)) a b
    file_line-joined (log_line (envelope s)) a b =
        keep_record-joined (decrypt_with c key (envelope s)) a b

    load_file-joined :
        (xs ys : List (FileLine c))
        → load_file c h key (xs ++ ys) ≡ joined (load_file c h key xs) (load_file c h key ys)
    unfolding load_file
    load_file-joined [] ys = joined_nil (load_file c h key ys)
    load_file-joined (line ∷ xs) ys =
        rw (load_file-joined xs ys)
          (file_line-joined line (load_file c h key xs) (load_file c h key ys))

    unreadable-load :
        (line : Line c)
        → decrypt_with c key line ≡ value_error
        → load_file c h key (log_line line ∷ []) ≡ some []
    unfolding load_file
    unreadable-load blank e = refl
    unreadable-load malformed e = ap (λ d. keep_record c h d (some [])) e
    unreadable-load (plain d) e = ap (λ d'. keep_record c h d' (some [])) e
    unreadable-load (envelope s) e = ap (λ d. keep_record c h d (some [])) e

    first_only :
        (lines : List (FileLine c)) (garbage : Line c) (as' : List (Option Dict))
        → load_file c h key lines ≡ some as'
        → decrypt_with c key garbage ≡ value_error
        → load_file c h key (lines ++ log_line garbage ∷ []) ≡ some as'
    first_only lines garbage as' first_part skipped =
        rw
          (
            load_file-joined lines (log_line garbage ∷ []),
            first_part,
            unreadable-load garbage skipped,
            append-nil as',
          )
          refl

  load_records-file :
      (source : Source) (lines : List (FileLine c)) (w : World c)
      → source ≡ file
      → load_records c h source (holding w lines) ≡ load_file c h w.log_key lines
  unfolding load_records
  load_records-file source lines w local = rw local refl

  -- The records before some part of a list are objects as well.
  objects-append :
      (rs : List Dict) (as' bs : List (Option Dict))
      → map some rs ≡ as' ++ bs
      → (first : List Dict) × (rest : List Dict) × (as' ≡ map some first) × (rs ≡ first ++ rest)
  objects-append rs [] bs e = ([], rs, refl, refl)
  objects-append [] (a ∷ as') bs e = absurd (cons≢nil (sym e))
  objects-append (r ∷ rs) (a ∷ as') bs e =
      let (same, later) = cons-eq-cons.0 e in
      let (first, rest, parts, all_parts) = objects-append rs as' bs later in
      (r ∷ first, rest, rw (← same, parts) refl, ap (λ xs. r ∷ xs) all_parts)

  -- A log file that passes, read with --file, still passes when its last line is overwritten with
  -- one that decrypt_record refuses with a ValueError, whatever the key, a malformed one included.
  pub main_overwritten-tail :
      (args : Args) (w : World c) (lines : List (FileLine c)) (last' : FileLine c)
      (garbage : Line c)
      → args.source ≡ file
      → decrypt_with c w.log_key garbage ≡ value_error
      → main c h args (holding w (lines ++ last' ∷ [])) ≡ 0
      → main c h args (holding w (lines ++ log_line garbage ∷ [])) ≡ 0
  main_overwritten-tail args w lines last' garbage local skipped passes =
      let clean = (main-zero c h args (holding w (lines ++ last' ∷ []))).0 passes in
      let (as', bs, first_part, last_part, all_parts) =
        joined-parts (load_file c h w.log_key lines) (load_file c h w.log_key (last' ∷ []))
          (map some clean.records)
          (sym (load_file-joined w.log_key lines (last' ∷ []))
            ∙ sym (load_records-file args.source (lines ++ last' ∷ []) w local)
            ∙ clean.loaded) in
      let (first, rest, as_objects, in_two) = objects-append clean.records as' bs all_parts in
      (main-zero c h args (holding w (lines ++ log_line garbage ∷ []))).1 (record {
        addressed = clean.addressed;
        records = first;
        loaded =
            load_records-file args.source (lines ++ log_line garbage ∷ []) w local
            ∙ first_only w.log_key lines garbage as' first_part skipped
            ∙ ap some as_objects;
        linked = Linked-prefix genesis_hash first rest (rw (← in_two) clean.linked);
        anchored = λ s. absurd (file-is_server args.source local s);
      })
