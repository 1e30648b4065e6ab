-- ===== src/Agent/Anchors.antt =====
-- agent/anchor_scheduler.py: the chain heads that are posted.
pub mod Posted
use insider_threat_detection.Common.{
  taken_if, dropped_if, String, ◌≡◌, sym, ap, ◌∙◌, inl, inr, Bool, true, false, not, ◌&&◌, Option,
  none, some, List, [], ◌∷◌, ◌++◌, ◌==◌, if◌then◌else◌, is_empty, Bool-cases,
}
use mathlib.Core.List.{append-nil, append_assoc}
use mathlib.Core.Option.{some_inj}
use insider_threat_detection.Json.{Dict}
use insider_threat_detection.Chain.{Hasher, genesis_hash, verify_chain}
use insider_threat_detection.Chain.Spec.{head_after, verify_chain-intact}
use insider_threat_detection.Logger.{
  Cipher, Line, Logger, open_logger, write, load_from_file, Action, write_event, restart, session,
}
use insider_threat_detection.Logger.Intact.{session-IsIntact, empty-IsIntact}
use insider_threat_detection.Verify.Gaps.{load_from_file-joined, joined-parts}

-- `none` where there is nothing to anchor yet.
unfoldable pub anchored_head : String → Option String
anchored_head chain_head =
    if not (is_empty chain_head) && not (chain_head == genesis_hash) then some chain_head else none

pub anchored_head-same :
    (chain_head head : String) → anchored_head chain_head ≡ some head → chain_head ≡ head
unfolding anchored_head
anchored_head-same chain_head head e =
    elim (Bool-cases (not (is_empty chain_head) && not (chain_head == genesis_hash))) [
      | inl real ↦ some_inj.0 (sym (taken_if _ chain_head real) ∙ e)
      | inr none_yet ↦ let gone = dropped_if _ chain_head none_yet in cc
    ]

module _ (c : Cipher) where
  abbrev pub posted : Option String → List String → List String
  posted none later = later
  posted (some head) later = head ∷ later

  -- The heads that `_loop` posts: for each wait, whether the stop event is set after it, and the
  -- logger as it is then.
  unfoldable pub anchor_loop : List (Bool × Logger c) → List String
  unfolding anchored_head
  anchor_loop [] = []
  anchor_loop ((stopped, l) ∷ rounds) =
      let later = anchor_loop rounds in
      if stopped then [] else posted (anchored_head l.prev_hash) later

module _ (c : Cipher) (h : Hasher) (key : Option c.Key) where
  session-file :
      (actions : List (Action c h)) (l : Logger c)
      → (extra : List (Line c)) × ((session c h key actions l).file ≡ l.file ++ extra)
  unfolding session write open_logger
  session-file [] l = ([], sym (append-nil l.file))
  session-file (write_event nonce true event ∷ actions) l =
      let (extra, e) = session-file actions (write c h key nonce true event l).1 in
      (_, e ∙ append_assoc l.file _ extra)
  session-file (write_event nonce false event ∷ actions) l = session-file actions l
  session-file (restart ∷ actions) l = session-file actions (open_logger c key l.file)

  -- The head that is anchored at some time in the life of a log that started empty, over writes,
  -- failed writes and restarts, is the head of the records that the log had then, and whatever of
  -- these happens later, the log still begins with those records and verifies as a whole.
  pub anchored_head-session :
      (earlier later : List (Action c h)) (head : String)
      → let l = session c h key earlier (open_logger c key []) in
        anchored_head l.prev_hash ≡ some head
        → (records : List Dict) × (more : List Dict) × (head_after h genesis_hash records ≡ head)
          × (load_from_file c key (session c h key later l).file ≡ some (records ++ more))
          × (verify_chain h (records ++ more) ≡ some [])
  anchored_head-session earlier later head anchored =
      let l = session c h key earlier (open_logger c key []) in
      let i = session-IsIntact c h key earlier (open_logger c key []) (empty-IsIntact c h key) in
      let j = session-IsIntact c h key later l i in
      let (extra, appended) = session-file later l in
      let (as', bs, first_part, last_part, all_parts) =
        joined-parts (load_from_file c key l.file) (load_from_file c key extra) j.records (
          sym (load_from_file-joined c key l.file extra)
          ∙ ap (load_from_file c key) (sym appended)
          ∙ j.loads) in
      let same = some_inj.0 (sym i.loads ∙ first_part) in
      (
        as',
        bs,
        ap (head_after h genesis_hash) (sym same)
            ∙ i.head
            ∙ anchored_head-same l.prev_hash head anchored,
        rw (← all_parts) j.loads,
        rw (← all_parts) ((verify_chain-intact h j.records).1 j.chain),
      )
