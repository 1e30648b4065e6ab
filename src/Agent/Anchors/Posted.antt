-- ===== src/Agent/Anchors/Posted.antt =====
-- agent/anchor_scheduler.py against POST /api/v1/anchor of server/routers/anchor.py: what the heads that
-- the scheduler posts become on the server.
use mathlib.Core.List.{append-nil, append_assoc, map-append}
use insider_threat_detection.Common.{
  String, ◌≡◌, refl, sym, ap, ◌∙◌, ◌≢◌, inl, inr, Bool, true, false, Option, none, some, List, [],
  ◌∷◌, ◌++◌, map, arith, if◌then◌else◌, Option-cases, ==-false_of_ne, All, All-append,
}
use insider_threat_detection.Auth.{Outcome, handled, get_caller_role, require_api_key}
use insider_threat_detection.Logger.{Cipher, Logger}
use insider_threat_detection.Agent.Keyless.{agent_request, IsKeyed, agent_request-unauthorized}
use insider_threat_detection.Agent.Anchors.{anchored_head, anchored_head-same, anchor_loop}
use insider_threat_detection.Database.{Env, AnchorRow}
use insider_threat_detection.Database.Anchors.{sign_chain_head, verify_anchor, insert_anchor}
use insider_threat_detection.Database.Anchors.Evidence.{
  SigningLaws, HasCertificate, sign_chain_head-refused, verify_anchor-sign_chain_head,
}
use insider_threat_detection.Routes.{
  Service, Backend, Reply, anchored, anchoring, handle, run_anchor, anchor_chain,
}
use insider_threat_detection.Routes.Guards.{require_api_key-known}

-- `resp.status == 200`
abbrev pub is_anchored : Outcome Reply → Bool
is_anchored (handled (anchored signature at)) = true
is_anchored _ = false

module _ (b : Backend) (agent_id : String) (address : Option String) where
  unfoldable pub post_anchor : Env → String → Service → Bool × Service
  unfolding anchor_chain
  post_anchor env chain_head st =
      let (reply, after) =
        handle b env (agent_request address) (anchoring (some (agent_id, chain_head))) st in
      (is_anchored reply, after)

  module _ (c : Cipher) where
    abbrev pub post_if : Env → Option String → Service → Service
    post_if env none st = st
    post_if env (some head) st = (post_anchor env head st).1

    -- The rounds of `_loop`, each with the server's clock and keys when its request comes in. The
    -- answer is only logged.
    unfoldable pub anchor_rounds : List (Env × (Bool × Logger c)) → Service → Service
    unfolding anchored_head post_anchor
    anchor_rounds [] st = st
    anchor_rounds ((env, (stopped, l)) ∷ rounds) st =
        let rest = anchor_rounds rounds (post_if env (anchored_head l.prev_hash) st) in
        if stopped then st else rest

    abbrev pub loggers : List (Env × (Bool × Logger c)) → List (Bool × Logger c)
    loggers = map (λ round. round.1)

  -- The server's own check accepts the row, and the row is the agent's.
  abbrev pub IsEvidence : AnchorRow → Type 0
  IsEvidence r =
      (verify_anchor b.signing r.chain_head_hash r.server_signature ≡ true)
      × (r.agent_id ≡ agent_id)

  -- The table has grown by rows for these heads, in this order, each of which is evidence.
  pub record HasAnchored (heads : List String) (before after : List AnchorRow) : Type 0 where
    pub rows : List AnchorRow
    pub grown : after ≡ before ++ rows
    pub of_heads : map (λ r. r.chain_head_hash) rows ≡ heads
    pub evidence : All IsEvidence rows

  HasAnchored-nil : (rows : List AnchorRow) → HasAnchored [] rows rows
  HasAnchored-nil rows = record {
    rows = [];
    grown = sym (append-nil rows);
    of_heads = refl;
    evidence = tt;
  }

  HasAnchored-cons :
      (head : String) (heads : List String) (first between last : List AnchorRow)
      → HasAnchored (head ∷ []) first between
      → HasAnchored heads between last
      → HasAnchored (head ∷ heads) first last
  HasAnchored-cons head heads first between last a z = record {
    rows = a.rows ++ z.rows;
    grown = z.grown ∙ ap (λ rs. rs ++ z.rows) a.grown ∙ append_assoc first a.rows z.rows;
    of_heads =
        map-append (λ r. r.chain_head_hash) a.rows z.rows
        ∙ ap (λ hs. hs ++ map (λ r. r.chain_head_hash) z.rows) a.of_heads
        ∙ ap (λ hs. head ∷ hs) z.of_heads;
    evidence = All-append IsEvidence a.rows z.rows a.evidence z.evidence;
  }

  module _ (role : String) (laws : SigningLaws b.signing) (certificate : HasCertificate b.signing)
      (private_key : b.signing.anchor_key ≢ "") (given : agent_id ≢ "")
      (known : get_caller_role b.settings (agent_request address) ≡ some role) where
    post_anchor-runs :
        (env : Env) (head : String) (st : Service)
        → (post_anchor env head st).1 ≡ (run_anchor b env (some (agent_id, head)) st).1
    unfolding post_anchor anchor_chain
    post_anchor-runs env head st =
        ap (λ p. p.1)
          (require_api_key-known b env (agent_request address) role
            (run_anchor b env (some (agent_id, head))) st known)

    verifies :
        (head sig : String)
        → sign_chain_head b.signing head ≡ some sig
        → verify_anchor b.signing head sig ≡ true
    verifies head sig signed =
        verify_anchor-sign_chain_head b.signing head sig laws certificate signed
        ∙ rw (==-false_of_ne b.signing.anchor_key "" private_key) (ground arith)

    HasAnchored-run_anchor :
        (env : Env) (head : String) (st : Service)
        → head ≢ ""
        → HasAnchored
            (head ∷ [])
            st.db.log_anchors
            (run_anchor b env (some (agent_id, head)) st).1.db.log_anchors
    unfolding run_anchor insert_anchor
    HasAnchored-run_anchor env head st n = elim (Option-cases (sign_chain_head b.signing head)) [
      | inl refused ↦ absurd (private_key ((sign_chain_head-refused b.signing head).0 refused).1)
      | inr (sig, signed) ↦
          rw (==-false_of_ne agent_id "" given, ==-false_of_ne head "" n, signed)
            (record {
              rows = _;
              grown = refl;
              of_heads = refl;
              evidence = ((verifies head sig signed, refl), tt);
            })
    ]

    anchored_head-ne-empty :
        (chain_head head : String) → anchored_head chain_head ≡ some head → head ≢ ""
    unfolding anchored_head
    anchored_head-ne-empty chain_head head e empty =
        let none_yet = rw (anchored_head-same chain_head head e ∙ empty) at e in cc

    -- If each signature of the server's TLS key, where it has one, verifies under the certificate that
    -- it has, and the server takes the agent's requests, whoever it says they come from, and has a
    -- symmetric key for anchors, each chain head that the scheduler posts, in the order of its rounds and up to
    -- the one that finds the stop event set, becomes a row of that agent that the server's own
    -- check accepts, and no other row is added or taken away.
    pub anchor_rounds-HasAnchored :
        (c : Cipher) (rounds : List (Env × (Bool × Logger c))) (st : Service)
        → HasAnchored
            (anchor_loop c (loggers c rounds))
            st.db.log_anchors
            (anchor_rounds c rounds st).db.log_anchors
    unfolding anchor_rounds anchor_loop
    anchor_rounds-HasAnchored c [] st = HasAnchored-nil st.db.log_anchors
    anchor_rounds-HasAnchored c ((env, (true, l)) ∷ rounds) st = HasAnchored-nil st.db.log_anchors
    anchor_rounds-HasAnchored c ((env, (false, l)) ∷ rounds) st =
        elim (Option-cases (anchored_head l.prev_hash)) [
          | inl nothing ↦ rw nothing (anchor_rounds-HasAnchored c rounds st)
          | inr (head, found) ↦
              rw (found, post_anchor-runs env head st)
                (HasAnchored-cons head _ st.db.log_anchors _ _
                  (HasAnchored-run_anchor env head st
                    (anchored_head-ne-empty l.prev_hash head found))
                  (anchor_rounds-HasAnchored c rounds _))
        ]

  post_anchor-keyed :
      (env : Env) (head : String) (st : Service)
      → IsKeyed b.settings
      → (post_anchor env head st).1 ≡ st
  unfolding post_anchor anchor_chain require_api_key
  post_anchor-keyed env head st keyed =
      rw (agent_request-unauthorized b.settings address keyed) refl

  -- A server that asks for a key gets no anchor from any agent.
  pub anchor_rounds-keyed :
      (c : Cipher) (rounds : List (Env × (Bool × Logger c))) (st : Service)
      → IsKeyed b.settings
      → anchor_rounds c rounds st ≡ st
  unfolding anchor_rounds
  anchor_rounds-keyed c [] st keyed = refl
  anchor_rounds-keyed c ((env, (true, l)) ∷ rounds) st keyed = refl
  anchor_rounds-keyed c ((env, (false, l)) ∷ rounds) st keyed =
      elim (Option-cases (anchored_head l.prev_hash)) [
        | inl nothing ↦ rw nothing (anchor_rounds-keyed c rounds st keyed)
        | inr (head, found) ↦
            rw (found, post_anchor-keyed env head st keyed) (anchor_rounds-keyed c rounds st keyed)
      ]
