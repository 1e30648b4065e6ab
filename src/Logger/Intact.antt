-- ===== src/Logger/Intact.antt =====
-- A log that the agent wrote is accepted by the verifier, across failed writes and restarts.
use insider_threat_detection.Common.{
  ℕ, String, ◌≡◌, refl, sym, ◌∙◌, Bool, true, false, Option, none, some, List, [], ◌∷◌, ◌++◌, arith,
  ◌>>=◌,
}
use insider_threat_detection.Json.{Json, Dict}
use insider_threat_detection.Chain.{Hasher, genesis_hash, compute_hash, verify_chain}
use insider_threat_detection.Chain.Spec.{IsLink, Linked, head_after, verify_chain-intact}
use insider_threat_detection.Logger.{
  Cipher, Line, Logger, encode_record, decrypt-encode, last_line, load_tail_hash, open_logger,
  new_record, new_hash, Action, write_event, restart, session, write, load_from_file, load_line,
}

module _ (c : Cipher) where
  abbrev add : Dict → List Dict → Option (List Dict)
  add d rs = some (rs ++ d ∷ [])

  load_line-add :
      (key : Option c.Key) (line : Line c) (m : Option (List Dict)) (d : Dict)
      → load_line c key line (m >>= add d) ≡ (load_line c key line m >>= add d)
  unfolding load_line
  load_line-add key Line.blank m d = refl
  load_line-add key Line.malformed m d = refl
  load_line-add key (Line.plain e) none d = refl
  load_line-add key (Line.plain e) (some rs) d = refl
  load_line-add none (Line.envelope s) m d = refl
  load_line-add (some k) (Line.envelope s) none d = ground arith
  load_line-add (some k) (Line.envelope s) (some rs) d = ground arith

  load_line-encode :
      (key : Option c.Key) (nonce : ℕ) (d : Dict) (rest : Option (List Dict))
      → load_line c key (encode_record c key nonce d) rest ≡ (rest >>= λ rs. some (d ∷ rs))
  unfolding load_line encode_record
  load_line-encode none nonce d rest = refl
  load_line-encode (some k) nonce d rest = rw c.unseal-seal

  load-append_bind :
      (key : Option c.Key) (file : List (Line c)) (nonce : ℕ) (d : Dict)
      → load_from_file c key (file ++ encode_record c key nonce d ∷ [])
        ≡ (load_from_file c key file >>= add d)
  unfolding load_from_file
  load-append_bind key [] nonce d = load_line-encode key nonce d (some [])
  load-append_bind key (line ∷ file) nonce d =
      rw (load-append_bind key file nonce d) (load_line-add key line (load_from_file c key file) d)

module _ (c : Cipher) (h : Hasher) (key : Option c.Key) where
  -- The file loads as a chain from the genesis hash to the logger's hash, which is also what a
  -- restart would read.
  pub record IsIntact (l : Logger c) : Type 0 where
    pub records : List Dict
    pub loads : load_from_file c key l.file ≡ some records
    pub chain : Linked h genesis_hash records
    pub head : head_after h genesis_hash records ≡ l.prev_hash
    pub tail : load_tail_hash c key l.file ≡ l.prev_hash

  load-append :
      (file : List (Line c)) (rs : List Dict) (nonce : ℕ) (d : Dict)
      → load_from_file c key file ≡ some rs
      → load_from_file c key (file ++ encode_record c key nonce d ∷ []) ≡ some (rs ++ d ∷ [])
  load-append file rs nonce d e = load-append_bind c key file nonce d ∙ rw e

  last_line-append :
      (found : Option (Line c)) (file : List (Line c)) (nonce : ℕ) (d : Dict)
      → last_line c found (file ++ encode_record c key nonce d ∷ [])
        ≡ some (encode_record c key nonce d)
  unfolding last_line encode_record
  last_line-append found [] nonce d = ground arith
  last_line-append found (Line.blank ∷ file) nonce d = last_line-append found file nonce d
  last_line-append found (line ∷ file) nonce d = last_line-append (some line) file nonce d

  compute_hash-new_record :
      (prev : String) (event : Json)
      → compute_hash h (new_record c h prev event) ≡ new_hash c h prev event
  unfolding compute_hash new_record
  compute_hash-new_record prev event = refl

  tail-append :
      (file : List (Line c)) (nonce : ℕ) (prev : String) (event : Json)
      → load_tail_hash c key (file ++ encode_record c key nonce (new_record c h prev event) ∷ [])
        ≡ new_hash c h prev event
  unfolding load_tail_hash new_record
  tail-append file nonce prev event = rw (last_line-append, decrypt-encode)

  Linked-append :
      (p : String) (rs : List Dict) (d : Dict)
      → Linked h p rs
      → IsLink h (head_after h p rs) d
      → Linked h p (rs ++ d ∷ [])
  Linked-append p [] d l k = (k, tt)
  Linked-append p (r ∷ rs) d l k = (l.0, Linked-append (compute_hash h r) rs d l.1 k)

  head_after-append :
      (p : String) (rs : List Dict) (d : Dict) → head_after h p (rs ++ d ∷ []) ≡ compute_hash h d
  head_after-append p [] d = refl
  head_after-append p (r ∷ rs) d = head_after-append (compute_hash h r) rs d

  new_record-IsLink : (prev : String) (event : Json) → IsLink h prev (new_record c h prev event)
  unfolding new_record compute_hash
  new_record-IsLink prev event = record { linked = refl; sealed = refl }

  pub empty-IsIntact : IsIntact (open_logger c key [])
  unfolding open_logger load_from_file
  empty-IsIntact = record { records = []; loads = refl; chain = tt; head = refl; tail = refl }

  write-IsIntact :
      (nonce : ℕ) (disk_ok : Bool) (event : Json) (l : Logger c)
      → IsIntact l
      → IsIntact (write c h key nonce disk_ok event l).1
  unfolding write
  write-IsIntact nonce false event l i = i
  write-IsIntact nonce true event l i =
      let d = new_record c h l.prev_hash event in
      record {
        records = i.records ++ d ∷ [];
        loads = load-append l.file i.records nonce d i.loads;
        chain =
            Linked-append genesis_hash i.records d i.chain
              (rw i.head (new_record-IsLink l.prev_hash event));
        head =
            head_after-append genesis_hash i.records d ∙ compute_hash-new_record l.prev_hash event;
        tail = tail-append l.file nonce l.prev_hash event;
      }

  restart-IsIntact : (l : Logger c) → IsIntact l → IsIntact (open_logger c key l.file)
  unfolding open_logger
  restart-IsIntact l i = record {
    records = i.records;
    loads = i.loads;
    chain = i.chain;
    head = i.head ∙ sym i.tail;
    tail = refl;
  }

  pub session-IsIntact :
      (actions : List (Action c h)) (l : Logger c)
      → IsIntact l
      → IsIntact (session c h key actions l)
  unfolding session
  session-IsIntact [] l i = i
  session-IsIntact (write_event nonce disk_ok event ∷ actions) l i =
      session-IsIntact actions _ (write-IsIntact nonce disk_ok event l i)
  session-IsIntact (restart ∷ actions) l i = session-IsIntact actions _ (restart-IsIntact l i)

  -- Whatever is written, with failing writes and restarts in between, a log that starts empty
  -- loads, the verifier accepts it, and its last hash is the logger's chain head; with a fixed
  -- encryption key or none.
  pub session-verifies :
      (actions : List (Action c h))
      → let l = session c h key actions (open_logger c key []) in
        (records : List Dict) × (load_from_file c key l.file ≡ some records)
        × (verify_chain h records ≡ some [])
        × (head_after h genesis_hash records ≡ l.prev_hash)
  session-verifies actions =
      let i = session-IsIntact actions (open_logger c key []) empty-IsIntact in
      (i.records, i.loads, (verify_chain-intact h i.records).1 i.chain, i.head)
