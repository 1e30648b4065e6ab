-- ===== src/Logger/Keys.antt =====
-- agent/crypto.py: the key in ITDN_LOG_KEY, with what a malformed or a wrong one does to the log
-- and to its verification. A text of 64 characters with blanks between the digits, which `fromhex`
-- skips, is left out.
use Prim.Native.String.{count}
use insider_threat_detection.Common.{
  value_or, ap, String, ◌≡◌, refl, Bool, true, false, Option, none, some, List, [], ◌∷◌, nat_eq,
  if◌then◌else◌, is_empty, All, All-append,
}
use insider_threat_detection.Json.{Dict}
use insider_threat_detection.Chain.{Hasher}
use insider_threat_detection.Logger.{
  Cipher, Line, blank, malformed, load_from_file, plain, envelope, Decrypted, value_error,
  decrypt_record, encode_record, keep, Logger, open_logger, write, Action, write_event, restart,
  session,
}

-- `str.strip`, and `bytes.fromhex`, where `none` is a ValueError.
pub record KeyReading (c : Cipher) : Type 0 where
  pub strip : String → String
  pub fromhex : String → Option c.Key

module _ (c : Cipher) where
  -- What `_get_key` returns, or its ValueError.
  pub data KeyResult : Type 0 where
    no_key : KeyResult
    a_key : c.Key → KeyResult
    bad_key : KeyResult

  abbrev pub parsed : Option c.Key → KeyResult
  parsed none = bad_key
  parsed (some k) = a_key k

  -- `raw` is the setting as the environment has it.
  unfoldable pub get_key : KeyReading c → Option String → KeyResult
  get_key r raw =
      let text = r.strip (value_or "" raw) in
      if is_empty text
      then no_key
      else if nat_eq (count text) 64
      then parsed (r.fromhex text)
      else bad_key

  abbrev pub is_encryption_enabled : KeyResult → Bool
  is_encryption_enabled no_key = false
  is_encryption_enabled (a_key k) = true
  is_encryption_enabled bad_key = false

  -- The key under which `write` encrypts: it asks `is_encryption_enabled` first.
  abbrev pub key_of : KeyResult → Option c.Key
  key_of (a_key k) = some k
  key_of _ = none

  abbrev pub write_key : KeyResult → Option c.Key
  write_key key = if is_encryption_enabled key then key_of key else none

  -- `decrypt_record` with the exception of `_get_key`.
  unfoldable pub decrypt_with : KeyResult → Line c → Decrypted c
  decrypt_with bad_key (envelope s) = value_error
  decrypt_with no_key line = decrypt_record c none line
  decrypt_with (a_key k) line = decrypt_record c (some k) line
  decrypt_with bad_key line = decrypt_record c none line

  unfoldable pub load_with : KeyResult → List (Line c) → Option (List Dict)
  unfolding decrypt_with
  load_with key [] = some []
  load_with key (blank ∷ lines) = load_with key lines
  load_with key (line ∷ lines) = keep c (decrypt_with key line) (load_with key lines)

  -- The line can be read without a key.
  abbrev pub IsPlain : Line c → Type 0
  IsPlain (plain d) = Unit
  IsPlain _ = ⊥

  abbrev pub result_of : Option c.Key → KeyResult
  result_of none = no_key
  result_of (some k) = a_key k

  decrypt_with-result_of :
      (k : Option c.Key) (line : Line c) → decrypt_with (result_of k) line ≡ decrypt_record c k line
  unfolding decrypt_with
  decrypt_with-result_of none (envelope s) = refl
  decrypt_with-result_of none blank = refl
  decrypt_with-result_of none malformed = refl
  decrypt_with-result_of none (plain d) = refl
  decrypt_with-result_of (some k) (envelope s) = refl
  decrypt_with-result_of (some k) blank = refl
  decrypt_with-result_of (some k) malformed = refl
  decrypt_with-result_of (some k) (plain d) = refl

  -- With a well-formed key, or without one, the log is read as `load_from_file` reads it.
  pub load_with-load_from_file :
      (k : Option c.Key) (lines : List (Line c))
      → load_with (result_of k) lines ≡ load_from_file c k lines
  unfolding load_with load_from_file
  load_with-load_from_file k [] = refl
  load_with-load_from_file k (blank ∷ lines) = load_with-load_from_file k lines
  load_with-load_from_file k (malformed ∷ lines) =
      rw (decrypt_with-result_of k malformed, load_with-load_from_file k lines) refl
  load_with-load_from_file k (plain d ∷ lines) =
      rw (decrypt_with-result_of k (plain d), load_with-load_from_file k lines) refl
  load_with-load_from_file k (envelope s ∷ lines) =
      rw (decrypt_with-result_of k (envelope s), load_with-load_from_file k lines) refl

  abbrev pub IsSealed : Line c → Type 0
  IsSealed (envelope s) = Unit
  IsSealed _ = ⊥

  -- With a malformed key every record of an encrypted log is skipped, none is an error.
  pub load_with-bad_key :
      (lines : List (Line c)) → All IsSealed lines → load_with bad_key lines ≡ some []
  unfolding load_with
  load_with-bad_key [] a = refl
  load_with-bad_key (envelope s ∷ lines) a = ap (keep c value_error) (load_with-bad_key lines a.1)
  load_with-bad_key (blank ∷ lines) a = absurd a.0
  load_with-bad_key (malformed ∷ lines) a = absurd a.0
  load_with-bad_key (plain d ∷ lines) a = absurd a.0

  module _ (h : Hasher) where
    session-IsPlain :
        (actions : List (Action c h)) (l : Logger c)
        → All IsPlain l.file
        → All IsPlain (session c h none actions l).file
    unfolding session write open_logger encode_record
    session-IsPlain [] l p = p
    session-IsPlain (write_event nonce true event ∷ actions) l p =
        session-IsPlain actions _ (All-append IsPlain l.file _ p (tt, tt))
    session-IsPlain (write_event nonce false event ∷ actions) l p = session-IsPlain actions l p
    session-IsPlain (restart ∷ actions) l p = session-IsPlain actions (open_logger c none l.file) p

    bad_key_of_length :
        (r : KeyReading c) (raw : Option String)
        → is_empty (r.strip (value_or "" raw)) ≡ false
        → nat_eq (count (r.strip (value_or "" raw))) 64 ≡ false
        → get_key r raw ≡ bad_key
    unfolding get_key
    bad_key_of_length r raw given short = rw (given, short) refl

    -- If ITDN_LOG_KEY is set to a text that is not of 64 characters, every record of a log that
    -- started empty stands in the clear, over writes, failed writes and restarts.
    pub session-clear :
        (r : KeyReading c) (raw : Option String) (actions : List (Action c h))
        → is_empty (r.strip (value_or "" raw)) ≡ false
        → nat_eq (count (r.strip (value_or "" raw))) 64 ≡ false
        → let key = write_key (get_key r raw) in
          All IsPlain (session c h key actions (open_logger c key [])).file
    session-clear r raw actions given short =
        rw (bad_key_of_length r raw given short)
          (session-IsPlain actions (open_logger c none []) (unfold open_logger in tt))
