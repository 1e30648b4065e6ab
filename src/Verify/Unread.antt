-- ===== src/Verify/Unread.antt =====
-- A log of which nothing can be read.
use insider_threat_detection.Common.{
  ℕ, ◌≡◌, refl, Bool, true, false, not, ◌&&◌, ◌||◌, if◌then◌else◌, is_empty, some, List, [], ◌∷◌,
  All,
}
use insider_threat_detection.Chain.{Hasher}
use insider_threat_detection.Logger.{Cipher, blank, malformed, plain, envelope, value_error}
use insider_threat_detection.Logger.Keys.{KeyResult, decrypt_with}
use insider_threat_detection.Verify.{
  file, Args, World, FileLine, log_line, no_object, load_file, status_of, main,
}

module _ (c : Cipher) (k : KeyResult c) (h : Hasher) where
  -- The line is no record under the key: it is blank, or it is no JSON or its seal does not open.
  abbrev pub IsUnread : FileLine c → Type 0
  IsUnread no_object = ⊥
  IsUnread (log_line blank) = Unit
  IsUnread (log_line line) = decrypt_with c k line ≡ value_error

  load_file_unread :
      (lines : List (FileLine c)) → All IsUnread lines → load_file c h k lines ≡ some []
  unfolding load_file
  load_file_unread [] u = refl
  load_file_unread (no_object ∷ lines) u = absurd u.0
  load_file_unread (log_line blank ∷ lines) u = load_file_unread lines u.1
  load_file_unread (log_line malformed ∷ lines) u = rw u.0 (load_file_unread lines u.1)
  load_file_unread (log_line (plain d) ∷ lines) u = rw u.0 (load_file_unread lines u.1)
  load_file_unread (log_line (envelope s) ∷ lines) u = rw u.0 (load_file_unread lines u.1)

  skipped : (b d : Bool) (n : ℕ) → status_of c h (some []) (if b && false && d then n else 0) ≡ 0
  skipped true d n = refl
  skipped false d n = refl

  -- With a key, well-formed or not, under which no line of the file is a record, the tool has nothing
  -- to check, and ends with status 0.
  pub main-unread :
      (args : Args) (w : World c) (lines : List (FileLine c))
      → args.source ≡ file
      → w.log_key ≡ k
      → w.log_lines ≡ some lines
      → All IsUnread lines
      → main c h args w ≡ 0
  unfolding main
  main-unread args w lines from key read u =
      rw (from, read, key, load_file_unread lines u)
        (skipped (args.anchors || args.verify_anchors) (not (is_empty args.hostname)) _)
