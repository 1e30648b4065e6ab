-- ===== src/Agent/Integrity.antt =====
-- agent/integrity.py: the hash of the agent's files, and the two requests about it, with the server's
-- side of them.
use insider_threat_detection.Common.{
  ℕ, String, ◌≡◌, sym, ap, ◌∙◌, ◌≢◌, Bool, true, false, ◌&&◌, Option, none, some, List, [], ◌∷◌,
  ◌++◌, ◌==◌, select, eq_refl,
}
use insider_threat_detection.Auth.{Outcome, handled, get_caller_role}
use insider_threat_detection.Agent.Keyless.{agent_request}
use insider_threat_detection.Database.{Env}
use insider_threat_detection.Routes.{
  Service, Backend, Reply, checked, registering, checking, handle,
}
use insider_threat_detection.Routes.Guards.{checking_registered}

-- A file below the folder of the agent package: the folders on the way to it, its name, and its
-- bytes, `none` where reading them is an OSError.
pub record SourceFile : Type 0 where
  pub folders : List String
  pub name : String
  pub bytes : Option (List ℕ)

-- pathlib's order of paths, the pattern "*.py" on a name, and SHA-256 in hexadecimal, which is never
-- the empty text.
pub record Hashing : Type 0 where
  pub sorted : List SourceFile → List SourceFile
  pub is_py : String → Bool
  pub sha256_hex : List ℕ → String
  pub sha256_hex-ne-empty : (bytes : List ℕ) → sha256_hex bytes ≢ ""

abbrev pub has_no_folder : List String → Bool
has_no_folder [] = true
has_no_folder (folder ∷ folders) = false

module _ (h : Hashing) where
  -- `agent_dir.glob("*.py")` does not go into folders.
  abbrev pub is_matched : SourceFile → Bool
  is_matched f = has_no_folder f.folders && h.is_py f.name

  -- The updates of the digest, one after the other; a file that cannot be read is left out.
  abbrev pub combined : List SourceFile → List ℕ
  combined [] = []
  combined (f ∷ fs) = elim f.bytes [ none ↦ combined fs | some bs ↦ bs ++ combined fs ]

  unfoldable pub compute_agent_hash : List SourceFile → String
  compute_agent_hash files = h.sha256_hex (combined (h.sorted (select is_matched files)))

  -- The answer to the check: any other status than 200 is an exception, and counts as False.
  abbrev pub is_trusted : Outcome Reply → Bool
  is_trusted (handled (checked trusted stored)) = trusted
  is_trusted _ = false

  module _ (b : Backend) (env : Env) (agent_id : String) (address : Option String) where
    unfoldable pub check_with_server : List SourceFile → Service → Bool
    unfolding compute_agent_hash
    check_with_server files st =
        is_trusted
          (handle b env (agent_request address)
            (checking (some (agent_id, compute_agent_hash files))) st).0

    unfoldable pub register_with_server : List SourceFile → Service → Service
    unfolding compute_agent_hash
    register_with_server files st =
        (handle b env (agent_request address)
          (registering (some (agent_id, compute_agent_hash files))) st).1

  compute_agent_hash-ne-empty : (files : List SourceFile) → compute_agent_hash files ≢ ""
  unfolding compute_agent_hash
  compute_agent_hash-ne-empty files = h.sha256_hex-ne-empty _

  -- On a server that asks for no key: after an agent has registered its files, an agent of the same
  -- name is trusted exactly if the digests of the two installations are the same text.
  pub check_with_server-registered :
      (b : Backend) (env : Env) (agent_id : String) (first later : Option String)
      (before now : List SourceFile) (st : Service)
      → agent_id ≢ ""
      → get_caller_role b.settings (agent_request first) ≡ some "admin"
      → get_caller_role b.settings (agent_request later) ≡ some "admin"
      → check_with_server b env agent_id later now
          (register_with_server b env agent_id first before st)
        ≡ (compute_agent_hash before == compute_agent_hash now)
  unfolding check_with_server register_with_server
  check_with_server-registered b env agent_id first later before now st given open_first
        open_later =
      ap is_trusted (
        checking_registered b env agent_id (compute_agent_hash before) given
          (compute_agent_hash-ne-empty before) (agent_request first) (agent_request later) "admin"
          (compute_agent_hash now) st open_first open_later (compute_agent_hash-ne-empty now))

  abbrev pub AreMatched : List SourceFile → List SourceFile → Type 0
  AreMatched before now = select is_matched before ≡ select is_matched now

  -- On a server that asks for no key, an agent whose files in folders, its monitors, are not those that
  -- were registered is trusted all the same, as long as the files beside them are those.
  pub check_with_server-folders :
      (b : Backend) (env : Env) (agent_id : String) (first later : Option String)
      (before now : List SourceFile) (st : Service)
      → agent_id ≢ ""
      → get_caller_role b.settings (agent_request first) ≡ some "admin"
      → get_caller_role b.settings (agent_request later) ≡ some "admin"
      → AreMatched before now
      → check_with_server b env agent_id later now
          (register_with_server b env agent_id first before st)
        ≡ true
  unfolding compute_agent_hash
  check_with_server-folders b env agent_id first later before now st given open_first open_later
        same =
      check_with_server-registered b env agent_id first later before now st given open_first
        open_later
      ∙ ap
          (λ fs.
            h.sha256_hex (combined (h.sorted (select is_matched before)))
            == h.sha256_hex (combined (h.sorted fs)))
          (sym same)
      ∙ eq_refl _
