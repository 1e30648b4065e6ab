-- ===== src/Transport/Tls.antt =====
-- agent/transport.py: the TLS context of the agent's requests.
use insider_threat_detection.Common.{
  String, ◌≡◌, ◌↔◌, Bool, true, false, not, ◌&&◌, Option, none, some, arith, if◌then◌else◌,
  is_empty,
}

-- Whether the server's name and certificate are checked, the certificates that are trusted, and the
-- agent's own certificate and key.
pub record SslContext : Type 0 where
  pub check_hostname : Bool
  pub verify_mode : Bool
  pub cafile : Option String
  pub cert_chain : Option (String × String)

-- The three settings name files, and the files exist. `exists` is `os.path.exists`.
abbrev pub has_certificates : (String → Bool) → String → String → String → Bool
has_certificates exists server_cert agent_cert agent_key =
    not (is_empty server_cert)
    && not (is_empty agent_cert)
    && not (is_empty agent_key)
    && exists server_cert
    && exists agent_cert
    && exists agent_key

unfoldable pub build_ssl_context : (String → Bool) → String → String → String → SslContext
build_ssl_context exists server_cert agent_cert agent_key =
    if has_certificates exists server_cert agent_cert agent_key
    then record {
      check_hostname = true;
      verify_mode = true;
      cafile = some server_cert;
      cert_chain = some (agent_cert, agent_key);
    }
    else record { check_hostname = false; verify_mode = false; cafile = none; cert_chain = none }

-- The agent checks whom it talks to exactly if all three files are named and are there: one file that
-- is missing is enough for requests to a server that nobody has checked.
pub build_ssl_context-verifies :
    (exists : String → Bool) (server_cert agent_cert agent_key : String)
    → ((build_ssl_context exists server_cert agent_cert agent_key).verify_mode ≡ true) ↔ (
        (is_empty server_cert ≡ false)
        × (exists server_cert ≡ true)
        × ((is_empty agent_cert ≡ false) × (exists agent_cert ≡ true))
        × ((is_empty agent_key ≡ false) × (exists agent_key ≡ true)))
unfolding build_ssl_context
build_ssl_context-verifies exists server_cert agent_cert agent_key =
    (λ e. ground (arith, e), λ p. ground (arith, p))
