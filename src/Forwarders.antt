-- ===== src/Forwarders.antt =====
-- server/notifications/splunk_forwarder.py and es_forwarder.py: what both use, the requests that they
-- make and what comes of them.
pub mod Splunk
pub mod Es
pub mod Requests
use insider_threat_detection.Common.{ℕ, String, Bool, true, false, Option, some, if◌then◌else◌}
use insider_threat_detection.Json.{Json}

-- The context for TLS: whether the name and the certificate of the other side are checked.
pub record TlsContext : Type 0 where
  pub check_hostname : Bool
  pub verify_mode : Bool

-- `ssl.create_default_context()`, without its checks unless they are asked for.
abbrev pub tls_context : Bool → TlsContext
tls_context verify =
    if verify
    then record { check_hostname = true; verify_mode = true }
    else record { check_hostname = false; verify_mode = false }

-- A POST of a JSON body.
pub record HttpRequest : Type 0 where
  pub url : String
  pub authorization : Option String
  pub body : Json
  pub tls : TlsContext

-- `urlopen`: a response with its status, an HTTPError, or another exception.
pub data HttpResult : Type 0 where
  response : ℕ → HttpResult
  http_error : ℕ → HttpResult
  failed : HttpResult

-- The request that is made, if any, and what the function returns.
abbrev pub Forwarded : Type 0
Forwarded = Option HttpRequest × Bool

module _ (post : HttpRequest → HttpResult) where
  abbrev pub has_status : (ℕ → Bool) → HttpResult → Bool
  has_status wanted (response status) = wanted status
  has_status wanted _ = false

  abbrev pub sent : (ℕ → Bool) → HttpRequest → Forwarded
  sent wanted request = (some request, has_status wanted (post request))
