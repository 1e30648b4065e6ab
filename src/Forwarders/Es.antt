-- ===== src/Forwarders/Es.antt =====
-- server/notifications/es_forwarder.py: one request to the document API for each event and each alert.
use Prim.Native.String.{◌++◌ as append}
use insider_threat_detection.Common.{
  value_or, String, Bool, false, not, ◌&&◌, ◌||◌, Option, none, some, ◌==◌, nat_eq, if◌then◌else◌,
  is_empty,
}
use insider_threat_detection.Json.{Json}
use insider_threat_detection.Forwarders.{tls_context, HttpRequest, HttpResult, Forwarded, sent}

-- `os.environ`, `str.rstrip("/")`, `str.lower` and base64 of a text.
pub record EsEnvironment : Type 0 where
  pub environ : String → Option String
  pub rstrip_slash : String → String
  pub lower : String → String
  pub b64encode : String → String

module _ (e : EsEnvironment) where
  abbrev pub environ_or : String → String → String
  environ_or name default = value_or default (e.environ name)

  abbrev pub events_index : String
  events_index = environ_or "ES_EVENTS_INDEX" "itdn-events"

  abbrev pub alerts_index : String
  alerts_index = environ_or "ES_ALERTS_INDEX" "itdn-alerts"

  -- `_connection_config`
  abbrev pub es_url : String
  es_url = e.rstrip_slash (environ_or "ES_URL" "")

  abbrev pub es_verify_tls : Bool
  es_verify_tls = not (e.lower (environ_or "ES_VERIFY_TLS" "true") == "false")

  unfoldable pub build_auth_header : String
  build_auth_header =
      if not (is_empty (environ_or "ES_API_KEY" ""))
      then append "ApiKey " (environ_or "ES_API_KEY" "")
      else if not (is_empty (environ_or "ES_USERNAME" ""))
          && not (is_empty (environ_or "ES_PASSWORD" ""))
      then append "Basic " (
          e.b64encode
            (append (environ_or "ES_USERNAME" "") (append ":" (environ_or "ES_PASSWORD" ""))))
      else ""

  -- `if auth: headers["Authorization"] = auth`
  abbrev pub header_of : String → Option String
  header_of auth = if is_empty auth then none else some auth

  module _ (post : HttpRequest → HttpResult) where
    unfoldable pub send_request : String → Json → Bool → Forwarded
    unfolding build_auth_header
    send_request endpoint body verify_tls =
        sent post (λ status. nat_eq status 200 || nat_eq status 201)
          (record {
            url = endpoint;
            authorization = header_of build_auth_header;
            body = body;
            tls = tls_context verify_tls;
          })

    abbrev pub indexed : String → Json → Forwarded
    indexed index document =
        if is_empty es_url
        then (none, false)
        else send_request (append es_url (append "/" (append index "/_doc"))) document es_verify_tls

    unfoldable pub forward_event : Json → Forwarded
    unfolding send_request
    forward_event event = indexed events_index event

    unfoldable pub forward_alert : Json → Forwarded
    unfolding send_request
    forward_alert alert = indexed alerts_index alert
