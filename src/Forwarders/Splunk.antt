-- ===== src/Forwarders/Splunk.antt =====
-- server/notifications/splunk_forwarder.py: one request to the HTTP Event Collector for each event and
-- each alert.
use Prim.Native.String.{◌++◌ as append}
use insider_threat_detection.Common.{String, false, none, some, nat_eq, if◌then◌else◌, is_empty}
use insider_threat_detection.Json.{Json, str, obj, end, field}
use insider_threat_detection.ServerConfig.Constants.{Constants}
use insider_threat_detection.Forwarders.{tls_context, HttpRequest, HttpResult, Forwarded, sent}

module _ (post : HttpRequest → HttpResult) (c : Constants) where
  abbrev pub hec_record : String → Json → Json
  hec_record sourcetype payload = obj (
      field "index" (str c.splunk_index) (
        field "sourcetype" (str sourcetype)
          (field "source" (str "itdn") (field "event" payload end))))

  unfoldable pub send : String → Json → Forwarded
  send sourcetype payload =
      if is_empty c.splunk_hec_token
      then (none, false)
      else sent post (λ status. nat_eq status 200)
          (record {
            url = c.splunk_hec_url;
            authorization = some (append "Splunk " c.splunk_hec_token);
            body = hec_record sourcetype payload;
            tls = tls_context c.splunk_verify_tls;
          })

  unfoldable pub forward_event : Json → Forwarded
  unfolding send
  forward_event event = send "itdn:device_event" event

  unfoldable pub forward_alert : Json → Forwarded
  unfolding send
  forward_alert alert = send "itdn:alert" alert
