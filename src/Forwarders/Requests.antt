-- ===== src/Forwarders/Requests.antt =====
-- When a forwarder makes a request, and when it returns True.
use mathlib.Core.Option.{some_inj}
use insider_threat_detection.Common.{
  ℕ, String, ◌≡◌, refl, ◌↔◌, inl, inr, Bool, true, false, ◌||◌, none, some, nat_eq, is_empty,
  Bool-cases,
}
use insider_threat_detection.Json.{Json}
use insider_threat_detection.ServerConfig.Constants.{Constants}
use insider_threat_detection.Forwarders.{
  HttpRequest, HttpResult, response, http_error, failed, Forwarded, has_status, sent,
}
use insider_threat_detection.Forwarders.Es
use insider_threat_detection.Forwarders.Es.{EsEnvironment, es_url}
use insider_threat_detection.Forwarders.Splunk

-- A request was made, and its answer, no error, has a status that is wanted.
abbrev pub IsDelivered : (HttpRequest → HttpResult) → (ℕ → Bool) → Forwarded → Type 0
IsDelivered post wanted f =
    (request : HttpRequest) × (status : ℕ) × (f.0 ≡ some request)
    × (post request ≡ response status)
    × (wanted status ≡ true)

module _ (post : HttpRequest → HttpResult) (wanted : ℕ → Bool) where
  has_status-response :
      (r : HttpResult)
      → has_status post wanted r ≡ true
      → (status : ℕ) × (r ≡ response status) × (wanted status ≡ true)
  has_status-response (response n) e = (n, refl, e)
  has_status-response (http_error n) e = cc
  has_status-response failed e = cc

  sent-IsDelivered :
      (request : HttpRequest)
      → ((sent post wanted request).1 ≡ true) ↔ IsDelivered post wanted (sent post wanted request)
  sent-IsDelivered request = (
    λ e.
        (let (status, answered, ok) = has_status-response (post request) e in
          (request, status, refl, answered, ok)),
    λ (r, status, made, answered, ok). rw (some_inj.0 made, answered) ok,
  )

  abbrev nothing : Forwarded
  nothing = (none, false)

  nothing_sent : (nothing.1 ≡ true) ↔ IsDelivered post wanted nothing
  nothing_sent = (λ e. cc, λ (r, status, made, answered, ok). cc)

abbrev pub is_created : ℕ → Bool
is_created status = nat_eq status 200 || nat_eq status 201

abbrev pub is_ok : ℕ → Bool
is_ok status = nat_eq status 200

module _ (e : EsEnvironment) (post : HttpRequest → HttpResult) (document : Json) where
  -- `forward_event` to Elasticsearch returns True exactly if it made a request and the answer had
  -- status 200 or 201; without ES_URL it makes none.
  pub forward_event-IsDelivered :
      (((Es.forward_event e post document).1 ≡ true)
        ↔ IsDelivered post is_created (Es.forward_event e post document))
      × (((Es.forward_event e post document).0 ≡ none) ↔ (is_empty (es_url e) ≡ true))
  unfolding Es.forward_event Es.send_request
  forward_event-IsDelivered = elim (Bool-cases (is_empty (es_url e))) [
    | inl unset ↦ rw unset (nothing_sent post is_created, (λ p. refl, λ p. refl))
    | inr set ↦ rw set (sent-IsDelivered post is_created _, (λ p. cc, λ p. cc))
  ]

module _ (c : Constants) (post : HttpRequest → HttpResult) (sourcetype : String)
    (payload : Json) where
  -- A record for Splunk is delivered exactly if the function returns True, and without a token no
  -- request is made.
  pub send-IsDelivered :
      (((Splunk.send post c sourcetype payload).1 ≡ true)
        ↔ IsDelivered post is_ok (Splunk.send post c sourcetype payload))
      × (((Splunk.send post c sourcetype payload).0 ≡ none) ↔ (is_empty c.splunk_hec_token ≡ true))
  unfolding Splunk.send
  send-IsDelivered = elim (Bool-cases (is_empty c.splunk_hec_token)) [
    | inl unset ↦ rw unset (nothing_sent post is_ok, (λ p. refl, λ p. refl))
    | inr set ↦ rw set (sent-IsDelivered post is_ok _, (λ p. cc, λ p. cc))
  ]
