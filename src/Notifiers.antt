-- ===== src/Notifiers.antt =====
-- server/notifications/notifiers.py: which alerts go to the mail and the webhook, and as what.
pub mod Filter
use Prim.Native.String.{◌++◌ as append}
use insider_threat_detection.Common.{
  ℕ, suc, String, Bool, true, not, ◌&&◌, ◌||◌, Option, none, some, List, [], ◌∷◌, map, ◌==◌, leb,
  if◌then◌else◌, is_empty, ◌>>=◌, select,
}

-- `str.upper`, `str.strip`, `str.split(",")` and `", ".join`.
pub record NotifierText : Type 0 where
  pub upper : String → String
  pub strip : String → String
  pub split : String → List String
  pub join : List String → String

-- The settings of server/config.py that the notifiers read.
pub record NotifySettings : Type 0 where
  pub notify_min_severity : String
  pub slack_webhook_url : String
  pub smtp_host : String
  pub smtp_to : String
  pub smtp_from : String
  pub smtp_user : String
  pub smtp_password : String
  pub smtp_use_tls : Bool

-- The keys of an alert's dict that are read, texts; `none` is an absent key.
pub record AlertPayload : Type 0 where
  pub alert_id : Option String
  pub severity : Option String
  pub rule_name : Option String
  pub hostname : Option String
  pub device_id : Option String
  pub description : Option String

-- `alert.get(key, default)`
abbrev pub get_or : String → Option String → String
get_or default none = default
get_or default (some s) = s

abbrev pub severity_order : List String
severity_order = "LOW" ∷ "MEDIUM" ∷ "HIGH" ∷ "CRITICAL" ∷ []

-- `list.index`; `none` is a ValueError.
abbrev pub index : List String → String → Option ℕ
index [] s = none
index (x ∷ xs) s = let rest = index xs s in if x == s then some 0 else rest >>= λ n. some (suc n)

abbrev pub at_least : Option ℕ → Option ℕ → Bool
at_least (some n) (some least) = leb least n
at_least none least = true
at_least (some n) none = true

-- A message as it is handed to the mail server, and whether the session is encrypted and logged in.
pub record Email : Type 0 where
  pub subject : String
  pub body : List String
  pub sender : String
  pub recipients : List String
  pub to_header : String
  pub starttls : Bool
  pub login : Bool

-- The payload of a webhook's request.
pub record WebhookPost : Type 0 where
  pub url : String
  pub color : String
  pub title : String
  pub text : String
  pub alert_id_field : String
  pub device_field : String

module _ (o : NotifierText) (settings : NotifySettings) where
  unfoldable pub severity_passes : String → Bool
  severity_passes severity =
      at_least (index severity_order (o.upper severity))
        (index severity_order (o.upper settings.notify_min_severity))

  abbrev pub recipients_of : List String → List String
  recipients_of parts = map o.strip (select (λ r. not (is_empty (o.strip r))) parts)

  abbrev pub headline : String → AlertPayload → String
  headline severity alert = append severity (
      append "] "
        (append (get_or "alert" alert.rule_name) (append " on " (get_or "unknown" alert.hostname))))

  abbrev pub email_to : List String → AlertPayload → Option Email
  email_to [] alert = none
  email_to (r ∷ rs) alert = some (record {
    subject = append "[ITDN " (headline (get_or "ALERT" alert.severity) alert);
    body =
        append "Alert ID  : " (get_or "N/A" alert.alert_id)
        ∷ append "Severity  : " (get_or "N/A" alert.severity)
        ∷ append "Rule      : " (get_or "N/A" alert.rule_name)
        ∷ append "Host      : " (get_or "N/A" alert.hostname)
        ∷ append "Device    : " (get_or "N/A" alert.device_id)
        ∷ ""
        ∷ get_or "" alert.description
        ∷ [];
    sender = settings.smtp_from;
    recipients = r ∷ rs;
    to_header = o.join (r ∷ rs);
    starttls = settings.smtp_use_tls;
    login = not (is_empty settings.smtp_user) && not (is_empty settings.smtp_password);
  })

  -- The message that is tried, if any; what comes of it is only logged.
  unfoldable pub send_email_alert : AlertPayload → Option Email
  unfolding severity_passes
  send_email_alert alert =
      if is_empty settings.smtp_host || is_empty settings.smtp_to
      then none
      else if severity_passes (get_or "LOW" alert.severity)
      then email_to (recipients_of (o.split settings.smtp_to)) alert
      else none

  abbrev pub colour_of : String → String
  colour_of severity =
      if severity == "LOW"
      then "#36a64f"
      else if severity == "MEDIUM"
      then "#ff9f00"
      else if severity == "HIGH"
      then "#e01e5a"
      else if severity == "CRITICAL"
      then "#4d0000"
      else "#888888"

  unfoldable pub send_slack_alert : AlertPayload → Option WebhookPost
  unfolding severity_passes
  send_slack_alert alert =
      if is_empty settings.slack_webhook_url
      then none
      else if severity_passes (get_or "LOW" alert.severity)
      then some (record {
        url = settings.slack_webhook_url;
        color = colour_of (o.upper (get_or "ALERT" alert.severity));
        title = append "[" (headline (get_or "ALERT" alert.severity) alert);
        text = get_or "" alert.description;
        alert_id_field = get_or "N/A" alert.alert_id;
        device_field = get_or "N/A" alert.device_id;
      })
      else none

  unfoldable pub notify : AlertPayload → Option Email × Option WebhookPost
  unfolding send_email_alert send_slack_alert
  notify alert = (send_email_alert alert, send_slack_alert alert)
