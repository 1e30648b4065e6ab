-- ===== src/Notifiers/Filter.antt =====
-- The severity filter of the notifiers on the severities that the rules give.
use insider_threat_detection.Common.{
  ℕ, min, String, ◌≡◌, refl, not, ◌&&◌, some, List, [], ◌∷◌, arith, ltb, leb, is_empty, length,
  is_some,
}
use insider_threat_detection.Event.{Severity, low, medium, high, critical}
use insider_threat_detection.Notifiers.{
  NotifierText, NotifySettings, AlertPayload, severity_order, index, severity_passes, recipients_of,
  email_to, send_email_alert, send_slack_alert, notify,
}

abbrev pub severity_text : Severity → String
severity_text low = "LOW"
severity_text medium = "MEDIUM"
severity_text high = "HIGH"
severity_text critical = "CRITICAL"

abbrev pub rank : Severity → ℕ
rank low = 0
rank medium = 1
rank high = 2
rank critical = 3

index-severity_text : (s : Severity) → index severity_order (severity_text s) ≡ some (rank s)
index-severity_text low = refl
index-severity_text medium = refl
index-severity_text high = refl
index-severity_text critical = refl

module _ (o : NotifierText) (settings : NotifySettings) where
  severity_passes-rank :
      (least s : Severity)
      → o.upper settings.notify_min_severity ≡ severity_text least
      → o.upper (severity_text s) ≡ severity_text s
      → severity_passes o settings (severity_text s) ≡ leb (rank least) (rank s)
  unfolding severity_passes
  severity_passes-rank least s min upper =
      rw (min, upper, index-severity_text least, index-severity_text s) refl

  is_some-email_to :
      (rs : List String) (alert : AlertPayload)
      → is_some (email_to o settings rs alert) ≡ ltb 0 (length rs)
  is_some-email_to [] alert = refl
  is_some-email_to (r ∷ rs) alert = ground arith

  -- An alert of a severity that the rules give is mailed exactly if it is at or above the minimum,
  -- a mail server is set and the setting of the recipients is there and names one, and it is
  -- posted to the webhook exactly if it is at or above the minimum and an address is set. It is
  -- assumed that the setting of the minimum names a severity, in letters of either case, and that
  -- the upper case of the alert's severity is the severity.
  pub notify-channels :
      (alert : AlertPayload) (least s : Severity)
      → alert.severity ≡ some (severity_text s)
      → o.upper settings.notify_min_severity ≡ severity_text least
      → o.upper (severity_text s) ≡ severity_text s
      → (is_some (notify o settings alert).0 ≡ (
          leb (rank least) (rank s)
          && not (is_empty settings.smtp_host)
          && not (is_empty settings.smtp_to)
          && ltb 0 (length (recipients_of o settings (o.split settings.smtp_to)))))
        × (is_some (notify o settings alert).1
            ≡ (leb (rank least) (rank s) && not (is_empty settings.slack_webhook_url)))
  unfolding notify send_email_alert send_slack_alert
  notify-channels alert least s sev min upper =
      let passes = severity_passes-rank least s min upper in
      let mail = is_some-email_to (recipients_of o settings (o.split settings.smtp_to)) alert in
      (rw sev (ground (arith, passes, mail)), rw sev (ground (arith, passes)))
