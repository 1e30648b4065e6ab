-- ===== src/Examples/Startup.antt =====
-- The database's start and the notification filter at concrete inputs.
use insider_threat_detection.Common.{
  ◌≡◌, refl, true, not, ◌&&◌, none, some, [], ◌∷◌, ltb, leb, is_empty, length, is_some,
}
use insider_threat_detection.Event.{high, critical}
use insider_threat_detection.Notifiers.{
  NotifierText, NotifySettings, AlertPayload, notify, recipients_of,
}
use insider_threat_detection.Notifiers.Filter.{rank, notify-channels}
use insider_threat_detection.Migrations.{Catalog, upgrade, init_db}
use insider_threat_detection.Migrations.Agreement.{IsProvisioned, upgrade-init_db}

abbrev fresh_catalog : Catalog
fresh_catalog = record { tables = []; indexes = []; revision = none }

upgrade-init_db_example :
    ((e : Catalog) × (upgrade fresh_catalog ≡ some e) × IsProvisioned fresh_catalog e)
    × IsProvisioned fresh_catalog (init_db (some "3573a583044a") fresh_catalog)
upgrade-init_db_example = upgrade-init_db (some "3573a583044a") fresh_catalog (
  (refl, (refl, (refl, (refl, (refl, (refl, (refl, (refl, (refl, tt))))))))),
  (refl, (refl, (refl, (refl, (refl, (refl, tt)))))),
)

abbrev toy_text : NotifierText
toy_text = record { upper = λ s. s; strip = λ s. s; split = λ s. s ∷ []; join = λ rs. "soc" }

abbrev settings : NotifySettings
settings = record {
  notify_min_severity = "HIGH";
  slack_webhook_url = "";
  smtp_host = "mail";
  smtp_to = "soc";
  smtp_from = "itdn";
  smtp_user = "";
  smtp_password = "";
  smtp_use_tls = true;
}

abbrev alert : AlertPayload
alert = record {
  alert_id = some "1";
  severity = some "CRITICAL";
  rule_name = some "honeypot_device";
  hostname = some "desk-1";
  device_id = some "dead:beef";
  description = none;
}

notify-channels_example :
    (is_some (notify toy_text settings alert).0 ≡ (
      leb (rank high) (rank critical)
      && not (is_empty "mail")
      && not (is_empty "soc")
      && ltb 0 (length (recipients_of toy_text settings ("soc" ∷ [])))))
    × (is_some (notify toy_text settings alert).1
        ≡ (leb (rank high) (rank critical) && not (is_empty "")))
notify-channels_example = notify-channels toy_text settings alert high critical refl refl refl
