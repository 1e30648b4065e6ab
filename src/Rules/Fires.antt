-- ===== src/Rules/Fires.antt =====
-- When the rules fire.
use insider_threat_detection.Common.{
  ◌+◌, ◌≤◌, ◌<◌, String, ◌≡◌, refl, ◌∙◌, ◌≢◌, ◌↔◌, Bool, true, false, not, ◌&&◌, none, List, [],
  ◌∷◌, arith, ◌==◌, eq_iff, leb, length, select, any, any-select, any-sort_asc,
}
use insider_threat_detection.Event.{Event, is_connected, is_cycle}
use insider_threat_detection.Database.{Env, EventRow, Db, cutoff}
use insider_threat_detection.Database.Events.{get_recent_events, get_recent_events_by_device}
use insider_threat_detection.Rules.{
  Context, hour_of, event_time, sum_bytes, insert_text, hosts_besides, is_nil,
  rule_after_hours_device, rule_high_volume_transfer, rule_rapid_cycle, rule_cross_agent_device,
}

module _ (ctx : Context) (env : Env) (e : Event) (db : Db) where
  -- A device that connects goes unreported by the hours rule exactly between the end of the
  -- after-hours and their start, by the host's local time.
  pub rule_after_hours_device-quiet :
      is_connected e.event_type ≡ true
      → (rule_after_hours_device ctx env e db ≡ none) ↔ (
          (ctx.config.after_hours_end ≤ hour_of (event_time ctx env e db))
          × (hour_of (event_time ctx env e db) < ctx.config.after_hours_start))
  unfolding rule_after_hours_device
  rule_after_hours_device-quiet c =
      (λ q. (ground (arith, q), ground (arith, q)), λ q. ground (arith, q.0, q.1))

  -- With a start that is not after the end, which the settings allow, every connection is reported.
  pub rule_after_hours_device-always :
      is_connected e.event_type ≡ true
      → ctx.config.after_hours_start ≤ ctx.config.after_hours_end
      → rule_after_hours_device ctx env e db ≢ none
  rule_after_hours_device-always c h q =
      let quiet = (rule_after_hours_device-quiet c).0 q in omega (arith, quiet.0, quiet.1)

  -- The rapid-cycle rule fires exactly if the stored connect and disconnect events of the window and
  -- the event at hand, which counts as one whatever its type, reach the threshold.
  pub rule_rapid_cycle-any_type : (rule_rapid_cycle ctx env e db ≢ none) ↔ (
      ctx.config.rapid_cycle_count
      ≤ length (
          select
            (λ r. is_cycle r.event_type)
            (get_recent_events env e.hostname ctx.config.rapid_cycle_window_secs db))
        + 1)
  unfolding rule_rapid_cycle
  rule_rapid_cycle-any_type = (λ q. ground arith, λ q. ground arith)

  -- The volume rule fires exactly if the event moves bytes and they bring the bytes that the host
  -- moved in the last hour to the threshold.
  pub rule_high_volume_transfer_iff : (rule_high_volume_transfer ctx env e db ≢ none) ↔ (
      (0 < e.transfer_bytes)
      × (ctx.config.volume_threshold_bytes
          ≤ sum_bytes ctx env (get_recent_events env e.hostname 3600 db) + e.transfer_bytes))
  unfolding rule_high_volume_transfer
  rule_high_volume_transfer_iff = (λ q. (ground arith, ground arith), λ q. ground (arith, q.0, q.1))

  insert_text-not-nil :
      (x : String) (xs : List String) → is_nil ctx env (insert_text ctx env x xs) ≡ false
  insert_text-not-nil x [] = refl
  insert_text-not-nil x (y ∷ ys) = ground arith

  hosts_besides-nil :
      (host : String) (rows : List EventRow)
      → not (is_nil ctx env (hosts_besides ctx env host rows))
        ≡ any (λ r. not (r.hostname == host)) rows
  hosts_besides-nil host [] = refl
  hosts_besides-nil host (r ∷ rows) = ground (
    arith,
    hosts_besides-nil host rows,
    insert_text-not-nil r.hostname (hosts_besides ctx env host rows),
  )

  abbrev away : EventRow → Bool
  away r = not (r.hostname == e.hostname)

  abbrev near : EventRow → Bool
  near r = r.device_id == e.device_id && leb (cutoff env 3600) r.received_at

  -- Some event of the last hour shows the device on another host.
  abbrev pub seen_elsewhere : Bool
  seen_elsewhere = any (λ r. near r && away r) db.events

  elsewhere : any away (get_recent_events_by_device env e.device_id 3600 db) ≡ seen_elsewhere
  unfolding get_recent_events_by_device
  elsewhere =
      any-sort_asc (λ r. r.received_at) away (select near db.events)
      ∙ any-select away near db.events

  -- The cross-agent rule fires exactly if some event of the last hour shows the device on another
  -- host, where the event names a device and a host.
  pub rule_cross_agent_device_iff :
      e.device_id ≢ ""
      → e.hostname ≢ ""
      → (rule_cross_agent_device ctx env e db ≢ none) ↔ (seen_elsewhere ≡ true)
  unfolding rule_cross_agent_device
  rule_cross_agent_device_iff d h = (
    λ q. ground (
      arith,
      eq_iff e.device_id "",
      eq_iff e.hostname "",
      hosts_besides-nil e.hostname (get_recent_events_by_device env e.device_id 3600 db),
      elsewhere,
    ),
    λ q. ground (
      arith,
      eq_iff e.device_id "",
      eq_iff e.hostname "",
      hosts_besides-nil e.hostname (get_recent_events_by_device env e.device_id 3600 db),
      elsewhere,
    ),
  )
