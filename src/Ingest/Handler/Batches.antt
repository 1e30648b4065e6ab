-- ===== src/Ingest/Handler/Batches.antt =====
-- What the loop over the events of a request does, the events that it fails on included.
use mathlib.Core.List.{append-nil, append_assoc, map-append}
use insider_threat_detection.Common.{
  ℕ, suc, ◌≡◌, refl, sym, ap, ◌∙◌, List, [], ◌∷◌, ◌++◌, map, arith, length, select, length-append,
  select-append,
}
use insider_threat_detection.Database.{Env}
use insider_threat_detection.Database.Audit.Linked.{IsFresh, IsSound}
use insider_threat_detection.AlertManager.Dedup.{IsSpaced}
use insider_threat_detection.Schema.{DeviceEvent}
use insider_threat_detection.Ingest.{Setup, State}
use insider_threat_detection.Ingest.Handler.{Driver, handle_event, handle_events}
use insider_threat_detection.Ingest.Handler.Outcomes.{stored_json, dumped, handle_event-IsKept}
use insider_threat_detection.Ingest.Handler.Stages.{fits}

module _ (d : Driver) (u : Setup) (envs : ℕ → Env) where
  -- Over any batch, `stored` is the number of the events whose transfer_bytes fit into an integer column,
  -- and the table of events gets the JSON of these, as validated, at its end and in their order.
  pub handle_events-stored :
      (n : ℕ) (es : List DeviceEvent) (st : State)
      → let (stored, after) = handle_events d u envs n es st in
        let taken = select (fits d) es in
        (stored ≡ length taken) × (stored_json after ≡ stored_json st ++ map dumped taken)
  unfolding handle_events
  handle_events-stored n [] st = (refl, sym (append-nil (stored_json st)))
  handle_events-stored n (e ∷ es) st =
      let kept = handle_event-IsKept d u (envs n) e st in
      let rest = handle_events-stored (suc n) es (handle_event d u (envs n) e st).1 in
      let split = select-append (fits d) (e ∷ []) es in
      (
        omega (
          arith,
          kept.0,
          rest.0,
          ap length split,
          length-append (select (fits d) (e ∷ [])) (select (fits d) es),
        ),
        rest.1
            ∙ ap (λ js. js ++ map dumped (select (fits d) es)) kept.1.events
            ∙ append_assoc (stored_json st) _ _
            ∙ ap (λ js. stored_json st ++ js)
                (sym (ap (map dumped) split ∙ map-append dumped (select (fits d) (e ∷ [])) _)),
      )

  pub handle_events-IsSound :
      (n : ℕ) (es : List DeviceEvent) (st : State)
      → ((k : ℕ) → IsFresh (envs k))
      → IsSound u.hasher st.server.db
      → IsSound u.hasher (handle_events d u envs n es st).1.server.db
  unfolding handle_events
  handle_events-IsSound n [] st fresh s = s
  handle_events-IsSound n (e ∷ es) st fresh s =
      handle_events-IsSound (suc n) es (handle_event d u (envs n) e st).1 fresh
        ((handle_event-IsKept d u (envs n) e st).1.chains (fresh n) s)

  pub handle_events-IsSpaced :
      (n : ℕ) (es : List DeviceEvent) (st : State)
      → IsSpaced u.dedup_window_secs st.server.db.alerts
      → IsSpaced u.dedup_window_secs (handle_events d u envs n es st).1.server.db.alerts
  unfolding handle_events
  handle_events-IsSpaced n [] st s = s
  handle_events-IsSpaced n (e ∷ es) st s =
      handle_events-IsSpaced (suc n) es (handle_event d u (envs n) e st).1
        ((handle_event-IsKept d u (envs n) e st).1.alerts s)
