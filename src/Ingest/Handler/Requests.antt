-- ===== src/Ingest/Handler/Requests.antt =====
-- Which requests change the server, and what any sequence of requests keeps.
use insider_threat_detection.Common.{
  value_or, ℕ, suc, ◌+◌, String, ◌≡◌, ◌≢◌, nat_eq, refl, ap, ◌∙◌, ◌⊎◌, inl, inr, true, false,
  Option, none, some, List, [], ◌∷◌, arith, Bool-cases, Option-cases, All,
}
use insider_threat_detection.Json.{Json, get}
use insider_threat_detection.Auth.{
  Settings, Request, Outcome, unauthorized, rate_limited, status_of, handled, Limiter, admit,
  client, get_caller_role, require_api_key, rate_limit,
}
use insider_threat_detection.Event.{Event}
use insider_threat_detection.Database.{Env}
use insider_threat_detection.Database.Audit.Linked.{IsFresh, IsSound}
use insider_threat_detection.AlertManager.Dedup.{IsSpaced}
use insider_threat_detection.Schema.{
  Reading, DeviceEvent, Checked, accepted, bad_request, raised, check_request,
}
use insider_threat_detection.Schema.Requests.{IsAccepted, check_request-accepted}
use insider_threat_detection.Ingest.{Setup, State, process_event, ingest_events}
use insider_threat_detection.Ingest.Handler.{
  Driver, user_of, event_of, handle_events, Reply, ok, reply_status, after_checks, post_events,
}
use insider_threat_detection.Ingest.Handler.Stages.{fits, handle_event-fits}
use insider_threat_detection.Ingest.Handler.Batches.{handle_events-IsSound, handle_events-IsSpaced}

module _ (d : Driver) (u : Setup) (r : Reading) (settings : Settings) where
  -- A request, with what the server has at its time: the clocks and the keys.
  pub record Post : Type 0 where
    pub envs : ℕ → Env
    pub now : ℕ
    pub request : Request
    pub raw : Option Json

  abbrev pub answer : Post → Limiter settings × State → Outcome Reply × (Limiter settings × State)
  answer p s = post_events d u r settings p.envs p.now p.request p.raw s

  abbrev pub posts : List Post → Limiter settings × State → Limiter settings × State
  posts [] s = s
  posts (p ∷ ps) s = posts ps (answer p s).1

  -- The caller has a key, its address is within the limit, and the body is one with these events.
  pub record IsAdmissible (p : Post) (limiter : Limiter settings) (events : List DeviceEvent)
      : Type 0 where
    pub role : String
    pub has_key : get_caller_role settings p.request ≡ some role
    pub within_limit : (admit settings p.now (client settings p.request) limiter).0 ≡ true
    pub valid : IsAccepted r p.raw events

  -- No events make the request one that is let through; the answer is not 200, and nothing changes.
  pub record IsTurnedDown (p : Post) (limiter : Limiter settings) (st : State) : Type 0 where
    pub not_admissible : (events : List DeviceEvent) → IsAdmissible p limiter events → ⊥
    pub refused : nat_eq (status_of reply_status (answer p (limiter, st)).0) 200 ≡ false
    pub unchanged : (answer p (limiter, st)).1.1 ≡ st

  -- The request is let through and its events are those that are handled.
  pub record IsTaken (p : Post) (limiter : Limiter settings) (st : State) : Type 0 where
    pub events : List DeviceEvent
    pub admissible : IsAdmissible p limiter events
    pub replied : (answer p (limiter, st)).0 ≡ handled (ok (handle_events d u p.envs 0 events st).0)
    pub handled_all : (answer p (limiter, st)).1.1 ≡ (handle_events d u p.envs 0 events st).1

  within :
      (fn : State → Outcome Reply × State) (p : Post) (limiter : Limiter settings) (st : State)
      → (admit settings p.now (client settings p.request) limiter).0 ≡ true
      → let (reply, s) = rate_limit settings p.now p.request fn (limiter, st) in
        (reply ≡ (fn st).0) × (s.1 ≡ (fn st).1)
  unfolding rate_limit
  within fn p limiter st e = rw e (refl, refl)

  beyond :
      (fn : State → Outcome Reply × State) (p : Post) (limiter : Limiter settings) (st : State)
      → (admit settings p.now (client settings p.request) limiter).0 ≡ false
      → let (reply, s) = rate_limit settings p.now p.request fn (limiter, st) in
        (reply ≡ rate_limited) × (s.1 ≡ st)
  unfolding rate_limit
  beyond fn p limiter st e = rw e (refl, refl)

  unkeyed :
      (p : Post) (s : Limiter settings × State)
      → get_caller_role settings p.request ≡ none
      → answer p s ≡ (unauthorized, s)
  unfolding post_events require_api_key
  unkeyed p s e = rw e refl

  with_key :
      (p : Post) (s : Limiter settings × State) (role : String)
      → get_caller_role settings p.request ≡ some role
      → answer p s
        ≡ rate_limit settings p.now p.request (after_checks d u p.envs (check_request r p.raw)) s
  unfolding post_events require_api_key
  with_key p s role e = rw e refl

  -- A result of the checks: the events of the body, or an answer that is not 200.
  checked_cases :
      (c : Checked) (p : Post) (st : State)
      → (((es : List DeviceEvent) → c ≢ accepted es)
          × (nat_eq (status_of reply_status (after_checks d u p.envs c st).0) 200 ≡ false)
          × ((after_checks d u p.envs c st).1 ≡ st))
        ⊎ ((es : List DeviceEvent) × (c ≡ accepted es)
            × ((after_checks d u p.envs c st).0 ≡ handled (ok (handle_events d u p.envs 0 es st).0))
            × ((after_checks d u p.envs c st).1 ≡ (handle_events d u p.envs 0 es st).1))
  checked_cases bad_request p st = inl ((λ es e. cc), refl, refl)
  checked_cases raised p st = inl ((λ es e. cc), refl, refl)
  checked_cases (accepted es) p st = inr (es, refl, refl, refl)

  admitted :
      (p : Post) (limiter : Limiter settings) (st : State) (role : String)
      → get_caller_role settings p.request ≡ some role
      → (admit settings p.now (client settings p.request) limiter).0 ≡ true
      → IsTurnedDown p limiter st ⊎ IsTaken p limiter st
  admitted p limiter st role has_key ok_now =
      let view = after_checks d u p.envs (check_request r p.raw) in
      let same = with_key p (limiter, st) role has_key in
      let done = within view p limiter st ok_now in
      elim (checked_cases (check_request r p.raw) p st) [
        | inl (invalid, failed, kept) ↦ inl (record {
          not_admissible = λ es a. invalid es ((check_request-accepted r p.raw es).1 a.valid);
          refused =
              ap (λ o. nat_eq (status_of reply_status o) 200) (ap (λ a. a.0) same ∙ done.0)
              ∙ failed;
          unchanged = ap (λ a. a.1.1) same ∙ done.1 ∙ kept;
        })
        | inr (es, valid, replied, state) ↦ inr (record {
          events = es;
          admissible = record {
            role = role;
            has_key = has_key;
            within_limit = ok_now;
            valid = (check_request-accepted r p.raw es).0 valid;
          };
          replied = ap (λ a. a.0) same ∙ done.0 ∙ replied;
          handled_all = ap (λ a. a.1.1) same ∙ done.1 ∙ state;
        })
      ]

  keyless-IsTurnedDown :
      (p : Post) (limiter : Limiter settings) (st : State)
      → get_caller_role settings p.request ≡ none
      → IsTurnedDown p limiter st
  keyless-IsTurnedDown p limiter st no_key =
      let same = unkeyed p (limiter, st) no_key in
      record {
        not_admissible = λ es a. let found = a.has_key in cc;
        refused = ap (λ a. nat_eq (status_of reply_status a.0) 200) same;
        unchanged = ap (λ a. a.1.1) same;
      }

  over_limit-IsTurnedDown :
      (p : Post) (limiter : Limiter settings) (st : State) (role : String)
      → get_caller_role settings p.request ≡ some role
      → (admit settings p.now (client settings p.request) limiter).0 ≡ false
      → IsTurnedDown p limiter st
  over_limit-IsTurnedDown p limiter st role has_key over =
      let same = with_key p (limiter, st) role has_key in
      let stopped = beyond _ p limiter st over in
      record {
        not_admissible = λ es a. let within = a.within_limit in cc;
        refused = ap (λ o. nat_eq (status_of reply_status o) 200) (ap (λ a. a.0) same ∙ stopped.0);
        unchanged = ap (λ a. a.1.1) same ∙ stopped.1;
      }

  -- If the caller of a POST has a key, its address is within the limit, and the body is an object with
  -- a list of valid events, these events are handled, all of them, in order, and the answer is the
  -- number of those that were stored. If it is no such request, whatever the events, the answer's
  -- status is not 200 and the server's state is as it was.
  pub post_events-guards :
      (p : Post) (limiter : Limiter settings) (st : State)
      → IsTurnedDown p limiter st ⊎ IsTaken p limiter st
  post_events-guards p limiter st = elim (Option-cases (get_caller_role settings p.request)) [
    | inl no_key ↦ inl (keyless-IsTurnedDown p limiter st no_key)
    | inr (role, has_key) ↦
        elim (Bool-cases (admit settings p.now (client settings p.request) limiter).0) [
          | inl ok_now ↦ admitted p limiter st role has_key ok_now
          | inr over ↦ inl (over_limit-IsTurnedDown p limiter st role has_key over)
        ]
  ]

  abbrev pub AllFresh : List Post → Type 0
  AllFresh ps = All (λ p. (k : ℕ) → IsFresh (p.envs k)) ps

  answer-IsSound :
      (p : Post) (s : Limiter settings × State)
      → ((k : ℕ) → IsFresh (p.envs k))
      → IsSound u.hasher s.1.server.db × IsSpaced u.dedup_window_secs s.1.server.db.alerts
      → IsSound u.hasher (answer p s).1.1.server.db
        × IsSpaced u.dedup_window_secs (answer p s).1.1.server.db.alerts
  answer-IsSound p (limiter, st) fresh (sound, spaced) = elim (post_events-guards p limiter st) [
    | inl t ↦ rw t.unchanged (sound, spaced)
    | inr t ↦ rw t.handled_all (
      handle_events-IsSound d u p.envs 0 t.events st fresh sound,
      handle_events-IsSpaced d u p.envs 0 t.events st spaced,
    )
  ]

  -- Whatever POSTs of events come in, one after the other, with or without a key, valid or not: if the keys of new rows are above
  -- those of their table, the chains of all hosts that were linked from the genesis hash stay so, and
  -- if no two stored alerts for one host, device and rule were within the window of each other, none
  -- are afterwards.
  pub posts-IsSound :
      (ps : List Post) (s : Limiter settings × State)
      → AllFresh ps
      → IsSound u.hasher s.1.server.db × IsSpaced u.dedup_window_secs s.1.server.db.alerts
      → IsSound u.hasher (posts ps s).1.server.db
        × IsSpaced u.dedup_window_secs (posts ps s).1.server.db.alerts
  posts-IsSound [] s fresh h = h
  posts-IsSound (p ∷ ps) s fresh h =
      posts-IsSound ps (answer p s).1 fresh.1 (answer-IsSound p s fresh.0 h)

module _ (d : Driver) (u : Setup) (envs : ℕ → Env) where
  -- Nothing raises on the event.
  abbrev pub IsTakenIn : DeviceEvent → Type 0
  IsTakenIn e = (fits d e ≡ true) × ((user : String) × (user_of d (get "user" e.extra) ≡ some user))

  -- The events of a batch as the loop works on them, each with the clock and the keys of its turn.
  abbrev pub turns : ℕ → List DeviceEvent → List (Env × Event)
  turns n [] = []
  turns n (e ∷ es) =
      (envs n, event_of d (value_or "" (user_of d (get "user" e.extra))) e) ∷ turns (suc n) es

  one_more : (p : ℕ × State) → ◌≡◌ {A = ℕ × State} (1 + p.0, p.1) (suc p.0, p.1)
  one_more p = ap (λ k. (k, p.1)) {x = 1 + p.0} (omega arith)

  -- On a batch on which nothing raises the handler is the plain loop over its events.
  pub handle_events-ingest_events :
      (n : ℕ) (es : List DeviceEvent) (st : State)
      → All IsTakenIn es
      → handle_events d u envs n es st ≡ ingest_events u (turns n es) st
  unfolding handle_events ingest_events
  handle_events-ingest_events n [] st a = refl
  handle_events-ingest_events n (e ∷ es) st ((ok_size, (user, kept)), a) =
      let rest =
        handle_events-ingest_events (suc n) es (process_event u (envs n) (event_of d user e) st)
          a in
      rw (handle_event-fits d u (envs n) e st ok_size, kept)
        (ap (λ p. (1 + p.0, p.1)) rest ∙ one_more _)
