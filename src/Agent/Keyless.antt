-- ===== src/Agent/Keyless.antt =====
-- The headers of the agent's requests (agent/transport.py, anchor_scheduler.py and integrity.py), and
-- what a server with a key makes of them.
use mathlib.Core.List.{append-nil, append_assoc}
use text.Mathlib.TextLemmas.{cons≢nil, append-eq-nil_iff}
use insider_threat_detection.Common.{
  ℕ, ◌+◌, ◌≤◌, String, ◌≡◌, refl, sym, ◌∙◌, ◌≢◌, ◌⊎◌, inl, inr, Bool, false, Option, none, some,
  List, [], ◌∷◌, ◌++◌, arith, nat_eq, length, length-append, ==-false_of_ne,
}
use insider_threat_detection.Json.{Dict}
use insider_threat_detection.Auth.{
  Settings, Request, Limiter, status_of, parse_api_keys, role_by, get_caller_role, text_append,
  require_api_key,
}
use insider_threat_detection.Database.{Env}
use insider_threat_detection.Queue.{Codec, peek}
use insider_threat_detection.Queue.Fifo.{IsQueue, pending}
use insider_threat_detection.Schema.{Reading}
use insider_threat_detection.Transport.{
  Transport, enqueue, flush, Call, enqueuing, flushing, calls, enqueued, batch_size,
}
use insider_threat_detection.Transport.Poison.{
  request_body, flush_batch_refused, enqueue-delivered, enqueue_free, enqueue_free-IsQueue,
}
use insider_threat_detection.Ingest.{Setup, State}
use insider_threat_detection.Ingest.Handler.{Driver, reply_status, post_events}

-- A request of the agent has a content type for its only header.
abbrev pub agent_request : Option String → Request
agent_request address = record { authorization = none; remote_addr = address }

-- The server asks for a key: there is one in the map of keys, or a shared one.
abbrev pub IsKeyed : Settings → Type 0
IsKeyed s =
    ((entry : String × String) × (entries : List (String × String)) × (parse_api_keys s
        ≡ entry ∷ entries))
    ⊎ (s.api_secret_key ≢ "")

no_shared_key : (key : String) → ("" ≡ text_append "Bearer " key) → ⊥
no_shared_key key p = cons≢nil (append-eq-nil_iff.0 (sym p)).0

unkeyed_role :
    (s : Settings) (keys : List (String × String))
    → s.api_secret_key ≢ ""
    → role_by s keys "" ≡ none
unkeyed_role s [] n =
    rw
      (
        ==-false_of_ne s.api_secret_key "" n,
        ==-false_of_ne "" (text_append "Bearer " s.api_secret_key) (no_shared_key s.api_secret_key),
      )
      refl
unkeyed_role s (entry ∷ entries) n = refl

-- A server that asks for a key takes no request of an agent for anyone's.
pub agent_request-unauthorized :
    (s : Settings) (address : Option String)
    → IsKeyed s
    → get_caller_role s (agent_request address) ≡ none
unfolding get_caller_role
agent_request-unauthorized s address (inl (entry, entries, keys)) = rw keys refl
agent_request-unauthorized s address (inr n) = unkeyed_role s (parse_api_keys s) n

module _ (d : Driver) (u : Setup) (r : Reading) (settings : Settings) where
  -- `_post_events` returns True: the server, with its clocks and keys, its limiter and its state at the
  -- time, answers the batch with 200.
  abbrev pub delivers : (ℕ → Env) → ℕ → Option String → Limiter settings × State → List Dict → Bool
  delivers envs now address s batch =
      nat_eq
        (status_of reply_status
          (post_events d u r settings envs now (agent_request address) (some (request_body batch))
            s).0)
        200

  -- Each flush is answered by the server, as it is then.
  abbrev pub IsAnswered : List Call → Type 0
  IsAnswered [] = Unit
  IsAnswered (enqueuing event ∷ rest) = IsAnswered rest
  IsAnswered (flushing post ∷ rest) =
      ((envs : ℕ → Env) × (now : ℕ) × (address : Option String) × (s : Limiter settings × State)
        × ((batch : List Dict) → post batch ≡ delivers envs now address s batch))
      × IsAnswered rest

  refused :
      (keyed : IsKeyed settings) (envs : ℕ → Env) (now : ℕ) (address : Option String)
      (s : Limiter settings × State) (batch : List Dict)
      → delivers envs now address s batch ≡ false
  unfolding post_events require_api_key
  refused keyed envs now address s batch =
      rw (agent_request-unauthorized settings address keyed) refl

  module _ (keyed : IsKeyed settings) (c : Codec) (max_queue_size : ℕ) where
    flush_unanswered :
        (post : List Dict → Bool) (t : Transport c)
        → ((batch : List Dict) → post batch ≡ false)
        → flush c post t ≡ t
    unfolding flush
    flush_unanswered post t refusal =
        flush_batch_refused r c post (peek c batch_size t.queue) t
          (refusal (peek c batch_size t.queue))

    -- While the server asks for a key, no sequence of enqueues and flushes delivers anything to it: all
    -- that was in a well-formed queue and comes into it stays there, for as long as the queue has room.
    pub keyed-undelivered :
        (cs : List Call) (t : Transport c)
        → IsAnswered cs
        → IsQueue c t.queue
        → length (pending c t.queue) + length (enqueued cs) ≤ max_queue_size
        → ((calls c max_queue_size cs t).delivered ≡ t.delivered)
          × (pending c (calls c max_queue_size cs t).queue ≡ pending c t.queue ++ enqueued cs)
    keyed-undelivered [] t a q room = (refl, sym (append-nil (pending c t.queue)))
    keyed-undelivered (enqueuing event ∷ cs) t a q room =
        let grown = enqueue_free r c max_queue_size event t (omega (arith, room)) in
        let rest =
          keyed-undelivered cs (enqueue c max_queue_size event t) a
            (enqueue_free-IsQueue r c max_queue_size event t q (omega (arith, room)))
            (rw (grown, length-append (pending c t.queue) (event ∷ [])) (omega (arith, room))) in
        (
          rest.0 ∙ enqueue-delivered r c max_queue_size event t,
          rest.1 ∙ rw grown (append_assoc (pending c t.queue) (event ∷ []) (enqueued cs)),
        )
    keyed-undelivered (flushing post ∷ cs) t ((envs, now, address, s, same), a) q room =
        rw
          (
            calls,
            flush_unanswered post t (λ batch. same batch ∙ refused keyed envs now address s batch),
          )
          (keyed-undelivered cs t a q room)
