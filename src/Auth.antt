-- ===== src/Auth.antt =====
-- server/auth.py: API keys, roles and the rate limit of the HTTP routes.
pub mod Roles
pub mod Window
use Prim.Native.String.{slice, len}
use text.Mathlib.Text.{starts_with}
use insider_threat_detection.Common.{
  ℕ, suc, ◌+◌, String, Bool, true, false, Option, none, some, List, [], ◌∷◌, ◌++◌, ◌==◌, ltb, leb,
  if◌then◌else◌, is_empty, ◌>>=◌, length, select,
}
use insider_threat_detection.Json.{Json, obj, Fields, end, field}

abbrev pub text_append : String → String → String
text_append = Prim.Native.String.◌++◌

-- server/config.py's values, json.loads (`none` where it raises) and `str` of a JSON value.
pub record Settings : Type 0 where
  pub api_keys : String
  pub api_secret_key : String
  pub rate_limit_max : ℕ
  pub rate_limit_window_secs : ℕ
  pub loads : String → Option Json
  pub str_of : Json → String

-- What the decorators read of a request.
pub record Request : Type 0 where
  pub authorization : Option String
  pub remote_addr : Option String

abbrev pub role_order : List String
role_order = "readonly" ∷ "analyst" ∷ "admin" ∷ []

-- `list.index`, `none` where it raises ValueError
abbrev pub index : String → List String → Option ℕ
index x [] = none
index x (y ∷ ys) = if y == x then some 0 else index x ys >>= λ i. some (suc i)

abbrev pub lookup : String → List (String × String) → Option String
lookup key [] = none
lookup key ((k, v) ∷ entries) = if k == key then some v else lookup key entries

-- What a decorated view does: an error reply of a decorator, or the view's own reply.
pub data Outcome (R : Type 0) : Type 0 where
  unauthorized : Outcome R
  unrecognised_role : Outcome R
  insufficient : String → String → Outcome R
  rate_limited : Outcome R
  handled : R → Outcome R

abbrev pub status_of : {R : Type 0} → (R → ℕ) → Outcome R → ℕ
status_of status unauthorized = 401
status_of status unrecognised_role = 403
status_of status (insufficient _ _) = 403
status_of status rate_limited = 429
status_of status (handled r) = status r

module _ (s : Settings) where
  abbrev pub role_map : Fields → List (String × String)
  role_map end = []
  role_map (field k v fields) = (k, s.str_of v) ∷ role_map fields

  abbrev mapping_of : Option Json → List (String × String)
  mapping_of (some (obj fields)) = role_map fields
  mapping_of _ = []

  unfoldable pub parse_api_keys : List (String × String)
  parse_api_keys = if is_empty s.api_keys then [] else mapping_of (s.loads s.api_keys)

  abbrev pub auth_header : Request → String
  auth_header request = elim request.authorization [ none ↦ "" | some h ↦ h ]

  abbrev pub role_of_token : String → List (String × String) → Option String
  role_of_token header keys_map =
      if starts_with header "Bearer "
      then lookup (slice header (len "Bearer ") (len header)) keys_map
      else none

  abbrev shared_key_role : String → Option String
  shared_key_role header =
      if is_empty s.api_secret_key
      then some "admin"
      else if header == text_append "Bearer " s.api_secret_key
      then some "admin"
      else none

  abbrev pub role_by : List (String × String) → String → Option String
  role_by [] header = shared_key_role header
  role_by (entry ∷ entries) header = role_of_token header (entry ∷ entries)

  unfoldable pub get_caller_role : Request → Option String
  unfolding parse_api_keys
  get_caller_role request = role_by parse_api_keys (auth_header request)

  module _ {S R : Type 0} where
    abbrev pub proceed : (S → R × S) → S → Outcome R × S
    proceed fn st = let (reply, st') = fn st in (handled reply, st')

    abbrev pub by_key : Option String → (S → Outcome R × S) → S → Outcome R × S
    by_key none fn st = (unauthorized, st)
    by_key (some role) fn st = fn st

    unfoldable pub require_api_key : Request → (S → Outcome R × S) → S → Outcome R × S
    unfolding get_caller_role
    require_api_key request fn st = by_key (get_caller_role request) fn st

    abbrev pub by_level :
        String → String → Option ℕ → Option ℕ → (S → Outcome R × S) → S → Outcome R × S
    by_level role minimum_role (some caller) (some required) fn st =
        if ltb caller required then (insufficient role minimum_role, st) else fn st
    by_level role minimum_role _ _ fn st = (unrecognised_role, st)

    abbrev pub by_role : String → Option String → (S → Outcome R × S) → S → Outcome R × S
    by_role minimum_role none fn st = (unauthorized, st)
    by_role minimum_role (some role) fn st =
        by_level role minimum_role (index role role_order) (index minimum_role role_order) fn st

    unfoldable pub require_role : String → Request → (S → Outcome R × S) → S → Outcome R × S
    unfolding get_caller_role
    require_role minimum_role request fn st = by_role minimum_role (get_caller_role request) fn st

  -- `_ip_timestamps`, a defaultdict
  abbrev pub Limiter : Type 0
  Limiter = String → List ℕ

  abbrev pub set_times : String → List ℕ → Limiter → Limiter
  set_times ip times limiter other = if ip == other then times else limiter other

  abbrev pub client : Request → String
  client request = elim request.remote_addr [
    | none ↦ "unknown"
    | some ip ↦ if is_empty ip then "unknown" else ip
  ]

  -- `t > now - RATE_LIMIT_WINDOW_SECS`, where the difference may be negative
  abbrev pub in_window : ℕ → ℕ → Bool
  in_window now t = ltb now (t + s.rate_limit_window_secs)

  -- Whether the request may go on, and the timestamps afterwards.
  unfoldable pub admit : ℕ → String → Limiter → Bool × Limiter
  admit now ip limiter =
      let recent = select (in_window now) (limiter ip) in
      if leb s.rate_limit_max (length recent)
      then (false, set_times ip recent limiter)
      else (true, set_times ip (recent ++ now ∷ []) limiter)

  unfoldable pub rate_limit :
      {S R : Type 0} → ℕ → Request → (S → Outcome R × S) → Limiter × S → Outcome R × (Limiter × S)
  unfolding admit
  rate_limit now request fn (limiter, st) =
      let (ok, limiter') = admit now (client request) limiter in
      if ok
      then (let (reply, st') = fn st in (reply, (limiter', st')))
      else (rate_limited, (limiter', st))
