-- ===== src/Examples/Access.antt =====
-- Keys, roles, the rate limit and the settings at concrete requests.
use insider_threat_detection.Database.{empty_db}
use insider_threat_detection.Database.Anchors.{Signing}
use insider_threat_detection.Routes.{Backend, Service, handle, purging}
use insider_threat_detection.Routes.Guards.{IsAllowed, handle-guards}
use insider_threat_detection.Common.{
  ℕ, suc, none, false, String, ◌≡◌, refl, ◌⊎◌, some, List, [], ◌∷◌, arith,
}
use insider_threat_detection.Common.Int.{pos, negsuc}
use insider_threat_detection.Json.{Json, Dict, str, num, obj, field, end}
use insider_threat_detection.Auth.{
  Settings, Request, Outcome, handled, get_caller_role, parse_api_keys,
}
use insider_threat_detection.Auth.Window.{admitted, IsLimited, admitted-IsLimited}
use insider_threat_detection.RuleConfig.Valid.{IsValid, DistinctKeys}
use insider_threat_detection.Examples.Data.{defaults, at, toy_text, no_sources}

abbrev text_of : Json → String
text_of (str s) = s
text_of _ = "?"

abbrev pub settings : Settings
settings = record {
  api_keys = "two keys";
  api_secret_key = "shared";
  rate_limit_max = 2;
  rate_limit_window_secs = 60;
  loads = λ t. some (obj (field "k1" (str "readonly") (field "k2" (str "analyst") end)));
  str_of = text_of;
}

abbrev pub from_reader : Request
from_reader = record { authorization = some "Bearer k1"; remote_addr = some "10.0.0.1" }

reader-role : get_caller_role settings from_reader ≡ some "readonly"
unfolding get_caller_role
reader-role = refl

abbrev add_one : ℕ → Outcome String × ℕ
add_one n = (handled "ok", suc n)

pub two_keys : parse_api_keys settings ≡ ("k1", "readonly") ∷ ("k2", "analyst") ∷ []
unfolding parse_api_keys
two_keys = refl

abbrev requests : List (String × ℕ)
requests = ("a", 5) ∷ ("b", 6) ∷ ("a", 7) ∷ ("a", 8) ∷ ("a", 70) ∷ []

admitted-IsLimited_example : IsLimited settings (admitted settings "a" requests (λ other. []) [])
admitted-IsLimited_example =
    admitted-IsLimited settings "a" requests (omega arith)
      (omega arith, (omega arith, (omega arith, (omega arith, (omega arith, tt)))))

abbrev updates : Dict
updates = ("after_hours_start", num (pos 22)) ∷ ("rapid_cycle_count", num (negsuc 0)) ∷ []

defaults-IsValid : IsValid defaults
defaults-IsValid = record {
  start = omega arith;
  stop = omega arith;
  volume = omega arith;
  count = omega arith;
  window = omega arith;
  dedup = omega arith;
}

updates-DistinctKeys : DistinctKeys updates
updates-DistinctKeys = (refl, (refl, tt))

abbrev signing : Signing
signing = record {
  rsa_sign = λ m. none;
  cert_exists = false;
  rsa_verify = λ m d. false;
  anchor_key = "";
  allow_unsigned_anchors = false;
  fallback_key = "dev";
  hmac_sha256 = λ k m. "mac";
}

abbrev pub backend : Backend
backend = record {
  settings = record settings {
    loads = λ t. some (obj (field "k1" (str "admin") (field "k2" (str "readonly") end)));
  };
  signing = signing;
  text_ops = toy_text;
  sources = no_sources;
  default_retention_days = 90;
}

abbrev pub service : Service
service = record {
  db = empty_db;
  config = defaults;
  feed = record { known_malicious = []; loaded = false };
}

abbrev from_other : Request
from_other = record { authorization = some "Bearer k2"; remote_addr = some "10.0.0.2" }

admin-role : get_caller_role backend.settings from_reader ≡ some "admin"
unfolding get_caller_role
admin-role = refl

other-role : get_caller_role backend.settings from_other ≡ some "readonly"
unfolding get_caller_role
other-role = refl

handle-guards_example :
    ((handle backend (at 9) from_other (purging (some 0)) service).1 ≡ service)
    ⊎ IsAllowed backend (at 9) from_other (purging (some 0))
handle-guards_example = handle-guards backend (at 9) from_other (purging (some 0)) service
