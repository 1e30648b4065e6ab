-- ===== src/Examples/Data.antt =====
-- Concrete libraries, clocks and events.
use text.Mathlib.TextLemmas.{cons≢nil}
use native.Mathlib.Decide.{ℕ_discrete}
use insider_threat_detection.Common.{
  ℕ, suc, ◌≤◌, ◌<◌, String, refl, ap, ◌≢◌, inl, inr, false, Option, none, some, List, [], ◌∷◌,
  arith, ◌==◌, leb, if◌then◌else◌, Bool-cases, eq_of_==, ne_of_==-false, All,
}
use insider_threat_detection.Json.{Json, str, Dict, get, sorted_get}
use insider_threat_detection.Chain.{Hasher}
use insider_threat_detection.Logger.{Cipher}
use insider_threat_detection.Event.{Event, connected}
use insider_threat_detection.Database.{Env, empty_db}
use insider_threat_detection.Database.Audit.Linked.{IsFresh}
use insider_threat_detection.ThreatFeed.{TextOps, Sources}
use insider_threat_detection.Metrics.{no_metrics}
use insider_threat_detection.RuleConfig.{Config}
use insider_threat_detection.AlertManager.{Server}
use insider_threat_detection.Ingest.{Setup, State}
use insider_threat_detection.Queue.{Codec}

-- A digest that is one letter longer than the previous hash.
abbrev pub digest_text : Option Json → String
digest_text (some (str s)) = String.◌∷◌ "h" s
digest_text _ = String.◌∷◌ "h" ""

pub digest_text-ne-empty : (v : Option Json) → digest_text v ≢ ""
digest_text-ne-empty (some (str s)) = cons≢nil
digest_text-ne-empty _ = cons≢nil

String-discrete : Discrete String
String-discrete s t = elim (Bool-cases (s == t)) [
  | inl e ↦ yes (eq_of_== s t e)
  | inr e ↦ no (ne_of_==-false s t e)
]

pub Dict-discrete : Discrete Dict
Dict-discrete = hlevel (String-discrete, ℕ_discrete)

abbrev pub toy_hasher : Hasher
toy_hasher = record {
  Bytes = Dict;
  Bytes_eq = Dict-discrete;
  dumps = λ d. d;
  sha256_hex = λ d. digest_text (get "prev_hash" d);
  dumps_inj = λ r s p k. ap (sorted_get k) p;
  sha256_hex-ne-empty = λ d. digest_text-ne-empty (get "prev_hash" d);
}

abbrev pub toy_cipher : Cipher
toy_cipher = record {
  Key = ℕ;
  Sealed = Dict;
  seal = λ k n d. d;
  unseal = λ k d. some d;
  unseal-seal = λ k n d. refl;
}

abbrev pub toy_codec : Codec
toy_codec = record { Text = Dict; dumps = λ d. d; loads = λ d. d; loads-dumps = λ d. refl }

abbrev pub highest_key : List ℕ → ℕ
highest_key [] = 0
highest_key (i ∷ ids) = let rest = highest_key ids in if leb i rest then rest else i

abbrev pub at : ℕ → Env
at now = record { now = now; fresh = λ ids. suc (highest_key ids) }

below-highest : (n : ℕ) (ids : List ℕ) → highest_key ids ≤ n → All (λ i. i < suc n) ids
below-highest n [] h = tt
below-highest n (i ∷ ids) h = ground (arith, h, below-highest n ids)

pub at-IsFresh : (now : ℕ) → IsFresh (at now)
at-IsFresh now ids = below-highest (highest_key ids) ids (omega arith)

abbrev pub plugged : String → Event
plugged device = record {
  event_type = connected;
  device_id = device;
  hostname = "desk-1";
  serial = "S1";
  manufacturer = "m";
  product = "p";
  bus_path = "1-2";
  timestamp = "";
  transfer_bytes = 500;
  user = "ann";
  utc_offset_hours = none;
  extra = ("user", str "ann") ∷ [];
}

abbrev pub defaults : Config
defaults = record {
  after_hours_start = 20;
  after_hours_end = 7;
  volume_threshold_bytes = 1000;
  rapid_cycle_count = 2;
  rapid_cycle_window_secs = 300;
  alert_dedup_window_secs = 300;
}

abbrev pub toy_text : TextOps
toy_text = record {
  strip = λ s. s;
  lower = λ s. s;
  strip_idem = λ s. refl;
  lower_idem = λ s. refl;
  strip-lower = λ s. refl;
}

abbrev pub no_sources : Sources
no_sources = record { local = none; remote = none }

abbrev pub setup : Setup
setup = record {
  hasher = toy_hasher;
  text_ops = toy_text;
  sources = no_sources;
  honeypots = [];
  strptime = λ s. none;
  max_time = 1000000000;
  dedup_window_secs = 300;
}

abbrev pub fresh_server : Server
fresh_server = record { db = empty_db; metrics = no_metrics; outbox = [] }

abbrev pub fresh_state : State
fresh_state = record {
  server = fresh_server;
  feed = record { known_malicious = []; loaded = false };
  config = defaults;
}

-- Two connections of one device to one host, 100 seconds apart.
abbrev pub batch : List (Env × Event)
batch = (at 40000, plugged "1234:abcd") ∷ (at 40100, plugged "1234:abcd") ∷ []
