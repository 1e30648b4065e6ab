-- ===== src/Logging.antt =====
-- server/logging_config.py and agent/logging_config.py: setup_logging, which the two write alike.
use mathlib.Core.Option.{some_inj}
use insider_threat_detection.Common.{
  ◌↔◌, arith, ℕ, String, ◌≡◌, sym, ap, Bool, true, not, Option, none, some, List, [], ◌∷◌, ◌==◌,
  if◌then◌else◌, value_or,
}

-- An attribute of the module `logging`: a number, or anything else, such as the text BASIC_FORMAT.
pub data Attribute : Type 0 where
  level : ℕ → Attribute
  other : Attribute

-- `os.environ`, `str.upper`, `str.lower`, the attributes of `logging` by name, and whether one of the
-- two versions of python-json-logger can be imported.
pub record LoggingEnvironment : Type 0 where
  pub environ : String → Option String
  pub upper : String → String
  pub lower : String → String
  pub attribute : String → Option Attribute
  pub has_json_logger : Bool

pub data Formatter : Type 0 where
  json plain : Formatter

-- The root logger: the formatters of its handlers, and its level.
pub record Root : Type 0 where
  pub handlers : List Formatter
  pub level : ℕ

module _ (e : LoggingEnvironment) where
  -- `getattr(logging, level_name, logging.INFO)`
  abbrev pub log_level : Attribute
  log_level =
      value_or (level 20) (e.attribute (e.upper (value_or "INFO" (e.environ "ITDN_LOG_LEVEL"))))

  abbrev pub use_json : Bool
  use_json = not (e.lower (value_or "true" (e.environ "ITDN_LOG_JSON")) == "false")

  abbrev pub formatter : Formatter
  formatter = if use_json then (if e.has_json_logger then json else plain) else plain

  -- `setLevel` raises on what is no number, and the process does not start.
  abbrev pub with_level : Attribute → Option Root
  with_level (level n) = some (record { handlers = formatter ∷ []; level = n })
  with_level other = none

  unfoldable pub setup_logging : Root → Option Root
  setup_logging root = with_level log_level

  with_level-formatter :
      (a : Attribute) (root : Root) → with_level a ≡ some root → root.handlers ≡ formatter ∷ []
  with_level-formatter (level n) root done = sym (ap (λ r. r.handlers) (some_inj.0 done))
  with_level-formatter other root done = cc

  json_formatter : (formatter ≡ json) ↔ ((use_json ≡ true) × (e.has_json_logger ≡ true))
  json_formatter = (λ p. ground (arith, p), λ p. ground (arith, p))

  -- If the process starts, its root logger has one handler, whatever handlers it had before, and the
  -- records are JSON exactly if that is not switched off and a JSON formatter can be imported.
  pub setup_logging-handlers :
      (before after : Root)
      → setup_logging before ≡ some after
      → (after.handlers ≡ formatter ∷ [])
        × ((formatter ≡ json) ↔ ((use_json ≡ true) × (e.has_json_logger ≡ true)))
  unfolding setup_logging
  setup_logging-handlers before after done =
      (with_level-formatter log_level after done, json_formatter)
