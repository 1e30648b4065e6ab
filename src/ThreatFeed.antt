-- ===== src/ThreatFeed.antt =====
-- server/detection/threat_feed.py and server/detection/honeypot.py
pub mod Lookup
use Prim.Native.Char.{code}
use text.Mathlib.Text.{starts_with}
use insider_threat_detection.Common.{
  ℕ, suc, String, ◌≡◌, Bool, true, not, ◌&&◌, ◌||◌, Option, none, some, List, [], ◌∷◌, ◌++◌, ◌==◌,
  nat_eq, if◌then◌else◌, is_empty, length, any,
}

-- `str.strip` and `str.lower`, of which the feed needs that each does nothing the second time, and
-- that lowering a stripped text leaves nothing to strip.
pub record TextOps : Type 0 where
  pub strip : String → String
  pub lower : String → String
  pub strip_idem : (s : String) → strip (strip s) ≡ strip s
  pub lower_idem : (s : String) → lower (lower s) ≡ lower s
  pub strip-lower : (s : String) → strip (lower (strip s)) ≡ lower (strip s)

-- `x in xs` and `xs.add(x)` on a set of texts.
abbrev pub has : String → List String → Bool
has x = any (λ y. y == x)

abbrev pub add : String → List String → List String
add x xs = if has x xs then xs else xs ++ x ∷ []

-- `len(line.split(":")) - 1`
unfoldable pub colons : String → ℕ
colons String.[] = 0
colons (String.◌∷◌ c s) = let rest = colons s in if nat_eq (code c) b':' then suc rest else rest

pub record Feed : Type 0 where
  pub known_malicious : List String
  pub loaded : Bool

-- The lines of the two sources; `none` is a source that is not configured or cannot be read.
pub record Sources : Type 0 where
  pub local : Option (List String)
  pub remote : Option (List String)

module _ (o : TextOps) where
  abbrev pub normalise : String → String
  normalise vid_pid = o.lower (o.strip vid_pid)

  abbrev pub is_entry : String → Bool
  is_entry line = not (is_empty line || starts_with line "#") && nat_eq (colons line) 1

  -- The loop of `_parse_lines`, with the set so far.
  unfoldable pub parse_into : List String → List String → List String
  unfolding colons
  parse_into result [] = result
  parse_into result (line ∷ lines) =
      parse_into (if is_entry (o.strip line) then add (normalise (o.strip line)) result else result)
        lines

  abbrev pub parse_lines : List String → List String
  parse_lines = parse_into []

  abbrev pub load : Option (List String) → List String
  load none = []
  load (some lines) = parse_lines lines

  -- `local | remote`
  abbrev pub union : List String → List String → List String
  union xs [] = xs
  union xs (y ∷ ys) = union (add y xs) ys

  unfoldable pub reload : Sources → Feed → ℕ × Feed
  unfolding parse_into
  reload sources feed =
      let combined = union (load sources.local) (load sources.remote) in
      (length combined, record { known_malicious = combined; loaded = true })

  unfoldable pub ensure_loaded : Sources → Feed → Feed
  unfolding reload
  ensure_loaded sources feed = if feed.loaded then feed else (reload sources feed).1

  unfoldable pub is_known_malicious : Sources → String → Feed → Bool × Feed
  unfolding ensure_loaded
  is_known_malicious sources device_id feed =
      let feed' = ensure_loaded sources feed in
      (has (normalise device_id) feed'.known_malicious, feed')

  unfoldable pub add_entry : Sources → String → Feed → Feed
  unfolding ensure_loaded
  add_entry sources vid_pid feed =
      let feed' = ensure_loaded sources feed in
      record feed' { known_malicious = add (normalise vid_pid) feed'.known_malicious }

  unfoldable pub get_feed : Sources → Feed → List String × Feed
  unfolding ensure_loaded
  get_feed sources feed = let feed' = ensure_loaded sources feed in (feed'.known_malicious, feed')

  -- The entries of ITDN_HONEYPOT_VIDS, already split at the commas.
  unfoldable pub honeypot_vids : List String → List String
  honeypot_vids [] = []
  honeypot_vids (v ∷ vs) =
      if is_empty (o.strip v) then honeypot_vids vs else o.strip v ∷ honeypot_vids vs

-- The membership test is exact: nothing is normalised.
unfoldable pub is_honeypot_device : List String → String → Bool
is_honeypot_device vids device_id = has device_id vids
