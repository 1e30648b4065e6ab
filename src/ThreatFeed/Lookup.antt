-- ===== src/ThreatFeed/Lookup.antt =====
-- Which devices the feed knows.
use insider_threat_detection.Common.{
  String, ◌≡◌, refl, ◌∙◌, inl, inr, Bool, true, false, ◌&&◌, ◌||◌, Option, none, some, List, [],
  ◌∷◌, arith, ◌==◌, if◌then◌else◌, Bool-cases, eq_of_==, any, any-append,
}
use insider_threat_detection.ThreatFeed.{
  TextOps, has, add, Feed, Sources, normalise, is_entry, parse_into, load, union, reload,
  ensure_loaded, is_known_malicious, add_entry,
}

has-add : (x y : String) (xs : List String) → has y (add x xs) ≡ (has y xs || x == y)
has-add x y xs = elim (Bool-cases (has x xs)) [
  | inl old ↦ rw old (elim (Bool-cases (x == y)) [
    | inl e ↦ rw (e, ← eq_of_== x y e, old)
    | inr e ↦ rw e (ground arith)
  ])
  | inr new ↦ rw (new, any-append) (ground arith)
]

module _ (o : TextOps) where
  has-parse_into :
      (x : String) (result lines : List String)
      → has x (parse_into o result lines) ≡ (
          has x result
          || any (λ line. is_entry o (o.strip line) && normalise o (o.strip line) == x) lines)
  unfolding parse_into
  has-parse_into x result [] = ground arith
  has-parse_into x result (line ∷ lines) =
      has-parse_into x
        (if is_entry o (o.strip line) then add (normalise o (o.strip line)) result else result)
        lines
      ∙ ground (arith, has-add (normalise o (o.strip line)) x result)

  has-union : (x : String) (xs ys : List String) → has x (union o xs ys) ≡ (has x xs || has x ys)
  has-union x xs [] = ground arith
  has-union x xs (y ∷ ys) = has-union x (add y xs) ys ∙ ground (arith, has-add y x xs)

  -- Whether a line of the source, stripped, is an entry that reads as the text.
  abbrev pub names_device : Option (List String) → String → Bool
  names_device none x = false
  names_device (some lines) x =
      any (λ line. is_entry o (o.strip line) && normalise o (o.strip line) == x) lines

  has-load :
      (x : String) (source : Option (List String)) → has x (load o source) ≡ names_device source x
  has-load x none = refl
  has-load x (some lines) = has-parse_into x [] lines

  -- A device is reported after a reload exactly if a line of one of the two sources, stripped, is an
  -- entry (not empty, no comment, one colon) with the device's normalised text.
  pub is_known_malicious-reload :
      (sources : Sources) (dev : String) (feed : Feed)
      → (is_known_malicious o sources dev (reload o sources feed).1).0 ≡ (
          names_device sources.local (normalise o dev)
          || names_device sources.remote (normalise o dev))
  unfolding is_known_malicious
  is_known_malicious-reload sources dev feed =
      has-union (normalise o dev) (load o sources.local) (load o sources.remote)
      ∙ rw (has-load (normalise o dev) sources.local, has-load (normalise o dev) sources.remote)
          refl

  ensure_loaded-loaded :
      (sources : Sources) (feed : Feed) → (ensure_loaded o sources feed).loaded ≡ true
  unfolding ensure_loaded
  ensure_loaded-loaded sources feed = ground arith

  ensure_loaded_done :
      (sources : Sources) (feed : Feed) → feed.loaded ≡ true → ensure_loaded o sources feed ≡ feed
  unfolding ensure_loaded
  ensure_loaded_done sources feed e = rw e

  -- Adding an entry makes exactly the devices that equal it up to case and outer blanks malicious,
  -- and loads the feed first if that has not happened.
  pub is_known_malicious-add_entry :
      (sources : Sources) (entry dev : String) (feed : Feed)
      → (is_known_malicious o sources dev (add_entry o sources entry feed)).0
        ≡ ((is_known_malicious o sources dev feed).0 || normalise o entry == normalise o dev)
  unfolding is_known_malicious add_entry
  is_known_malicious-add_entry sources entry dev feed =
      rw
        (ensure_loaded_done sources
          (record (ensure_loaded o sources feed) {
            known_malicious =
                add (normalise o entry) (ensure_loaded o sources feed).known_malicious;
          })
          (ensure_loaded-loaded sources feed))
        (has-add (normalise o entry) (normalise o dev)
          (ensure_loaded o sources feed).known_malicious)

  -- Looking a device up a second time finds the feed loaded, and answers the same.
  pub is_known_malicious_again :
      (sources later : Sources) (dev other : String) (feed : Feed)
      → let (answer, loaded) = is_known_malicious o sources dev feed in
        (is_known_malicious o later dev loaded ≡ (answer, loaded))
        × ((is_known_malicious o later other loaded).0
            ≡ (is_known_malicious o sources other feed).0)
  unfolding is_known_malicious
  is_known_malicious_again sources later dev other feed = ground arith
