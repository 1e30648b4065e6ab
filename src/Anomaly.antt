-- ===== src/Anomaly.antt =====
-- server/detection/anomaly.py, and the view of server/routers/analytics.py that asks for a score.
pub mod Bounds
use insider_threat_detection.Common.{
  ℕ, ◌+◌, String, ◌≡◌, Bool, true, ◌||◌, Option, none, some, List, [], ◌∷◌, ◌++◌, map, ◌==◌, ltb,
  leb, if◌then◌else◌, length, any,
}

-- Floats, with the comparison `<`, of which the code needs that -1 < 0 < 1 and -1 < 1.
pub record Float : Type 1 where
  pub F : Type 0
  pub of_nat : ℕ → F
  pub minus_one : F
  pub add : F → F → F
  pub sub : F → F → F
  pub mul : F → F → F
  pub div : F → F → F
  pub sqrt : F → F
  pub abs : F → F
  pub lt : F → F → Bool
  pub minus_one-lt-zero : lt minus_one (of_nat 0) ≡ true
  pub zero-lt-one : lt (of_nat 0) (of_nat 1) ≡ true
  pub minus_one-lt-one : lt minus_one (of_nat 1) ≡ true

-- The fields of an event that are read.
pub record AnomalyEvent : Type 0 where
  pub device_id : String
  pub transfer_bytes : ℕ
  pub timestamp : String

-- The hour of a timestamp (`none` if it does not parse) and the hour now.
pub record HourReading : Type 0 where
  pub hour_of : String → Option ℕ
  pub current_hour : ℕ

abbrev pub after_hours_start : ℕ
after_hours_start = 22

abbrev pub after_hours_end : ℕ
after_hours_end = 6

abbrev pub hour_or : ℕ → Option ℕ → ℕ
hour_or now none = now
hour_or now (some hour) = hour

-- The devices of the events, each once.
abbrev pub distinct : List String → List String
distinct [] = []
distinct (d ∷ ds) = let rest = distinct ds in if any (λ e. e == d) rest then rest else d ∷ rest

abbrev pub sum_nat : List ℕ → ℕ
sum_nat [] = 0
sum_nat (n ∷ ns) = n + sum_nat ns

module _ (fl : Float) where
  open fl use {F, of_nat, add, sub, mul, div, sqrt, abs, lt}

  pub record Features : Type 0 where
    pub event_count : F
    pub unique_devices : F
    pub total_bytes : F
    pub hour : F
    pub after_hours : F

  abbrev pub is_after_hours : ℕ → F
  is_after_hours hour =
      if leb after_hours_start hour || ltb hour after_hours_end then of_nat 1 else of_nat 0

  unfoldable pub extract_features : HourReading → List AnomalyEvent → List Features
  extract_features r events =
      map
        (λ e.
          let hour : ℕ = hour_or r.current_hour (r.hour_of e.timestamp) in
          record {
            event_count = of_nat (length events);
            unique_devices = of_nat (length (distinct (map (λ e. e.device_id) events)));
            total_bytes = of_nat (sum_nat (map (λ e. e.transfer_bytes) events));
            hour = of_nat hour;
            after_hours = is_after_hours hour;
          })
        events

  -- scikit-learn, where it is installed: the scores of a forest that was trained, `none` where it
  -- raises.
  abbrev pub Forest : Type 0
  Forest = Option (List Features → Features → Option F)

  pub record Detector : Type 0 where
    pub model : Option (Features → Option F)
    pub training_features : List Features

  abbrev pub new_detector : Detector
  new_detector = record { model = none; training_features = [] }

  abbrev pub trained : Forest → List Features → Detector → Option (Features → Option F)
  trained none features d = d.model
  trained (some forest) features d =
      if leb 10 (length features) then some (forest features) else d.model

  abbrev pub fit_features : Forest → List Features → Detector → Detector
  fit_features forest [] d = d
  fit_features forest (f ∷ fs) d = record {
    model = trained forest (f ∷ fs) d;
    training_features = f ∷ fs;
  }

  unfoldable pub fit : Forest → HourReading → List AnomalyEvent → Detector → Detector
  unfolding extract_features
  fit forest r events d = fit_features forest (extract_features r events) d

  -- `max(-1.0, min(1.0, x))`, as Python compares.
  unfoldable pub clamp : F → F
  clamp x =
      let y : F = if lt x (of_nat 1) then x else of_nat 1 in
      if lt fl.minus_one y then y else fl.minus_one

  abbrev pub sum : F → List F → F
  sum acc [] = acc
  sum acc (x ∷ xs) = sum (add acc x) xs

  abbrev pub mean : List F → F
  mean xs = div (sum (of_nat 0) xs) (of_nat (length xs))

  abbrev pub deviation : List F → F → F
  deviation vals m =
      let variance : F = mean (map (λ v. mul (sub v m) (sub v m)) vals) in
      if lt (of_nat 0) variance then sqrt variance else of_nat 1

  -- `abs(x - mean) / std if std else 0.0`: `std` is no NaN, and false if it is zero.
  abbrev pub z_of : F → F → F → F
  z_of x m std =
      if lt (of_nat 0) std || lt std (of_nat 0) then div (abs (sub x m)) std else of_nat 0

  abbrev pub columns : List (Features → F)
  columns =
      (λ f. f.event_count)
      ∷ (λ f. f.unique_devices)
      ∷ (λ f. f.total_bytes)
      ∷ (λ f. f.hour)
      ∷ (λ f. f.after_hours)
      ∷ []

  abbrev pub zscore : List Features → Features → (Features → F) → F
  zscore training feature column =
      let vals : List F = map column training in
      z_of (column feature) (mean vals) (deviation vals (mean vals))

  abbrev pub least_two : F → F
  least_two x = if lt x (of_nat 2) then x else of_nat 2

  unfoldable pub zscore_anomaly : List Features → Features → F
  unfolding clamp
  zscore_anomaly [] feature = of_nat 0
  zscore_anomaly (t ∷ ts) feature =
      clamp
        (sub (of_nat 1) (div (least_two (mean (map (zscore (t ∷ ts) feature) columns))) (of_nat 1)))

  abbrev pub last_feature : Features → List Features → Features
  last_feature f [] = f
  last_feature f (g ∷ gs) = last_feature g gs

  abbrev pub scored : Detector → Features → Option F → F
  scored d feature none = zscore_anomaly d.training_features feature
  scored d feature (some s) = clamp s

  abbrev pub model_score : Option (Features → Option F) → Features → Option F
  model_score none feature = none
  model_score (some f) feature = f feature

  abbrev pub score_features : Detector → List Features → F
  score_features d [] = of_nat 0
  score_features d (f ∷ fs) =
      let current : Features = last_feature f fs in scored d current (model_score d.model current)

  unfoldable pub score : HourReading → AnomalyEvent → List AnomalyEvent → Detector → F
  unfolding extract_features zscore_anomaly clamp
  score r event recent d = score_features d (extract_features r (recent ++ event ∷ []))

  -- `recent[:-1]` and `recent[-1]`
  abbrev pub but_last : AnomalyEvent → List AnomalyEvent → List AnomalyEvent × AnomalyEvent
  but_last e [] = ([], e)
  but_last e (f ∷ fs) = let (front, last') = but_last f fs in (e ∷ front, last')

  -- The score of the view, for the recent events of the host.
  unfoldable pub get_anomaly : Forest → HourReading → List AnomalyEvent → F
  unfolding fit score
  get_anomaly forest r [] = of_nat 0
  get_anomaly forest r (e ∷ []) = of_nat 0
  get_anomaly forest r (e ∷ (f ∷ fs)) =
      let (front, last') = but_last e (f ∷ fs) in
      score r last' front (fit forest r front new_detector)
