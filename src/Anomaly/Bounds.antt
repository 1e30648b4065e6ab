-- ===== src/Anomaly/Bounds.antt =====
-- The range of the scores.
use insider_threat_detection.Common.{
  ◌≡◌, refl, ◌⊎◌, inl, inr, Bool, true, false, Option, none, some, List, [], ◌∷◌, ◌++◌,
  if◌then◌else◌,
}
use insider_threat_detection.Anomaly.{
  Float, AnomalyEvent, HourReading, Features, Forest, Detector, new_detector, clamp, zscore_anomaly,
  scored, score_features, score, fit, but_last, extract_features, get_anomaly,
}

module _ (fl : Float) where
  -- -1 < x or x = -1, and x < 1 or x = 1: neither comparison holds of a NaN.
  abbrev pub InRange : fl.F → Type 0
  InRange x =
      ((fl.lt fl.minus_one x ≡ true) ⊎ (x ≡ fl.minus_one))
      × ((fl.lt x (fl.of_nat 1) ≡ true) ⊎ (x ≡ fl.of_nat 1))

  InRange-zero : InRange (fl.of_nat 0)
  InRange-zero = (inl fl.minus_one-lt-zero, inl fl.zero-lt-one)

  lower_clamped :
      (b : Bool) (y : fl.F) → (b ≡ true → InRange y) → InRange (if b then y else fl.minus_one)
  lower_clamped true y above = above refl
  lower_clamped false y above = (inr refl, inl fl.minus_one-lt-one)

  upper_clamped :
      (b : Bool) (x : fl.F)
      → (b ≡ true → fl.lt x (fl.of_nat 1) ≡ true)
      → let y : fl.F = if b then x else fl.of_nat 1 in
        (fl.lt y (fl.of_nat 1) ≡ true) ⊎ (y ≡ fl.of_nat 1)
  upper_clamped true x below = inl (below refl)
  upper_clamped false x below = inr refl

  clamp-InRange : (x : fl.F) → InRange (clamp fl x)
  unfolding clamp
  clamp-InRange x =
      lower_clamped _ _ (λ above. (inl above, upper_clamped (fl.lt x (fl.of_nat 1)) x (λ e. e)))

  zscore_anomaly-InRange :
      (training : List (Features fl)) (f : Features fl) → InRange (zscore_anomaly fl training f)
  unfolding zscore_anomaly
  zscore_anomaly-InRange [] f = InRange-zero
  zscore_anomaly-InRange (t ∷ ts) f = clamp-InRange _

  scored-InRange : (d : Detector fl) (f : Features fl) (s : Option fl.F) → InRange (scored fl d f s)
  scored-InRange d f none = zscore_anomaly-InRange d.training_features f
  scored-InRange d f (some s) = clamp-InRange s

  score_features-InRange :
      (d : Detector fl) (fs : List (Features fl)) → InRange (score_features fl d fs)
  score_features-InRange d [] = InRange-zero
  score_features-InRange d (f ∷ fs) = scored-InRange d _ _

  score-InRange :
      (r : HourReading) (e : AnomalyEvent) (recent : List AnomalyEvent) (d : Detector fl)
      → InRange (score fl r e recent d)
  unfolding score
  score-InRange r e recent d = score_features-InRange d (extract_features fl r (recent ++ e ∷ []))

  -- The anomaly score of a host is a number from -1 to 1, both included, and no NaN, whatever its recent
  -- events are and whatever the forest answers, a NaN or an exception included, with scikit-learn and
  -- without.
  pub get_anomaly-InRange :
      (forest : Forest fl) (r : HourReading) (recent : List AnomalyEvent)
      → InRange (get_anomaly fl forest r recent)
  unfolding get_anomaly
  get_anomaly-InRange forest r [] = InRange-zero
  get_anomaly-InRange forest r (e ∷ []) = InRange-zero
  get_anomaly-InRange forest r (e ∷ (f ∷ fs)) =
      score-InRange r (but_last fl e (f ∷ fs)).1 (but_last fl e (f ∷ fs)).0
        (fit fl forest r (but_last fl e (f ∷ fs)).0 (new_detector fl))
