-- ===== src/Auth/Window.antt =====
-- The rate limit holds in every window.
use insider_threat_detection.Common.{
  ℕ, ◌≤◌, ◌<◌, String, ◌≡◌, refl, sym, ◌∙◌, inl, inr, true, ◌&&◌, List, [], ◌∷◌, ◌++◌, arith, ◌==◌,
  if◌then◌else◌, Bool-cases, eq_of_==, length, select, select-select, length-append, select-append,
}
use insider_threat_detection.Auth.{Settings, Limiter, in_window, admit}

module _ (s : Settings) where
  -- Requests in the order of their arrival, each with its address and time; the times at which those
  -- of one address were admitted, newest first.
  abbrev pub admitted : String → List (String × ℕ) → Limiter s → List ℕ → List ℕ
  admitted ip [] limiter sofar = sofar
  admitted ip ((other, now) ∷ requests) limiter sofar =
      let step = admit s now other limiter in
      admitted ip requests step.1 (if (other == ip) && step.0 then now ∷ sofar else sofar)

  -- No more than the maximum in the window that ends with each of the times.
  abbrev pub IsLimited : List ℕ → Type 0
  IsLimited [] = Unit {0}
  IsLimited (t ∷ older) =
      (length (select (in_window s t) (t ∷ older)) ≤ s.rate_limit_max) × IsLimited older

  abbrev pub Later : ℕ → List (String × ℕ) → Type 0
  Later now [] = Unit {0}
  Later now ((ip, t) ∷ requests) = (now ≤ t) × Later t requests

  -- The limiter has as many entries in any later window as were admitted.
  abbrev Agrees : ℕ → String → Limiter s → List ℕ → Type 0
  Agrees last ip limiter sofar =
      (now : ℕ)
      → last ≤ now
      → length (select (in_window s now) (limiter ip)) ≡ length (select (in_window s now) sofar)

  module _ (ip : String) where
    times-admit :
        (now : ℕ) (other : String) (limiter : Limiter s)
        → (admit s now other limiter).1 ip ≡ (
            if other == ip
            then (if (admit s now other limiter).0
                then select (in_window s now) (limiter other) ++ now ∷ []
                else select (in_window s now) (limiter other))
            else limiter ip)
    unfolding admit
    times-admit now other limiter = ground arith

    admit-below :
        (now : ℕ) (limiter : Limiter s)
        → (admit s now ip limiter).0 ≡ true
        → length (select (in_window s now) (limiter ip)) < s.rate_limit_max
    unfolding admit
    admit-below now limiter ok = ground (arith, ok)

    kept :
        (now later : ℕ) (times : List ℕ)
        → now ≤ later
        → select (in_window s later) (select (in_window s now) times)
          ≡ select (in_window s later) times
    kept now later times le =
        select-select (in_window s later) (in_window s now) times
          (λ t still. ground (arith, still, le))

    kept-now :
        (now later : ℕ) (times : List ℕ)
        → now ≤ later
        → length (select (in_window s later) (select (in_window s now) times ++ now ∷ []))
          ≡ length (select (in_window s later) (now ∷ times))
    kept-now now later times le =
        rw (select-append, kept now later times le, length-append) (ground arith)

    one_more :
        (now later : ℕ) (xs ys : List ℕ)
        → length (select (in_window s later) xs) ≡ length (select (in_window s later) ys)
        → length (select (in_window s later) (now ∷ xs))
          ≡ length (select (in_window s later) (now ∷ ys))
    one_more now later xs ys e = ground (arith, e)

    Agrees-admit :
        (last now : ℕ) (other : String) (limiter : Limiter s) (sofar : List ℕ)
        → last ≤ now
        → Agrees last ip limiter sofar
        → Agrees now ip
            (admit s now other limiter).1
            (if (other == ip) && (admit s now other limiter).0 then now ∷ sofar else sofar)
    Agrees-admit last now other limiter sofar le agrees later after =
        rw times-admit (elim (Bool-cases (other == ip)) [
          | inr there ↦ rw there (agrees later (omega (arith, le, after)))
          | inl here ↦ elim (Bool-cases (admit s now other limiter).0) [
            | inr full ↦
                rw (here, full, kept now later (limiter other) after, eq_of_== other ip here)
                  (agrees later (omega (arith, le, after)))
            | inl ok ↦
                rw (here, ok)
                  (kept-now now later (limiter other) after
                    ∙ rw (eq_of_== other ip here) (
                        one_more now later (limiter ip) sofar
                          (agrees later (omega (arith, le, after)))))
          ]
        ])

    IsLimited-admit :
        (last now : ℕ) (other : String) (limiter : Limiter s) (sofar : List ℕ)
        → 0 < s.rate_limit_window_secs
        → last ≤ now
        → Agrees last ip limiter sofar
        → IsLimited sofar
        → IsLimited (if (other == ip) && (admit s now other limiter).0 then now ∷ sofar else sofar)
    IsLimited-admit last now other limiter sofar w le agrees lim = elim (Bool-cases (other == ip)) [
      | inr there ↦ rw there lim
      | inl here ↦ elim (Bool-cases (admit s now other limiter).0) [
        | inr full ↦ rw (here, full) lim
        | inl ok ↦
            rw (here, ok)
              (
                ground (
                  arith,
                  agrees now le,
                  admit-below now limiter (rw (sym (eq_of_== other ip here)) ok),
                  w,
                ),
                lim,
              )
      ]
    ]

    admitted_from :
        (last : ℕ) (requests : List (String × ℕ)) (limiter : Limiter s) (sofar : List ℕ)
        → 0 < s.rate_limit_window_secs
        → Later last requests
        → Agrees last ip limiter sofar
        → IsLimited sofar
        → IsLimited (admitted ip requests limiter sofar)
    admitted_from last [] limiter sofar w l a h = h
    admitted_from last ((other, now) ∷ requests) limiter sofar w l a h =
        admitted_from now requests _ _ w l.1 (Agrees-admit last now other limiter sofar l.0 a)
          (IsLimited-admit last now other limiter sofar w l.0 a h)

  -- Whatever requests arrive in the order of their times at a fresh limiter with a window that is not
  -- empty, no window that ends with an admitted request of an address has more admitted requests of
  -- it than the maximum.
  pub admitted-IsLimited :
      (ip : String) (requests : List (String × ℕ))
      → 0 < s.rate_limit_window_secs
      → Later 0 requests
      → IsLimited (admitted ip requests (λ other. []) [])
  admitted-IsLimited ip requests w l =
      admitted_from ip 0 requests (λ other. []) [] w l (λ now le. refl) tt
