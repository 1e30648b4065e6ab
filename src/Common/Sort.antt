-- ===== src/Common/Sort.antt =====
-- Stable insertion sort by a numeric key: ORDER BY … ASC and DESC, and Python's `sorted`.
use Prim.Native.Nat.{ℕ, zero, suc, ◌≤◌, ◌<◌}
use mathlib.Core.Path.{◌≡◌, refl, ap, ◌∙◌}
use mathlib.Core.Bool.{Bool, ◌||◌}
use mathlib.Core.Logic.{inl, inr}
use mathlib.Core.Option.{none, some}
use mathlib.Core.List.{List, [], ◌∷◌}
use native.Mathlib.Omega.{arith}
use insider_threat_detection.Common.Tests.{leb, if◌then◌else◌, Bool-cases, leb→le}
use insider_threat_detection.Common.Lists.{any, All, length, first, take, All-take}

module _ {ℓ} {A : Type ℓ} (key : A → ℕ) where
  -- A row stands before those of an equal key that follow it in the table.
  abbrev pub insert_asc : A → List A → List A
  insert_asc x [] = x ∷ []
  insert_asc x (y ∷ ys) =
      let rest = insert_asc x ys in if leb (key x) (key y) then x ∷ y ∷ ys else y ∷ rest

  abbrev pub sort_asc : List A → List A
  sort_asc [] = []
  sort_asc (x ∷ xs) = insert_asc x (sort_asc xs)

  abbrev pub insert_desc : A → List A → List A
  insert_desc x [] = x ∷ []
  insert_desc x (y ∷ ys) =
      let rest = insert_desc x ys in if leb (key y) (key x) then x ∷ y ∷ ys else y ∷ rest

  abbrev pub sort_desc : List A → List A
  sort_desc [] = []
  sort_desc (x ∷ xs) = insert_desc x (sort_desc xs)

  abbrev pub IsAscending : List A → Type 0
  IsAscending [] = Unit
  IsAscending (x ∷ xs) = All (λ y. key x ≤ key y) xs × IsAscending xs

module _ {ℓ} {A : Type ℓ} (key : A → ℕ) where
  pub any-insert_asc :
      (p : A → Bool) (x : A) (xs : List A) → any p (insert_asc key x xs) ≡ (p x || any p xs)
  any-insert_asc p x [] = refl
  any-insert_asc p x (y ∷ ys) = ground (arith, any-insert_asc p x ys)

  -- Sorting keeps the rows.
  pub any-sort_asc : (p : A → Bool) (xs : List A) → any p (sort_asc key xs) ≡ any p xs
  any-sort_asc p [] = refl
  any-sort_asc p (x ∷ xs) =
      any-insert_asc p x (sort_asc key xs) ∙ ap (λ b. p x || b) (any-sort_asc p xs)

  pub length-insert_asc : (x : A) (xs : List A) → length (insert_asc key x xs) ≡ suc (length xs)
  length-insert_asc x [] = refl
  length-insert_asc x (y ∷ ys) = ground (arith, length-insert_asc x ys)

  pub length-sort_asc : (xs : List A) → length (sort_asc key xs) ≡ length xs
  length-sort_asc [] = refl
  length-sort_asc (x ∷ xs) = length-insert_asc x (sort_asc key xs) ∙ ap suc (length-sort_asc xs)

  pub first-insert_desc :
      (x y : A) (ys : List A)
      → first ys ≡ some y
      → key x < key y
      → first (insert_desc key x ys) ≡ some y
  first-insert_desc x y [] e l = cc
  first-insert_desc x y (z ∷ zs) e l = ground arith

  pub first-insert_desc-some :
      (x : A) (ys : List A) → (z : A) × (first (insert_desc key x ys) ≡ some z)
  first-insert_desc-some x [] = (x, refl)
  first-insert_desc-some x (y ∷ ys) = elim (Bool-cases (leb (key y) (key x))) [
    | inl e ↦ (x, rw e)
    | inr e ↦ (y, rw e)
  ]

  -- A sorted table has a first row unless it is empty.
  pub first-sort_desc-none : (xs : List A) → first (sort_desc key xs) ≡ none → xs ≡ []
  first-sort_desc-none [] e = refl
  first-sort_desc-none (x ∷ xs) e = let f = first-insert_desc-some x (sort_desc key xs) in cc

  pub All-insert_asc {κ} :
      (P : A → Type κ) (x : A) (xs : List A) → P x → All P xs → All P (insert_asc key x xs)
  All-insert_asc P x [] h a = (h, tt)
  All-insert_asc P x (y ∷ ys) h a = ground (arith, All-insert_asc P x ys h a.1)

  pub All-sort_asc {κ} : (P : A → Type κ) (xs : List A) → All P xs → All P (sort_asc key xs)
  All-sort_asc P [] a = tt
  All-sort_asc P (x ∷ xs) a = All-insert_asc P x (sort_asc key xs) a.0 (All-sort_asc P xs a.1)

  All-le : (m n : ℕ) (xs : List A) → m ≤ n → All (λ x. n ≤ key x) xs → All (λ x. m ≤ key x) xs
  All-le m n [] h a = tt
  All-le m n (x ∷ xs) h a = (omega arith, All-le m n xs h a.1)

  IsAscending-insert_asc :
      (x : A) (xs : List A) → IsAscending key xs → IsAscending key (insert_asc key x xs)
  IsAscending-insert_asc x [] a = (tt, tt)
  IsAscending-insert_asc x (y ∷ ys) a = elim (Bool-cases (leb (key x) (key y))) [
    | inl e ↦ rw e ((leb→le _ _ e, All-le (key x) (key y) ys (leb→le _ _ e) a.0), a)
    | inr e ↦ rw e (
      All-insert_asc (λ z. key y ≤ key z) x ys (ground (arith, e)) a.0,
      IsAscending-insert_asc x ys a.1,
    )
  ]

  pub IsAscending-sort_asc : (xs : List A) → IsAscending key (sort_asc key xs)
  IsAscending-sort_asc [] = tt
  IsAscending-sort_asc (x ∷ xs) =
      IsAscending-insert_asc x (sort_asc key xs) (IsAscending-sort_asc xs)

  pub IsAscending-take : (n : ℕ) (xs : List A) → IsAscending key xs → IsAscending key (take n xs)
  IsAscending-take zero xs a = tt
  IsAscending-take (suc n) [] a = tt
  IsAscending-take (suc n) (x ∷ xs) a =
      (All-take (λ y. key x ≤ key y) n xs a.0, IsAscending-take n xs a.1)

  length-insert_desc : (x : A) (xs : List A) → length (insert_desc key x xs) ≡ suc (length xs)
  length-insert_desc x [] = refl
  length-insert_desc x (y ∷ ys) = ground (arith, length-insert_desc x ys)

  pub length-sort_desc : (xs : List A) → length (sort_desc key xs) ≡ length xs
  length-sort_desc [] = refl
  length-sort_desc (x ∷ xs) = length-insert_desc x (sort_desc key xs) ∙ ap suc (length-sort_desc xs)
