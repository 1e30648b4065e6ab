-- ===== src/Auth/Roles.antt =====
-- Who gets past the decorators.
use Prim.Native.String.{slice, len}
use text.Mathlib.TextPositions.{slice-append_right, len-append, starts_with-append}
use insider_threat_detection.Common.{
  ℕ, ◌≤◌, String, ◌≡◌, refl, ap, ◌∙◌, ◌⊎◌, inl, inr, Option, none, some, List, ◌∷◌, arith, ltb, leb,
  if◌then◌else◌, Bool-cases,
}
use insider_threat_detection.Auth.{
  Settings, Request, text_append, auth_header, role_order, index, by_level, by_role, role_by,
  role_of_token, lookup, Outcome, insufficient, parse_api_keys, get_caller_role, require_role,
}

-- The roles that the code knows, with their rank.
pub data Role : Type 0 where
  readonly : Role
  analyst : Role
  admin : Role

abbrev pub name : Role → String
name readonly = "readonly"
name analyst = "analyst"
name admin = "admin"

abbrev pub rank : Role → ℕ
rank readonly = 0
rank analyst = 1
rank admin = 2

index-name : (r : Role) → index (name r) role_order ≡ some (rank r)
index-name readonly = refl
index-name analyst = refl
index-name admin = refl

module _ (s : Settings) (request : Request) where
  module _ {S R : Type 0} (fn : S → Outcome R × S) (st : S) where
    by_role-rank :
        (r minimum : Role)
        → by_role s (name minimum) (some (name r)) fn st ≡ (
            if leb (rank minimum) (rank r)
            then fn st
            else (insufficient (name r) (name minimum), st))
    by_role-rank r minimum = rw (index-name r, index-name minimum) (ground arith)

    by_level-guards :
        (role minimum : String) (a b : Option ℕ)
        → ((by_level s role minimum a b fn st).1 ≡ st)
          ⊎ ((caller : ℕ) × (required : ℕ) × (a ≡ some caller)
              × (b ≡ some required)
              × (required ≤ caller))
    by_level-guards role minimum none b = inl refl
    by_level-guards role minimum (some caller) none = inl refl
    by_level-guards role minimum (some caller) (some required) =
        elim (Bool-cases (ltb caller required)) [
          | inl low ↦ inl (rw low refl)
          | inr high ↦ inr (caller, required, refl, refl, ground (arith, high))
        ]

    by_role-guards :
        (minimum : String) (o : Option String)
        → ((by_role s minimum o fn st).1 ≡ st)
          ⊎ ((role : String) × (caller : ℕ) × (required : ℕ) × (o ≡ some role)
              × (index role role_order ≡ some caller)
              × (index minimum role_order ≡ some required)
              × (required ≤ caller))
    by_role-guards minimum none = inl refl
    by_role-guards minimum (some role) =
        elim (by_level-guards role minimum (index role role_order) (index minimum role_order)) [
          | inl same ↦ inl same
          | inr (caller, required, a, b, le) ↦ inr (role, caller, required, refl, a, b, le)
        ]

    -- A caller with a known role gets to the view exactly if the role's rank is not below that of the
    -- minimum, and otherwise the view does not run.
    pub require_role-rank :
        (r minimum : Role)
        → get_caller_role s request ≡ some (name r)
        → require_role s (name minimum) request fn st ≡ (
            if leb (rank minimum) (rank r)
            then fn st
            else (insufficient (name r) (name minimum), st))
    unfolding require_role
    require_role-rank r minimum e =
        ap (λ o. by_role s (name minimum) o fn st) e ∙ by_role-rank r minimum

    -- Whatever the keys, the role names and the request are, a view under `require_role` changes
    -- the state only for a caller whose role stands in the role order, no lower than the minimum.
    pub require_role-guards :
        (minimum : String)
        → ((require_role s minimum request fn st).1 ≡ st)
          ⊎ ((role : String) × (caller : ℕ) × (required : ℕ) × (get_caller_role s request
                ≡ some role)
              × (index role role_order ≡ some caller)
              × (index minimum role_order ≡ some required)
              × (required ≤ caller))
    unfolding require_role
    require_role-guards minimum = by_role-guards minimum (get_caller_role s request)

  role_of_bearer :
      (token : String) (keys : List (String × String))
      → role_of_token s (text_append "Bearer " token) keys ≡ lookup token keys
  role_of_bearer token keys = rw (starts_with-append "Bearer " token) (
      ap (λ t. lookup t keys)
        (ap (slice (text_append "Bearer " token) (len "Bearer ")) (len-append "Bearer " token)
          ∙ slice-append_right "Bearer " token))

  -- With a key map, a request with a bearer token has the role that the map gives to the token, or
  -- none, whatever the shared key is.
  pub get_caller_role-map :
      (entry : String × String) (entries : List (String × String)) (token : String)
      → parse_api_keys s ≡ entry ∷ entries
      → auth_header s request ≡ text_append "Bearer " token
      → get_caller_role s request ≡ lookup token (entry ∷ entries)
  unfolding get_caller_role
  get_caller_role-map entry entries token e h =
      ap (λ m. role_by s m (auth_header s request)) e
      ∙ ap (λ header. role_of_token s header (entry ∷ entries)) h
      ∙ role_of_bearer token (entry ∷ entries)
