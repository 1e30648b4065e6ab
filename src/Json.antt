-- ===== src/Json.antt =====
-- JSON values and objects, as json.loads and json.dumps see them.
use Prim.Native.Nat.{Ordering}
use Prim.Native.String.{compare}
use insider_threat_detection.Common.{
  refl, ap, ◌∙◌, false, ◌≡◌, arith, eq_iff, String, Bool, List, [], ◌∷◌, Option, none, some, ◌==◌,
  if◌then◌else◌, not, select,
}
use insider_threat_detection.Common.Int.{ℤ}

mutual
  pub data Json : Type 0 where
    null : Json
    bool : Bool → Json
    num : ℤ → Json
    float : ℤ → Json
    str : String → Json
    arr : Items → Json
    obj : Fields → Json

  pub data Items : Type 0 where
    nil : Items
    cons : Json → Items → Items

  pub data Fields : Type 0 where
    end : Fields
    field : String → Json → Fields → Fields

-- An entry of an object at its place by its key, before the entries of later keys.
abbrev insert_field : String → Json → Fields → Fields
insert_field key value end = field key value end
insert_field key value (field k v fields) =
    let rest = insert_field key value fields in
    elim (compare key k) [
      | Ordering.lt ↦ field key value (field k v fields)
      | Ordering.eq ↦ field key value fields
      | Ordering.gt ↦ field k v rest
    ]

-- A value with the entries of its objects in the order in which `json.dumps(..., sort_keys=True)`
-- writes them.
unfoldable mutual
  pub sort_keys : Json → Json
  sort_keys null = null
  sort_keys (bool b) = bool b
  sort_keys (num n) = num n
  sort_keys (float x) = float x
  sort_keys (str s) = str s
  sort_keys (arr items) = arr (sort_items items)
  sort_keys (obj fields) = obj (sort_fields fields)

  sort_items : Items → Items
  sort_items nil = nil
  sort_items (cons v items) = cons (sort_keys v) (sort_items items)

  sort_fields : Fields → Fields
  sort_fields end = end
  sort_fields (field k v fields) = insert_field k (sort_keys v) (sort_fields fields)

-- A Python dict with text keys.
abbrev pub Dict : Type 0
Dict = List (String × Json)

-- An object of a text as json.loads reads it.
abbrev pub dict_of : Fields → Dict
dict_of end = []
dict_of (field k v fields) = (k, v) ∷ dict_of fields

-- An object of a dict as json.dumps writes it.
abbrev pub fields_of : Dict → Fields
fields_of [] = end
fields_of ((key, value) ∷ entries) = field key value (fields_of entries)

abbrev pub get : String → Dict → Option Json
get k [] = none
get k ((j, v) ∷ d) = if j == k then some v else get k d

-- `{k: v for k, v in d.items() if k != key}`
abbrev pub without : String → Dict → Dict
without key = select (λ e. not (e.0 == key))

pub get-without :
    (key k : String) (d : Dict) → get k (without key d) ≡ (if key == k then none else get k d)
get-without key k [] = ground arith
get-without key k ((j, v) ∷ d) =
    ground (arith, get-without key k d, eq_iff j key, eq_iff j k, eq_iff key k)

abbrev pub sorted : Option Json → Option Json
sorted none = none
sorted (some value) = some (sort_keys value)

-- The value under the key, whatever the order of the entries of its objects.
abbrev pub sorted_get : String → Dict → Option Json
sorted_get k d = sorted (get k d)

pub sorted_get-without :
    (key k : String) (d : Dict) → (key == k) ≡ false → sorted_get k (without key d) ≡ sorted_get k d
sorted_get-without key k d other = ap sorted (get-without key k d ∙ rw other refl)

-- `d.get(key, "")` where a text is expected: `none` is any other value, on which the callers raise.
abbrev pub as_text : Option Json → Option String
as_text none = some ""
as_text (some (str s)) = some s
as_text (some _) = none

pub as_text-sorted : (value : Option Json) → as_text (sorted value) ≡ as_text value
unfolding sort_keys
as_text-sorted none = refl
as_text-sorted (some null) = refl
as_text-sorted (some (bool b)) = refl
as_text-sorted (some (num n)) = refl
as_text-sorted (some (float x)) = refl
as_text-sorted (some (str s)) = refl
as_text-sorted (some (arr items)) = refl
as_text-sorted (some (obj fields)) = refl

abbrev pub text_or_empty : String → Dict → Option String
text_or_empty key d = as_text (get key d)
