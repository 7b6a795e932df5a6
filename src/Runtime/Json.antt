-- ===== src/Runtime/Json.antt =====
-- Values of a JSON document as core/state_schema.py takes them apart. An object is its members,
-- read and assigned by key as a dict.
use trading_snapshot.Base.{
  ℕ, Bool, true, false, Option, none, some, String, str_eq, str_eq_iff, if◌then◌else◌, ◌≡◌, refl,
  sym, inl, inr, Bool-cases,
}
use trading_snapshot.Base.Int.{ℤ}

mutual
  pub data Json : Type 0 where
    null : Json
    boolean : Bool → Json
    int : ℤ → Json
    real : ℕ → Json
    text : String → Json
    array : Elements → Json
    object : Fields → Json

  pub data Fields : Type 0 where
    no_fields : Fields
    field : String → Json → Fields → Fields

  pub data Elements : Type 0 where
    no_elements : Elements
    element : Json → Elements → Elements

-- `value.get(key)`, where `none` is a missing key
unfoldable pub lookup : Fields → String → Option Json
lookup no_fields key = none
lookup (field k v rest) key = let found = lookup rest key in if str_eq k key then some v else found

-- `value[key] = v`
unfoldable pub assign : Fields → String → Json → Fields
assign no_fields key v = field key v no_fields
assign (field k w rest) key v =
    let below = assign rest key v in if str_eq k key then field k v rest else field k w below

-- `del value[key]`
unfoldable pub remove : Fields → String → Fields
remove no_fields key = no_fields
remove (field k w rest) key =
    let below = remove rest key in if str_eq k key then rest else field k w below

abbrev pub is_object : Json → Bool
is_object (object fs) = true
is_object _ = false

pub lookup-assign : (fs : Fields) (k : String) (v : Json) → lookup (assign fs k v) k ≡ some v
unfolding lookup assign
lookup-assign no_fields k v = rw ((str_eq_iff k k).1 refl) refl
lookup-assign (field k' w rest) k v = elim (Bool-cases (str_eq k' k)) [
  | inl same ↦ rw same (rw same refl)
  | inr other ↦ rw other (rw other (lookup-assign rest k v))
]

pub lookup-assign_ne :
    (fs : Fields) (k key : String) (v : Json)
    → str_eq k key ≡ false
    → lookup (assign fs k v) key ≡ lookup fs key
unfolding lookup assign
lookup-assign_ne no_fields k key v h = rw h refl
lookup-assign_ne (field k' w rest) k key v h = elim (Bool-cases (str_eq k' k)) [
  | inl same ↦ rw same (rw (rw (sym ((str_eq_iff k' k).0 same)) at h) refl)
  | inr other ↦ rw other (rw (lookup-assign_ne rest k key v h) refl)
]

-- assigning what stands there changes nothing
pub assign_same : (fs : Fields) (k : String) (v : Json) → lookup fs k ≡ some v → assign fs k v ≡ fs
unfolding lookup assign
assign_same no_fields k v h = absurd (let bad : ◌≡◌ {A = Option Json} none (some v) = h in cc)
assign_same (field k' w rest) k v h = elim (Bool-cases (str_eq k' k)) [
  | inl same ↦ rw same (let e : ◌≡◌ {A = Option Json} (some w) (some v) = (rw same at h) in cc)
  | inr other ↦ rw other (rw (assign_same rest k v (rw other at h)) refl)
]
