-- ===== src/Runtime/Schema.antt =====
-- core/state_schema.py: the default state, `recursive_defaults_merge` and `migrate_state`.
pub mod Merge
pub mod Idempotent
use trading_snapshot.Base.{
  Bool, true, false, not, ◌&&◌, ◌||◌, Option, none, some, is_some, String, if◌then◌else◌,
}
use trading_snapshot.Base.Int.{ℤ, pos, ltb_ℤ, leb_ℤ}
use trading_snapshot.Runtime.Json.{
  Json, null, boolean, int, real, text, array, object, Fields, no_fields, field, lookup, assign,
  is_object,
}

pub data RecoveryCode : Type 0 where
  malformed_json invalid_schema unsupported_schema io_error : RecoveryCode

-- a value, or the StateRecoveryError that is raised
pub data Outcome (A : Type 0) : Type 0 where
  done : A → Outcome A
  recovery : RecoveryCode → Outcome A

infixl 5 ◌>>=◌
abbrev pub ◌>>=◌ : {A B : Type 0} → Outcome A → (A → Outcome B) → Outcome B
done a >>= f = f a
recovery e >>= f = recovery e

abbrev pub default_pending : Fields
default_pending =
    field "active" (boolean false) (field "side" null (field "retry_after" null no_fields))

abbrev pub default_engine : Fields
default_engine =
    field "last_signal_bar_time" null (field "pending_order" (object default_pending) no_fields)

abbrev pub default_strategy : Fields
default_strategy =
    field "last_long_signal_bar" null
      (field "last_short_signal_bar" null (field "breakeven_done" (boolean false) no_fields))

abbrev pub default_sections : Fields
default_sections = field "engine" (object default_engine) (
    field "strategy" (object default_strategy)
      (field "execution_cache" (object no_fields) no_fields))

unfoldable pub default_state : Fields
default_state = field "schema_version" (int (pos 2)) default_sections

abbrev pub fields_of : Json → Option Fields
fields_of (object fs) = some fs
fields_of _ = none

abbrev pub need_object : Json → Outcome Fields
need_object (object fs) = done fs
need_object _ = recovery invalid_schema

-- one default: set where the key is missing, merged where both are objects
abbrev pub merge_one :
    String → Json → (Json → Outcome Json) → Fields → Bool → Option Json → Outcome Fields
merge_one k d nested merged is_nested none = done (assign merged k d)
merge_one k d nested merged false (some v) = done merged
merge_one k d nested merged true (some v) = do m ← nested v; done (assign merged k m)

-- `recursive_defaults_merge`, and its loop over the items of `defaults`: `value` is read and
-- `merged` is written.
unfoldable mutual
  pub merge : Json → Json → Outcome Json
  merge null value = done value
  merge (boolean b) value = done value
  merge (int n) value = done value
  merge (real x) value = done value
  merge (text t) value = done value
  merge (array es) value = done value
  merge (object defaults) value = do
    fs ← need_object value
    m ← merge_items defaults fs fs
    done (object m)

  pub merge_items : Fields → Fields → Fields → Outcome Fields
  merge_items no_fields value merged = done merged
  merge_items (field k d rest) value merged = do
    fs ← merge_one k d (λ v. merge d v) merged (is_object d) (lookup value k)
    merge_items rest value fs

pub data Version : Type 0 where
  unversioned : Version
  version : ℤ → Version
  no_integer : Version

-- `state.get("schema_version")`; null counts as absent
abbrev pub version_of : Option Json → Version
version_of none = unversioned
version_of (some null) = unversioned
version_of (some (int n)) = version n
version_of (some (boolean b)) = no_integer
version_of (some (real x)) = no_integer
version_of (some (text t)) = no_integer
version_of (some (array es)) = no_integer
version_of (some (object fs)) = no_integer

abbrev pub or_default : Option Json → Json → Json
or_default none default = default
or_default (some v) default = v

-- the flat layout, which had no version
unfoldable pub from_v0 : Fields → Fields
unfolding lookup
from_v0 s = field "schema_version" (int (pos 1)) (
    field "engine"
      (object (
        field "last_signal_bar_time" (or_default (lookup s "last_h1_bar_time") null) (
          field "pending_order" (or_default (lookup s "pending_order") (object no_fields))
            no_fields)))
      (field "strategy"
        (object (
          field "last_long_signal_bar" (or_default (lookup s "last_long_signal_bar") null) (
            field "last_short_signal_bar" (or_default (lookup s "last_short_signal_bar") null) (
              field "breakeven_done" (or_default (lookup s "breakeven_done") (boolean false))
                no_fields))))
        (field "execution_cache" (or_default (lookup s "execution_cache") (object no_fields))
          no_fields)))

unfoldable pub from_v1 : Fields → Fields
unfolding assign
from_v1 s = assign s "schema_version" (int (pos 2))

unfoldable pub merged_state : Bool → Fields → Outcome (Fields × Bool)
unfolding merge_items default_state
merged_state migrated s = do m ← merge_items default_state s s; done (m, migrated)

unfoldable pub at_version : ℤ → Bool → Fields → Outcome (Fields × Bool)
unfolding from_v0 from_v1 merged_state
at_version n migrated s =
    if ltb_ℤ (pos 2) n
    then recovery unsupported_schema
    else if ltb_ℤ n (pos 0)
    then recovery invalid_schema
    else if leb_ℤ n (pos 0)
    then merged_state true (from_v1 (from_v0 s))
    else if leb_ℤ n (pos 1)
    then merged_state true (from_v1 s)
    else merged_state migrated s

abbrev pub has : Fields → String → Bool
has s key = is_some (lookup s key)

unfoldable pub migrate_fields : Version → Fields → Outcome (Fields × Bool)
unfolding at_version lookup
migrate_fields unversioned s =
    if has s "engine" || has s "strategy"
    then at_version (pos 1) true s
    else at_version (pos 0) true s
migrate_fields (version n) s = at_version n false s
migrate_fields no_integer s = recovery invalid_schema

abbrev pub migrate_root : Option Fields → Outcome (Fields × Bool)
migrate_root none = recovery invalid_schema
migrate_root (some s) = migrate_fields (version_of (lookup s "schema_version")) s

unfoldable pub migrate_state : Json → Outcome (Fields × Bool)
unfolding migrate_fields
migrate_state raw = migrate_root (fields_of raw)
