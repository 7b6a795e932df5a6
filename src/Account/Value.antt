-- ===== src/Account/Value.antt =====
-- The checks of risk/account_state_store.py on what a caller, the broker or a legacy JSON file
-- hands over: `_positive_number`, `_optional_positive`, `_strict_bool`, `_optional_text`,
-- `_optional_timestamp` and `_reset_text`.
use trading_snapshot.Base.{
  ℕ, ◌+◌, Bool, true, false, not, ◌&&◌, ◌||◌, Option, none, some, [], ◌∷◌, String, ltb, leb, ◌==◌,
  str_eq, if◌then◌else◌, length,
}
use trading_snapshot.Base.Float.{Floats}
use trading_snapshot.Intent.BrokerId.{Text, strip, is_empty}

-- AccountStateStoreError with its message, and the ValueError of `halt`.
pub data Error : Type 0 where
  invalid_field : String → Error
  invalid_timestamp invalid_reset secret_in_reason : Error
  legacy_unreadable legacy_not_object backup_failed : Error
  audit_without_state : Error
  halt_reason_required : Error
  unavailable : Error

pub data Result (A : Type 0) : Type 0 where
  ok : A → Result A
  err : Error → Result A

infixl 5 ◌>>=◌
abbrev pub ◌>>=◌ : {A B : Type 0} → Result A → (A → Result B) → Result B
ok a >>= f = f a
err e >>= f = err e

-- The lower case of `re.I` on the letters of the pattern: ASCII, and the two other code points
-- that fold into it.
unfoldable pub fold_case : ℕ → ℕ
fold_case c =
    if leb b'A' c && leb c b'Z'
    then c + 32
    else if c == 383
    then b's'
    else if c == 8490
    then b'k'
    else c

unfoldable pub starts_with : Text → Text → Bool
starts_with [] t = true
starts_with (p ∷ ps) [] = false
starts_with (p ∷ ps) (c ∷ cs) = p == c && starts_with ps cs

unfoldable pub contains : Text → Text → Bool
unfolding starts_with
contains pattern [] = starts_with pattern []
contains pattern (c ∷ cs) = starts_with pattern (c ∷ cs) || contains pattern cs

abbrev fold : Text → Text
fold [] = []
fold (c ∷ cs) = fold_case c ∷ fold cs

-- `_SENSITIVE_RESET_REASON_RE.search`; `api[_-]?secret` is a case of `secret`.
unfoldable pub is_sensitive : Text → Bool
unfolding contains fold_case
is_sensitive t =
    let low = fold t in
    contains (b'p' ∷ b'a' ∷ b's' ∷ b's' ∷ b'w' ∷ b'o' ∷ b'r' ∷ b'd' ∷ []) low
    || contains (b't' ∷ b'o' ∷ b'k' ∷ b'e' ∷ b'n' ∷ []) low
    || contains (b's' ∷ b'e' ∷ b'c' ∷ b'r' ∷ b'e' ∷ b't' ∷ []) low
    || contains (b'a' ∷ b'p' ∷ b'i' ∷ b'k' ∷ b'e' ∷ b'y' ∷ []) low
    || contains (b'a' ∷ b'p' ∷ b'i' ∷ b'_' ∷ b'k' ∷ b'e' ∷ b'y' ∷ []) low
    || contains (b'a' ∷ b'p' ∷ b'i' ∷ b'-' ∷ b'k' ∷ b'e' ∷ b'y' ∷ []) low

-- `_reset_text`; only a reason is searched for credentials.
unfoldable pub reset_text : Bool → ℕ → Text → Result Text
unfolding is_sensitive
reset_text is_reason max_length t =
    if is_empty (strip t) || ltb max_length (length t)
    then err invalid_reset
    else if is_reason && is_sensitive (strip t)
    then err secret_in_reason
    else ok (strip t)

module _ (fs : Floats) where
  open fs use {F, zero_f, le, finite}

  -- A Python value as `isinstance` sorts it. `bool` is a subclass of `int`, so it is its own
  -- case; a number stands as the float that `float(value)` gives.
  mutual
    pub data Value : Type 0 where
      null : Value
      boolean : Bool → Value
      number : F → Value
      text : String → Value
      array : Value
      object : Fields → Value

    pub data Fields : Type 0 where
      no_fields : Fields
      field : String → Value → Fields → Fields

  -- `raw.get(key, default)`
  unfoldable pub get : Fields → String → Value → Value
  get no_fields key default = default
  get (field k v rest) key default =
      let found = get rest key default in if str_eq k key then v else found

  abbrev pub is_positive : F → Bool
  is_positive x = finite x && not (le x zero_f)

  unfoldable pub positive_number : String → Value → Result F
  positive_number name (number x) = if is_positive x then ok x else err (invalid_field name)
  positive_number name _ = err (invalid_field name)

  unfoldable pub optional_positive : String → Value → Result (Option F)
  unfolding positive_number
  optional_positive name null = ok none
  optional_positive name v = do x ← positive_number name v; ok (some x)

  unfoldable pub strict_bool : String → Value → Result Bool
  strict_bool name (boolean b) = ok b
  strict_bool name _ = err (invalid_field name)

  unfoldable pub optional_text : String → Value → Result (Option String)
  optional_text name null = ok none
  optional_text name (text t) = ok (some t)
  optional_text name _ = err (invalid_field name)

  unfoldable pub optional_timestamp : Value → Result (Option F)
  optional_timestamp null = ok none
  optional_timestamp (number x) = if finite x then ok (some x) else err invalid_timestamp
  optional_timestamp _ = err invalid_timestamp
