-- ===== src/Risk/Number.antt =====
-- The tests that risk/risk_manager.py makes on the values of its configuration and of the
-- broker before it computes with them.
use trading_snapshot.Base.{Bool, ◌&&◌, Option, none, some, if◌then◌else◌}
use trading_snapshot.Base.Float.{Floats}
use trading_snapshot.Account.Value.{Value, boolean, number}

module _ (fs : Floats) where
  open fs use {F, zero_f, one_f, lt, le, finite}

  -- `isinstance(value, (int, float))`, where True and False are the numbers 1 and 0
  abbrev pub as_number : Value fs → Option F
  as_number (number x) = some x
  as_number (boolean b) = some (if b then one_f else zero_f)
  as_number _ = none

  -- the same and `not isinstance(value, bool)`
  abbrev pub strict_number : Value fs → Option F
  strict_number (number x) = some x
  strict_number _ = none

  abbrev pub kept : (F → Bool) → Option F → Option F
  kept test none = none
  kept test (some x) = if test x then some x else none

  abbrev pub nonnegative : F → Bool
  nonnegative x = finite x && le zero_f x

  abbrev pub positive : F → Bool
  positive x = finite x && lt zero_f x

  -- `_finite_nonnegative(value)` and `_finite_nonnegative(value, positive=True)`; the number is
  -- kept when the test passes
  unfoldable pub finite_nonnegative : Value fs → Option F
  finite_nonnegative v = kept nonnegative (strict_number v)

  unfoldable pub finite_positive : Value fs → Option F
  finite_positive v = kept positive (strict_number v)
