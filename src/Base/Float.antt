-- ===== src/Base/Float.antt =====
-- Python's floats as an interface: a carrier with NaN and the infinities in it, its operations,
-- and the laws of IEEE comparison that the program relies on. The comparisons are Boolean, as
-- the language's are; a comparison with NaN is false, so totality is stated of finite values.
use mathlib.Core.Path.{◌≡◌, refl}
use mathlib.Core.Bool.{Bool, true, not}
use native.Mathlib.Omega.{arith}
use trading_snapshot.Base.Tests.{if◌then◌else◌}
use trading_snapshot.Base.Int.{ℤ, pos, ◌+ℤ◌, ◌-ℤ◌, ◌*ℤ◌, leb_ℤ, ltb_ℤ}

pub record Floats : Type 1 where
  pub F : Type 0
  pub zero_f : F
  pub one_f : F
  pub add : F → F → F
  pub sub : F → F → F
  pub mul : F → F → F
  pub div : F → F → F
  pub of_ℤ : ℤ → F
  -- `<`, `<=` and `math.isfinite`
  pub lt : F → F → Bool
  pub le : F → F → Bool
  pub finite : F → Bool
  pub finite-of_ℤ : (z : ℤ) → finite (of_ℤ z) ≡ true
  pub finite_zero : finite zero_f ≡ true
  -- a difference of finite values is no NaN, and rounding is monotone
  pub sub_mono :
      (a b c : F)
      → finite a ≡ true
      → finite b ≡ true
      → finite c ≡ true
      → le a b ≡ true
      → le (sub a c) (sub b c) ≡ true
  pub le_refl : (a : F) → finite a ≡ true → le a a ≡ true
  pub le_trans : (a b c : F) → le a b ≡ true → le b c ≡ true → le a c ≡ true
  pub le_of_lt : (a b : F) → lt a b ≡ true → le a b ≡ true
  pub lt_not_le : (a b : F) → finite a ≡ true → finite b ≡ true → lt a b ≡ not (le b a)

module _ (fs : Floats) where
  open fs use {F, zero_f, sub, lt}

  -- `abs(x)`, `min(x, y)` and `max(x, y)` as CPython evaluates them.
  unfoldable pub abs : F → F
  abs x = if lt x zero_f then sub zero_f x else x

  unfoldable pub min : F → F → F
  min x y = if lt y x then y else x

  unfoldable pub max : F → F → F
  max x y = if lt x y then y else x

-- Whole numbers meet the laws, so the statements over `Floats` have instances. Every value is
-- finite; the quotient is not used by a law and keeps the dividend.
pub le_trans_ℤ : (a b c : ℤ) → leb_ℤ a b ≡ true → leb_ℤ b c ≡ true → leb_ℤ a c ≡ true
le_trans_ℤ a b c h k = ground arith

pub lt_not_le_ℤ : (a b : ℤ) → ltb_ℤ a b ≡ not (leb_ℤ b a)
lt_not_le_ℤ a b = ground arith

pub le_of_lt_ℤ : (a b : ℤ) → ltb_ℤ a b ≡ true → leb_ℤ a b ≡ true
le_of_lt_ℤ a b h = ground arith

pub le_refl_ℤ : (a : ℤ) → leb_ℤ a a ≡ true
le_refl_ℤ a = ground arith

pub sub_mono_ℤ : (a b c : ℤ) → leb_ℤ a b ≡ true → leb_ℤ (a -ℤ c) (b -ℤ c) ≡ true
unfolding ◌-ℤ◌
sub_mono_ℤ a b c h = ground arith

abbrev pub whole : Floats
whole = record {
  F = ℤ;
  zero_f = pos 0;
  one_f = pos 1;
  add = λ a b. a +ℤ b;
  sub = λ a b. a -ℤ b;
  mul = λ a b. a *ℤ b;
  div = λ a b. a;
  of_ℤ = λ z. z;
  lt = ltb_ℤ;
  le = leb_ℤ;
  finite = λ _. true;
  finite-of_ℤ = λ z. refl;
  finite_zero = refl;
  sub_mono = λ a b c _ _ _. sub_mono_ℤ a b c;
  le_refl = λ a _. le_refl_ℤ a;
  le_trans = le_trans_ℤ;
  le_of_lt = le_of_lt_ℤ;
  lt_not_le = λ a b _ _. lt_not_le_ℤ a b;
}
