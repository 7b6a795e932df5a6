-- ===== src/Risk/Margin.antt =====
-- The margin guard of RiskManager (risk/risk_manager.py): its policy, the utilisation of the
-- margin now, and the projection for a new order with every stop stressed.
pub mod Order
use trading_snapshot.Base.{
  Bool, true, false, not, ◌&&◌, ◌||◌, Option, none, some, String, if◌then◌else◌,
}
use trading_snapshot.Base.Float.{Floats}
use trading_snapshot.Account.Value.{Value, null}
use trading_snapshot.Risk.Number.{strict_number, kept, finite_nonnegative, finite_positive}

module _ (fs : Floats) where
  open fs use {F, zero_f, one_f, div, lt, le, finite}

  -- MAX_MARGIN_UTILIZATION, MARGIN_STRESS_STOP_MULTIPLIER and MARGIN_ESTIMATE_BUFFER of the
  -- portfolio's configuration
  pub record MarginConfig : Type 0 where
    pub maximum : Value fs
    pub stress : Value fs
    pub buffer : Value fs

  pub record Limits : Type 0 where
    pub max_utilization : F
    pub stress_multiplier : F
    pub estimate_buffer : F

  pub data Policy : Type 0 where
    disabled invalid_policy : Policy
    policy : Limits → Policy

  abbrev pub policy_number : Value fs → Option F
  policy_number v = kept fs (λ x. finite x && not (le x zero_f)) (strict_number fs v)

  abbrev pub limits_of : Option F → Option F → Option F → Policy
  limits_of (some maximum) (some stress) (some buffer) =
      if le one_f maximum || lt buffer one_f
      then invalid_policy
      else policy (record {
        max_utilization = maximum;
        stress_multiplier = stress;
        estimate_buffer = buffer;
      })
  limits_of none stress buffer = invalid_policy
  limits_of (some maximum) none buffer = invalid_policy
  limits_of (some maximum) (some stress) none = invalid_policy

  abbrev pub policy_of : MarginConfig → Value fs → Policy
  policy_of c null = disabled
  policy_of c v = limits_of (policy_number v) (policy_number c.stress) (policy_number c.buffer)

  -- No portfolio configuration, or no maximum, disables the guard.
  unfoldable pub margin_policy : Option MarginConfig → Policy
  margin_policy none = disabled
  margin_policy (some c) = policy_of c c.maximum

  -- The broker has no such method or its answer is no dict, or the account's numbers.
  pub data Snapshot : Type 0 where
    no_snapshot : Snapshot
    snapshot : (balance equity margin : Value fs) → Snapshot

  abbrev pub utilization_guard : Limits → Option F → Option F → Option String
  utilization_guard l (some equity) (some margin) =
      if lt l.max_utilization (div margin equity) then some "MARGIN_UTILIZATION_LIMIT" else none
  utilization_guard l none margin = some "MARGIN_DATA_INVALID"
  utilization_guard l (some equity) none = some "MARGIN_DATA_INVALID"

  unfoldable pub check_current_margin_utility : Policy → Snapshot → Option String
  check_current_margin_utility disabled s = none
  check_current_margin_utility invalid_policy s = some "CONFIG_INVALID_MARGIN_POLICY"
  check_current_margin_utility (policy l) no_snapshot = some "MARGIN_DATA_UNAVAILABLE"
  check_current_margin_utility (policy l) (snapshot balance equity margin) =
      utilization_guard l (finite_positive fs equity) (finite_nonnegative fs margin)
