-- ===== src/Guard/Market.antt =====
-- MarketGuard (guards/market_guard.py) over Python's floats. `update` is split at its returns:
-- the checks of the tick alone, the jump check, and the staleness check.
pub mod Baseline
use trading_snapshot.Base.{
  ℕ, Bool, true, false, not, ◌&&◌, ◌||◌, Option, none, some, is_some, if◌then◌else◌,
}
use trading_snapshot.Base.Int.{negsuc}
use trading_snapshot.Base.Float.{Floats, abs}

pub data Reason : Type 0 where
  no_tick invalid_tick_time tick_age_limit tick_time_in_future invalid_point spread_limit : Reason
  stale_price tick_jump_limit : Reason

module _ (fs : Floats) where
  open fs use {F, zero_f, sub, div, of_ℤ, lt, le}

  -- `tick.time`: missing or None, a value that `float` refuses, or a number.
  pub data TickTime : Type 0 where
    missing invalid : TickTime
    at : F → TickTime

  pub record Tick : Type 0 where
    pub bid : F
    pub ask : F
    pub time : TickTime

  pub record MarketConfig : Type 0 where
    pub point : Option F
    pub max_spread_points : F
    pub max_tick_age_sec : F
    pub max_tick_jump_points : F
    pub max_stale_price_sec : Option F

  pub record MarketGuard : Type 0 where
    pub last_bid : Option F
    pub last_tick_time : Option F
    pub last_price_change_time : Option F
    pub jump_candidate_bid : Option F
    pub blocked_reason : Option Reason

  -- What the checks of the tick alone leave: a reason, or the point to measure in.
  pub data Entry : Type 0 where
    refused : Reason → Entry
    measured : F → Entry

  abbrev pub spread_points : F → Tick → F
  spread_points point tick = div (sub tick.ask tick.bid) point

  abbrev pub jump_points : F → F → F → F
  jump_points point bid reference = div (abs fs (sub bid reference)) point

  abbrev pub spread_entry : MarketConfig → Tick → Entry
  spread_entry c tick = elim c.point [
    | none ↦ refused invalid_point
    | some p ↦
        if le p zero_f
        then refused invalid_point
        else if lt c.max_spread_points (spread_points p tick)
        then refused spread_limit
        else measured p
  ]

  unfoldable pub entry : MarketConfig → F → Tick → Entry
  entry c now tick = elim tick.time [
    | missing ↦ spread_entry c tick
    | invalid ↦ refused invalid_tick_time
    | at time ↦
        if lt c.max_tick_age_sec (sub now time)
        then refused tick_age_limit
        else if lt (sub now time) (of_ℤ (negsuc 4))
        then refused tick_time_in_future
        else spread_entry c tick
  ]

  -- `a != b` of floats.
  abbrev pub differs : F → F → Bool
  differs a b = not (le a b && le b a)

  abbrev pub is_stale : Option F → Option F → F → Bool
  is_stale (some limit) (some changed) now = lt limit (sub now changed)
  is_stale _ _ now = false

  abbrev pub price_changed : Option F → F → Bool
  price_changed none bid = true
  price_changed (some last) bid = differs bid last

  -- From the frozen-feed check to the end.
  unfoldable pub settle : MarketConfig → F → Tick → MarketGuard → MarketGuard
  settle c now tick g =
      let changed =
        if price_changed g.last_bid tick.bid then some now else g.last_price_change_time in
      let seen : MarketGuard = record g {
        blocked_reason = none;
        jump_candidate_bid = none;
        last_tick_time = some now;
        last_price_change_time = changed;
      } in
      if is_stale c.max_stale_price_sec changed now
      then record seen { blocked_reason = some stale_price }
      else record seen { last_bid = some tick.bid }

  abbrev pub hold : Tick → MarketGuard → MarketGuard
  hold tick g = record g {
    jump_candidate_bid = some tick.bid;
    blocked_reason = some tick_jump_limit;
  }

  abbrev pub promote : F → Tick → MarketGuard → MarketGuard
  promote now tick g = record {
    last_bid = some tick.bid;
    last_tick_time = some now;
    last_price_change_time = some now;
    jump_candidate_bid = none;
    blocked_reason = none;
  }

  -- The jump is too large: a second tick close to the first outlier confirms the new level.
  unfoldable pub jumped : MarketConfig → F → F → Tick → MarketGuard → MarketGuard
  jumped c point now tick g = elim g.jump_candidate_bid [
    | none ↦ hold tick g
    | some candidate ↦
        if le (jump_points point tick.bid candidate) c.max_tick_jump_points
        then promote now tick g
        else hold tick g
  ]

  unfoldable pub after_entry : MarketConfig → F → F → Tick → MarketGuard → MarketGuard
  after_entry c point now tick g = elim g.last_bid [
    | none ↦ settle c now tick g
    | some last ↦
        if lt c.max_tick_jump_points (jump_points point tick.bid last)
        then jumped c point now tick g
        else settle c now tick g
  ]

  unfoldable pub update : MarketConfig → F → Option Tick → MarketGuard → MarketGuard
  update c now none g = record g { blocked_reason = some no_tick }
  update c now (some tick) g = elim (entry c now tick) [
    | refused r ↦ record g { blocked_reason = some r }
    | measured p ↦ after_entry c p now tick g
  ]

  unfoldable pub can_trade : MarketGuard → Bool
  can_trade g = not (is_some g.blocked_reason)
