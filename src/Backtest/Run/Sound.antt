-- ===== src/Backtest/Run/Sound.antt =====
-- What every open position and every trade of a backtest has
-- (trading_research/engine/backtester.py).
use trading_snapshot.Base.{ℕ, ◌+◌, ◌≤◌, false, Option, none, some, List, All, ◌≡◌}
use trading_snapshot.Base.Float.{Floats}
use trading_snapshot.Backtest.Bar.{Bar, Position}
use trading_snapshot.Backtest.Fill.{Costs}
use trading_snapshot.Backtest.Manage.{Config, Strategy, Trade, Book}
use trading_snapshot.Backtest.Run.{RunState}

module _ (fs : Floats) where
  open fs use {F, zero_f, le}

  -- an open position has a risk that is not `<= 0` and was opened on bar `i` or before
  abbrev pub IsOpen : ℕ → Position fs → Type 0
  IsOpen i p = (le p.risk zero_f ≡ false) × (p.open_bar ≤ i)

  -- a trade had a risk that is not `<= 0`, and closed on the bar it was opened on or later
  abbrev pub IsTrade : Trade fs → Type 0
  IsTrade t =
      (le t.initial_risk_price zero_f ≡ false)
      × (t.open_bar ≤ t.close_bar)
      × (t.open_bar + t.duration_bars ≡ t.close_bar + 1)

  module _ (c : Config fs) (costs : Costs fs) (s : Strategy fs) (df : List (Bar fs)) where
    open s use {State, on_bar}

    -- the positions that stay open and the trades that are booked
    abbrev AreSound : ℕ → List (Position fs) → Book fs → Type 0
    AreSound i ps k = All (IsOpen i) ps × All IsTrade k.trades

    abbrev IsSettled : ℕ → Option (Position fs) × Book fs → Type 0
    IsSettled i (none, k) = All IsTrade k.trades
    IsSettled i (some p, k) = IsOpen i p × All IsTrade k.trades

    abbrev Running : Type 0
    Running = RunState fs c costs s

    abbrev pub IsSound : ℕ → Running → Type 0
    IsSound i r = AreSound i r.open_positions r.book
