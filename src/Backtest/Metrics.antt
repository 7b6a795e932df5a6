-- ===== src/Backtest/Metrics.antt =====
-- `compute_metrics` of trading_research/engine/backtester.py on the trades and the equity of a
-- run, oldest first. The sums and means of arrays are numpy's, an argument.
pub mod Drawdown
use trading_snapshot.Base.{
  ℕ, suc, ◌+◌, ◌*◌, Bool, true, false, not, ◌&&◌, List, [], ◌∷◌, length, filter, map, ◌==◌,
  if◌then◌else◌,
}
use trading_snapshot.Base.Int.{pos}
use trading_snapshot.Base.Float.{Floats, abs, max}
use trading_snapshot.Backtest.Bar.{CloseReason, break_even}
use trading_snapshot.Backtest.Manage.{Trade}

unfoldable pub is_be : CloseReason → Bool
is_be break_even = true
is_be _ = false

module _ (fs : Floats) where
  open fs use {F, zero_f, add, sub, mul, div, of_ℤ, lt, le}

  -- `np.sum`, `np.mean`, `np.max`, `np.min`, `np.median` and `np.quantile(…, 0.90)` of a nonempty
  -- array
  pub record Numpy : Type 0 where
    pub np_sum : List F → F
    pub np_mean : List F → F
    pub np_max : List F → F
    pub np_min : List F → F
    pub np_median : List F → F
    pub np_quantile_90 : List F → F

  pub record AverageComponents : Type 0 where
    pub spread_cost_r : F
    pub slippage_cost_r : F
    pub commission_cost_r : F
    pub swap_cost_r : F

  pub record ExecutionCosts : Type 0 where
    pub average_r : F
    pub median_r : F
    pub p90_r : F
    pub total_r : F
    pub average_components_r : AverageComponents
    pub average_rollover_units : F

  pub record Metrics : Type 0 where
    pub total_trades : ℕ
    pub wins : ℕ
    pub losses : ℕ
    pub be_trades : ℕ
    pub winrate : F
    pub winrate_no_be : F
    pub net_r : F
    pub max_drawdown : F
    pub profit_factor : F
    pub expectancy : F
    pub avg_win : F
    pub avg_loss : F
    pub best_trade : F
    pub worst_trade : F
    pub execution_costs : ExecutionCosts

  abbrev pub is_win : Trade fs → Bool
  is_win t = not (is_be t.close_reason) && lt zero_f t.r

  abbrev pub is_loss : Trade fs → Bool
  is_loss t = not (is_be t.close_reason) && lt t.r zero_f

  -- the loop over the equity: the peak so far, and the largest fall from it
  unfoldable pub drawdown_from : F → F → List F → F
  drawdown_from peak max_dd [] = max_dd
  drawdown_from peak max_dd (value ∷ values) =
      drawdown_from (max fs peak value) (max fs max_dd (sub (max fs peak value) value)) values

  unfoldable pub max_drawdown_of : List F → F
  unfolding drawdown_from
  max_drawdown_of [] = zero_f
  max_drawdown_of (e ∷ es) = drawdown_from e zero_f (e ∷ es)

  -- `sum(...)`, from 0
  abbrev pub sum_from : F → List F → F
  sum_from acc [] = acc
  sum_from acc (x ∷ xs) = sum_from (add acc x) xs

  abbrev pub results : List (Trade fs) → List F
  results ts = map (λ t. t.r) ts

  unfoldable pub gross_profit : List (Trade fs) → F
  gross_profit ts = sum_from zero_f (results (filter (λ t. lt zero_f t.r) ts))

  unfoldable pub gross_loss : List (Trade fs) → F
  gross_loss ts = abs fs (sum_from zero_f (results (filter (λ t. lt t.r zero_f) ts)))

  abbrev pub percent : ℕ → ℕ → F
  percent part whole =
      if whole == 0 then zero_f else mul (div (of_ℤ (pos part)) (of_ℤ (pos whole))) (of_ℤ (pos 100))

  abbrev pub or_zero : (List F → F) → List F → F
  or_zero f [] = zero_f
  or_zero f (x ∷ xs) = f (x ∷ xs)

  abbrev pub is_zero : F → Bool
  is_zero x = le x zero_f && le zero_f x

  -- the costs of the trades, which `run_backtest` always records
  unfoldable pub execution_costs_of : Numpy → List (Trade fs) → ExecutionCosts
  execution_costs_of np trades =
      let cost_values = map (λ t. t.costs.total_costs_r) trades in
      record {
        average_r = or_zero np.np_mean cost_values;
        median_r = or_zero np.np_median cost_values;
        p90_r = or_zero np.np_quantile_90 cost_values;
        total_r = or_zero np.np_sum cost_values;
        average_components_r = record {
          spread_cost_r = or_zero np.np_mean (map (λ t. t.costs.spread_cost_r) trades);
          slippage_cost_r = or_zero np.np_mean (map (λ t. t.costs.slippage_cost_r) trades);
          commission_cost_r = or_zero np.np_mean (map (λ t. t.costs.commission_cost_r) trades);
          swap_cost_r = or_zero np.np_mean (map (λ t. t.costs.swap_cost_r) trades);
        };
        average_rollover_units =
            or_zero np.np_mean (map (λ t. of_ℤ (pos t.swap_rollover_units)) trades);
      }

  unfoldable pub compute_metrics : Numpy → List (Trade fs) → List F → Metrics
  unfolding max_drawdown_of gross_profit gross_loss execution_costs_of
  compute_metrics np trades equity =
      let wins = length (filter is_win trades) in
      let losses = length (filter is_loss trades) in
      record {
        total_trades = length trades;
        wins = wins;
        losses = losses;
        be_trades = length (filter (λ t. is_be t.close_reason) trades);
        winrate = percent wins (length trades);
        winrate_no_be = percent wins (wins + losses);
        net_r = or_zero np.np_sum (results trades);
        max_drawdown = max_drawdown_of equity;
        profit_factor =
            if is_zero (gross_loss trades)
            then gross_profit trades
            else div (gross_profit trades) (gross_loss trades);
        expectancy = or_zero np.np_mean (results trades);
        avg_win = or_zero np.np_mean (results (filter is_win trades));
        avg_loss = or_zero np.np_mean (results (filter is_loss trades));
        best_trade = or_zero np.np_max (results trades);
        worst_trade = or_zero np.np_min (results trades);
        execution_costs = execution_costs_of np trades;
      }
