-- ===== src/Risk/Gate/Agree.antt =====
-- The heartbeat's status against the gate, and repeated calls of the gate
-- (risk/risk_manager.py).
use trading_snapshot.Base.{Option, none, some, String, ◌≡◌, ◌↔◌, refl, arith}
use trading_snapshot.Base.Float.{Floats}
use trading_snapshot.Risk.Gate.{
  Manager, Decision, allowed, blocked, running, check_account_halt, check_open_positions_limit, Pnl,
  no_pnl, pnls, Readings, strategy_pnls, margin_guard, order_guard, decide_pnl, decide,
  can_open_new_trade, Status, status_of, status_snapshot,
}

module _ (fs : Floats) where
  abbrev pub Agrees : Decision → Option (Status fs) → Type 0
  Agrees d none = d ≡ allowed → ⊥
  Agrees d (some s) = (d ≡ allowed) ↔ (s.lock_state ≡ running)

  decide_pnl-Agrees :
      (r : Readings fs) (m : Manager) (p : Pnl fs)
      → margin_guard fs r ≡ none
      → Agrees (decide_pnl fs r m p).1 (status_of fs r p)
  unfolding decide_pnl
  decide_pnl-Agrees r m (no_pnl reason) h = ground arith
  decide_pnl-Agrees r m (pnls day week) h = rw h (ground arith)

  status-locked :
      (r : Readings fs) (m : Manager) (p : Pnl fs) (reason why : String)
      → margin_guard fs r ≡ some reason
      → Agrees (blocked (some why)) (status_of fs r p)
  status-locked r m (no_pnl e) reason why h = ground arith
  status-locked r m (pnls day week) reason why h = rw h (ground arith)

  -- While the account is not halted and below its position cap, the heartbeat's lock state is
  -- RUNNING exactly when the gate opens, and where the heartbeat fails the gate is shut.
  pub status_snapshot-Agrees :
      (r : Readings fs) (m : Manager)
      → check_account_halt r.halt ≡ none
      → check_open_positions_limit r.cap r.exposure ≡ none
      → Agrees (can_open_new_trade fs r m).1 (status_snapshot fs r)
  unfolding can_open_new_trade decide order_guard status_snapshot
  status_snapshot-Agrees r m h k = rw h (rw k (go (margin_guard fs r) refl))
    where
      go :
          (g : Option String)
          → margin_guard fs r ≡ g
          → Agrees (decide fs r m g).1 (status_of fs r (strategy_pnls fs r))
      go none e = decide_pnl-Agrees r m (strategy_pnls fs r) e
      go (some reason) e = status-locked r m (strategy_pnls fs r) reason reason e
