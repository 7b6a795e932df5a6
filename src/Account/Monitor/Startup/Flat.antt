-- ===== src/Account/Monitor/Startup/Flat.antt =====
-- When a startup reset is applied (risk/account_monitor.py).
use trading_snapshot.Base.{
  Bool, true, Option, none, some, [], ◌∷◌, ◌≡◌, refl, ◌⊎◌, inl, inr, Bool-cases,
}
use trading_snapshot.Base.Float.{Floats}
use trading_snapshot.Account.Broker.{Listing, positions, query_failed}
use trading_snapshot.Account.Value.{Result, ok, err, number}
use trading_snapshot.Account.State.{AccountState, Db, reset_if_new}
use trading_snapshot.Account.Monitor.{reset_blocked, Switch, row, is_usable}
use trading_snapshot.Account.Monitor.Startup.{
  Startup, Starting, startup_reason, is_false, abort, known_balance, finish, reset_on, reset_with,
  reset_if_flat, perform_startup_reset,
}

module _ (fs : Floats) (sw : Switch) where
  open fs use {F}
  open sw use {triggered, trigger, trigger-triggered}

  -- What a startup may do: leave the database and go on only if no reset was asked for, or
  -- reset an account that the broker reports as flat.
  abbrev pub IsCautious : Startup fs sw → Starting fs sw → Bool × Starting fs sw → Type 0
  IsCautious x s (done, s') =
      ((s'.monitor.db ≡ s.monitor.db) ⊎ (x.listing ≡ positions []))
      × ((done ≡ true) ⊎ (triggered s'.monitor.switch ≡ true))

  abort-triggered : (s : Starting fs sw) → triggered (abort fs sw s).1.monitor.switch ≡ true
  abort-triggered s = elim (Bool-cases (triggered s.monitor.switch)) [
    | inl on ↦ rw on on
    | inr off ↦ rw off (trigger-triggered reset_blocked s.monitor.switch)
  ]

  abort-db : (s : Starting fs sw) → (abort fs sw s).1.monitor.db ≡ s.monitor.db
  abort-db s = elim (Bool-cases (triggered s.monitor.switch)) [
    | inl on ↦ rw on refl
    | inr off ↦ rw off refl
  ]

  abort-IsCautious : (x : Startup fs sw) (s : Starting fs sw) → IsCautious x s (abort fs sw s)
  abort-IsCautious x s = (inl (abort-db s), inr (abort-triggered s))

  finish-settled :
      (x : Startup fs sw) (q : Result (AccountState fs × Bool) × Db fs) (s : Starting fs sw)
      → ((finish fs sw x q s).0 ≡ true) ⊎ (triggered (finish fs sw x q s).1.monitor.switch ≡ true)
  unfolding finish
  finish-settled x (err _, d) s =
      inr (abort-triggered (record s { monitor = record s.monitor { db = d } }))
  finish-settled x (ok (state, performed), d) s = elim (Bool-cases x.consumed) [
    | inl cleared ↦ inl (rw cleared refl)
    | inr kept ↦ inr (
        rw kept
          (abort-triggered (record s { monitor = record s.monitor { state = row state; db = d } })))
  ]

  reset_on-IsCautious :
      (x : Startup fs sw) (e : F) (s : Starting fs sw)
      → x.listing ≡ positions []
      → IsCautious x s (reset_on fs sw x e s)
  unfolding reset_on
  reset_on-IsCautious x e s flat = elim (Bool-cases (is_usable fs e)) [
    | inr bad ↦ rw bad (abort-IsCautious x s)
    | inl good ↦ rw good (
      inr flat,
      finish-settled x
          (reset_if_new fs x.on_reset x.token startup_reason (number e) x.starting_equity
            (known_balance fs sw x.balance) s.monitor.db)
          s,
    )
  ]

  reset_with-IsCautious :
      (x : Startup fs sw) (o : Option F) (s : Starting fs sw)
      → x.listing ≡ positions []
      → IsCautious x s (reset_with fs sw x o s)
  reset_with-IsCautious x none s flat = abort-IsCautious x s
  reset_with-IsCautious x (some e) s flat = reset_on-IsCautious x e s flat

  listing-IsCautious :
      (x : Startup fs sw) (s : Starting fs sw) (l : Listing)
      → x.listing ≡ l
      → IsCautious x s (reset_if_flat fs sw x l s)
  unfolding reset_if_flat
  listing-IsCautious x s (query_failed w) h = abort-IsCautious x s
  listing-IsCautious x s (positions (t ∷ ts)) h = abort-IsCautious x s
  listing-IsCautious x s (positions []) h = reset_with-IsCautious x x.equity s h

  -- The database changes at startup only if the broker listed no position; and a startup that
  -- does not report success has triggered the kill switch.
  pub perform_startup_reset-IsCautious :
      (x : Startup fs sw) (s : Starting fs sw) → IsCautious x s (perform_startup_reset fs sw x s)
  unfolding perform_startup_reset
  perform_startup_reset-IsCautious x s = elim (Bool-cases (is_false fs sw s.reset_flag)) [
    | inl skip ↦ rw skip (inl refl, inl refl)
    | inr wanted ↦ rw wanted (listing-IsCautious x s x.listing refl)
  ]
