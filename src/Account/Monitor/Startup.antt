-- ===== src/Account/Monitor/Startup.antt =====
-- `perform_startup_reset` (risk/account_monitor.py). The reset flag of the configuration is a
-- part of the state, and what the broker, the database and the flag's file answer is given.
pub mod Flat
use trading_snapshot.Base.{
  Bool, true, false, not, ◌&&◌, Option, none, some, List, [], ◌∷◌, String, if◌then◌else◌,
}
use trading_snapshot.Base.Float.{Floats}
use trading_snapshot.Intent.BrokerId.{Text}
use trading_snapshot.Account.Broker.{Listing, positions, query_failed}
use trading_snapshot.Account.Value.{Error, Result, ok, err, Value, number}
use trading_snapshot.Account.State.{AccountState, Db, World, reset_if_new}
use trading_snapshot.Account.Monitor.{
  Cause, reset_blocked, Switch, Log, reset_applied, startup_reset_blocked, View, row, is_usable,
}
use trading_snapshot.Account.Monitor.Check.{Monitor, log, trip}

-- "startup reset flag"
abbrev pub startup_reason : Text
startup_reason =
    b's' ∷ b't' ∷ b'a' ∷ b'r' ∷ b't' ∷ b'u' ∷ b'p' ∷ 32 ∷ b'r' ∷ b'e' ∷ b's' ∷ b'e' ∷ b't' ∷ 32
    ∷ b'f' ∷ b'l' ∷ b'a' ∷ b'g' ∷ []

module _ (fs : Floats) (sw : Switch) where
  open fs use {F}
  open sw use {triggered}

  pub record Startup : Type 0 where
    pub token : Text
    pub listing : Listing
    pub equity : Option F
    pub balance : Option F
    pub starting_equity : Option (Value fs)
    pub on_reset : World fs
    -- the flag's file could be cleared; an OSError counts as false
    pub consumed : Bool

  -- `reset_state_on_startup`, which may be missing, and the monitor.
  pub record Starting : Type 0 where
    pub reset_flag : Option Bool
    pub monitor : Monitor fs sw

  abbrev pub is_false : Option Bool → Bool
  is_false (some false) = true
  is_false _ = false

  abbrev pub blocked : Monitor fs sw → Monitor fs sw
  blocked m =
      log fs sw startup_reset_blocked (if triggered m.switch then m else trip fs sw reset_blocked m)

  abbrev pub abort : Starting → Bool × Starting
  abort s = (false, record s { monitor = blocked s.monitor })

  -- A balance that is not positive counts as unknown.
  abbrev pub known_balance : Option F → Option (Value fs)
  known_balance none = none
  known_balance (some b) = if is_usable fs b then some (number b) else none

  -- After `reset_if_new`.
  unfoldable pub finish :
      Startup → Result (AccountState fs × Bool) × Db fs → Starting → Bool × Starting
  finish x (err _, d) s = abort (record s { monitor = record s.monitor { db = d } })
  finish x (ok (state, performed), d) s =
      let m : Monitor fs sw = record s.monitor { state = row state; db = d } in
      if x.consumed
      then (
        true,
        record {
          reset_flag = some false;
          monitor = if performed then log fs sw reset_applied m else m;
        },
      )
      else abort (record s { monitor = m })

  unfoldable pub reset_on : Startup → F → Starting → Bool × Starting
  unfolding finish
  reset_on x equity s =
      if is_usable fs equity
      then finish x
          (reset_if_new fs x.on_reset x.token startup_reason (number equity) x.starting_equity
            (known_balance x.balance) s.monitor.db)
          s
      else abort s

  abbrev pub reset_with : Startup → Option F → Starting → Bool × Starting
  reset_with x none s = abort s
  reset_with x (some e) s = reset_on x e s

  unfoldable pub reset_if_flat : Startup → Listing → Starting → Bool × Starting
  unfolding reset_on
  reset_if_flat x (query_failed _) s = abort s
  reset_if_flat x (positions (_ ∷ _)) s = abort s
  reset_if_flat x (positions []) s = reset_with x x.equity s

  unfoldable pub perform_startup_reset : Startup → Starting → Bool × Starting
  unfolding reset_if_flat
  perform_startup_reset x s =
      if is_false s.reset_flag then (true, s) else reset_if_flat x x.listing s
