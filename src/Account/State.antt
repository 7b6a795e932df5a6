-- ===== src/Account/State.antt =====
-- AccountStateStore (risk/account_state_store.py): the row of the store's account, the audit of
-- its resets, and the operations, each inside `_transaction`. Sums over floats are not needed:
-- SQLite's comparison `? > peak_equity` on REAL columns is the float comparison.
pub mod Legacy
pub mod Calls
pub mod Sound
use trading_snapshot.Base.{
  ℕ, zero, suc, ◌+◌, Bool, true, false, not, ◌&&◌, Option, none, some, is_some, List, [], ◌∷◌, ◌++◌,
  String, str_eq, if◌then◌else◌, any,
}
use trading_snapshot.Base.Float.{Floats}
use trading_snapshot.Intent.BrokerId.{Text, text_eq}
use trading_snapshot.Account.Value.{
  Error, halt_reason_required, audit_without_state, unavailable, Result, ok, err, ◌>>=◌, Value,
  positive_number, reset_text,
}

pub data Connection : Type 0 where
  ready locked broken : Connection

module _ (fs : Floats) where
  open fs use {F, lt}

  pub record AccountState : Type 0 where
    pub starting_equity : Option F
    pub peak_equity : Option F
    pub last_equity : Option F
    pub halted : Bool
    pub halt_reason : Option String
    pub last_breach_at : Option F
    pub last_reset_id : Option Text
    pub version : ℕ
    pub updated_at : F

  -- A row of `reset_audit`; `old_state` and `new_state` stand for its old_ and new_ columns.
  pub record Audit : Type 0 where
    pub reset_id : Text
    pub reset_reason : Text
    pub reset_at : F
    pub old_state : Option AccountState
    pub new_state : AccountState

  pub record Db : Type 0 where
    pub state : Option AccountState
    pub reset_audit : List Audit

  abbrev pub Action : Type 0 → Type 0
  Action A = Db → Result A × Db

  abbrev pub then_write : {A B : Type 0} → Result A → (A → Action B) → Action B
  then_write (ok a) k d = k a d
  then_write (err e) k d = (err e, d)

  module _ {A : Type 0} where
    -- An operation that raises is rolled back with its transaction.
    abbrev pub committed : Db → Result A × Db → Result A × Db
    committed d (ok a, d') = (ok a, d')
    committed d (err e, _) = (err e, d)

    -- `_transaction`: `left` attempts remain, and `env` says what each meets.
    unfoldable pub transaction : ℕ → ℕ → (ℕ → Connection) → Action A → Action A
    transaction zero attempt env op d = (err unavailable, d)
    transaction (suc left) attempt env op d =
        let again = transaction left (suc attempt) env op d in
        elim (env attempt) [
          | ready ↦ committed d (op d)
          | locked ↦ again
          | broken ↦ (err unavailable, d)
        ]

  -- What a call meets: the attempts allowed, the database at each, the legacy file and the time.
  pub record World : Type 0 where
    pub attempts : ℕ
    pub connection : ℕ → Connection
    pub legacy : Result (Option AccountState)
    pub now : F

  -- The row, or the legacy file's state, which is inserted first.
  abbrev pub settled : Db → Result (Option AccountState) → Result (Option AccountState) × Db
  settled d (ok s) = (ok s, record d { state = s })
  settled d (err e) = (err e, d)

  unfoldable pub read_or_migrate : World → Action (Option AccountState)
  read_or_migrate w d = elim d.state [ some s ↦ (ok (some s), d) | none ↦ settled d w.legacy ]

  module _ {A : Type 0} where
    abbrev pub migrated : World → (Option AccountState → Action A) → Action A
    migrated w k d = then_write (read_or_migrate w d).0 k (read_or_migrate w d).1

    unfoldable pub in_transaction : World → Action A → Action A
    unfolding transaction
    in_transaction w op = transaction w.attempts 0 w.connection op

  -- `_fetch_state` after an insert or an update of the account's row.
  abbrev pub stored : AccountState → Action AccountState
  stored s d = (ok s, record d { state = some s })

  abbrev pub coalesce : Option F → F → Option F
  coalesce none x = some x
  coalesce (some y) x = some y

  -- `configured or broker or equity`: what is given has passed `_positive_number`.
  abbrev pub or_equity : Option F → F → F
  or_equity none e = e
  or_equity (some x) e = x

  abbrev pub raised_peak : Option F → F → Option F
  raised_peak none e = some e
  raised_peak (some p) e = if lt p e then some e else some p

  unfoldable pub observed : F → F → F → Option AccountState → AccountState
  observed starting equity now none = record {
    starting_equity = some starting;
    peak_equity = some equity;
    last_equity = some equity;
    halted = false;
    halt_reason = none;
    last_breach_at = none;
    last_reset_id = none;
    version = 1;
    updated_at = now;
  }
  observed starting equity now (some s) = record s {
    peak_equity = raised_peak s.peak_equity equity;
    starting_equity = coalesce s.starting_equity starting;
    last_equity = some equity;
    version = suc s.version;
    updated_at = now;
  }

  unfoldable pub halted_state : String → F → Option AccountState → AccountState
  halted_state reason now none = record {
    starting_equity = none;
    peak_equity = none;
    last_equity = none;
    halted = true;
    halt_reason = some reason;
    last_breach_at = some now;
    last_reset_id = none;
    version = 1;
    updated_at = now;
  }
  halted_state reason now (some s) = record s {
    halted = true;
    halt_reason = if s.halted then s.halt_reason else some reason;
    last_breach_at = if s.halted then s.last_breach_at else some now;
    version = suc s.version;
    updated_at = now;
  }

  abbrev pub next_version : Option AccountState → ℕ
  next_version none = 1
  next_version (some s) = suc s.version

  unfoldable pub reset_state : F → F → Text → F → Option AccountState → AccountState
  reset_state starting equity id now old = record {
    starting_equity = some starting;
    peak_equity = some equity;
    last_equity = some equity;
    halted = false;
    halt_reason = none;
    last_breach_at = none;
    last_reset_id = some id;
    version = next_version old;
    updated_at = now;
  }

  abbrev pub was_halted : Option AccountState → Bool
  was_halted none = false
  was_halted (some s) = s.halted

  abbrev pub has_id : Text → Audit → Bool
  has_id id a = text_eq a.reset_id id

  abbrev pub optional_equity : String → Option (Value fs) → Result (Option F)
  optional_equity name none = ok none
  optional_equity name (some v) = do x ← positive_number fs name v; ok (some x)

  module _ (w : World) where
    unfoldable pub read_state : Action (Option AccountState)
    unfolding in_transaction read_or_migrate
    read_state = in_transaction w (read_or_migrate w)

    abbrev pub observe : F → F → Action AccountState
    observe starting equity =
        migrated w (λ existing. stored (observed starting equity w.now existing))

    unfoldable pub record_equity : Value fs → Option (Value fs) → Action AccountState
    unfolding in_transaction read_or_migrate observed
    record_equity equity configured = then_write (positive_number fs "equity" equity) (λ e.
        then_write (optional_equity "configured_starting_equity" configured)
          (λ c. in_transaction w (observe (or_equity c e) e)))

    abbrev pub set_halt : String → Option AccountState → Action (AccountState × Bool)
    set_halt reason existing d =
        let s = halted_state reason w.now existing in
        (ok (s, not (was_halted existing)), record d { state = some s })

    unfoldable pub halt : String → Action (AccountState × Bool)
    unfolding in_transaction read_or_migrate halted_state
    halt reason =
        if str_eq reason ""
        then (λ d. (err halt_reason_required, d))
        else in_transaction w (migrated w (set_halt reason))

    -- The transition of `reset_if_new`, on checked arguments.
    abbrev pub apply_reset :
        Text → Text → F → F → Option AccountState → Action (AccountState × Bool)
    apply_reset id reason starting equity existing d =
        let s = reset_state starting equity id w.now existing in
        let entry : Audit = record {
          reset_id = id;
          reset_reason = reason;
          reset_at = w.now;
          old_state = existing;
          new_state = s;
        } in
        (ok (s, true), record d { state = some s; reset_audit = d.reset_audit ++ entry ∷ [] })

    abbrev pub repeated : Option AccountState → Action (AccountState × Bool)
    repeated none d = (err audit_without_state, d)
    repeated (some s) d = (ok (s, false), d)

    abbrev pub reset_once : Text → Text → F → F → Option AccountState → Action (AccountState × Bool)
    reset_once id reason starting equity existing d =
        if any (has_id id) d.reset_audit
        then repeated existing d
        else apply_reset id reason starting equity existing d

    unfoldable pub reset_if_new :
        Text
        → Text
        → Value fs
        → Option (Value fs)
        → Option (Value fs)
        → Action (AccountState × Bool)
    unfolding in_transaction read_or_migrate reset_state
    reset_if_new id reason equity configured balance = then_write (reset_text false 128 id) (λ i.
        then_write (reset_text true 512 reason) (λ r.
          then_write (positive_number fs "current_equity" equity) (λ e.
            then_write (optional_equity "configured_starting_equity" configured) (λ c.
              then_write (optional_equity "broker_balance" balance) (λ b.
                in_transaction w (migrated w (reset_once i r (or_equity c (or_equity b e)) e)))))))

    unfoldable pub list_reset_audit : Action (List Audit)
    unfolding in_transaction
    list_reset_audit = in_transaction w (λ d. (ok d.reset_audit, d))
