-- ===== src/Account/State/Legacy.antt =====
-- `_load_legacy_state` and the backup of `_read_or_migrate` (risk/account_state_store.py): what
-- a JSON file of the older format contributes, given what the file system answers.
use trading_snapshot.Base.{false, Option, none, some, if◌then◌else◌}
use trading_snapshot.Base.Float.{Floats}
use trading_snapshot.Account.Value.{
  legacy_unreadable, legacy_not_object, backup_failed, Result, ok, err, ◌>>=◌, Value, null, boolean,
  object, Fields, get, optional_positive, strict_bool, optional_text, optional_timestamp,
}
use trading_snapshot.Account.State.{AccountState}

-- The backup of the file: it exists, it can be made, or copying fails.
pub data Backup : Type 0 where
  exists copied copy_fails : Backup

module _ (fs : Floats) where
  open fs use {F, le, lt, zero_f}

  pub data File : Type 0 where
    absent unreadable : File
    parsed : Value fs → File

  -- `breach_at`, which older files keep inside `last_breach`.
  unfoldable pub breach_time : Fields fs → Value fs
  unfolding get
  breach_time raw = elim (get fs raw "last_breach_at" null) [
    | null ↦ elim (get fs raw "last_breach" null) [ object o ↦ get fs o "ts" null | _ ↦ null ]
    | v ↦ v
  ]

  -- `updated_at or now`: zero is false.
  abbrev pub or_now : Option F → F → F
  or_now none now = now
  or_now (some x) now = if lt x zero_f then x else if le x zero_f then now else x

  unfoldable pub load_object : F → Fields fs → Result (AccountState fs)
  unfolding get breach_time
  load_object now raw = do
    starting ← optional_positive fs "starting_equity" (get fs raw "starting_equity" null)
    peak ← optional_positive fs "peak_equity" (get fs raw "peak_equity" null)
    last ← optional_positive fs "last_equity" (get fs raw "last_equity" null)
    is_halted ← strict_bool fs "halted" (get fs raw "halted" (boolean false))
    reason ← optional_text fs "halt_reason" (get fs raw "halt_reason" null)
    breach ← optional_timestamp fs (breach_time raw)
    updated ← optional_timestamp fs (get fs raw "updated_at" null)
    ok (record {
      starting_equity = starting;
      peak_equity = peak;
      last_equity = last;
      halted = is_halted;
      halt_reason = reason;
      last_breach_at = breach;
      last_reset_id = none;
      version = 1;
      updated_at = or_now updated now;
    })

  abbrev pub backed_up : Backup → Result (AccountState fs) → Result (Option (AccountState fs))
  backed_up copy_fails (ok s) = err backup_failed
  backed_up _ (ok s) = ok (some s)
  backed_up _ (err e) = err e

  -- The state that `_read_or_migrate` inserts into a database without a row.
  unfoldable pub legacy_state : Backup → F → File → Result (Option (AccountState fs))
  unfolding load_object
  legacy_state backup now absent = ok none
  legacy_state backup now unreadable = err legacy_unreadable
  legacy_state backup now (parsed (object raw)) = backed_up backup (load_object now raw)
  legacy_state backup now (parsed _) = err legacy_not_object
