-- ===== src/Tests/States.antt =====
-- The account's risk state (risk/account_state_store.py) over whole numbers.
use trading_snapshot.Base.{
  ◌≤◌, true, false, Option, none, some, List, [], ◌∷◌, ◌≡◌, refl, ◌==◌, if◌then◌else◌,
}
use trading_snapshot.Base.Int.{ℤ, pos}
use trading_snapshot.Base.Float.{whole}
use trading_snapshot.Intent.BrokerId
use trading_snapshot.Intent.BrokerId.{Text}
use trading_snapshot.Account.Value
use trading_snapshot.Account.Value.{ok, err, number}
use trading_snapshot.Account.State
use trading_snapshot.Account.State.{AccountState, Db, World, ready, locked}
use trading_snapshot.Account.State.Legacy.{exists, absent, legacy_state}
use trading_snapshot.Account.State.Sound.{HasFile, after_all_files-IsSound}
use trading_snapshot.Account.State.Calls
use trading_snapshot.Account.State.Calls.{Call, records, halts, resets, reads}
use trading_snapshot.Account.State.Calls.History
use trading_snapshot.Account.State.Calls.Once
use trading_snapshot.Account.State.Calls.Resets

abbrev pub at : ℤ → World whole
at now = record { attempts = 3; connection = λ _. ready; legacy = ok none; now = now }

-- The database is locked at the first two attempts.
abbrev busy : World whole
busy = record (at (pos 7)) { connection = λ i. if i == 2 then ready else locked }

abbrev pub empty_db : Db whole
empty_db = record { state = none; reset_audit = [] }

abbrev pub seen : AccountState whole
seen = record {
  starting_equity = some (pos 100);
  peak_equity = some (pos 120);
  last_equity = some (pos 110);
  halted = false;
  halt_reason = none;
  last_breach_at = none;
  last_reset_id = none;
  version = 4;
  updated_at = pos 5;
}

abbrev pub seen_db : Db whole
seen_db = record { state = some seen; reset_audit = [] }

no_file :
    (e : Option (AccountState whole))
    → ◌≡◌ {A = Value.Result (Option (AccountState whole))} (ok none) (ok e)
    → History.IsSound whole e
no_file none h = tt
no_file (some s) h = cc

abbrev calls : List (World whole × Call whole)
calls =
    (at (pos 6), records (number (pos 130)) none)
    ∷ (busy, halts "DD_BREACH")
    ∷ (at (pos 8), halts "HARD_DD_BREACH")
    ∷ (at (pos 9), records (number (pos 90)) none)
    ∷ []

no_such_file : (w : World whole) → w.legacy ≡ ok none → HasFile whole w
unfolding legacy_state
no_such_file w h = (exists, absent, h)

after_all_files-IsSound_example : History.IsSound whole (Calls.after_all whole calls empty_db).state
after_all_files-IsSound_example =
    after_all_files-IsSound whole calls empty_db
      (
        no_such_file (at (pos 6)) refl,
        (
          no_such_file busy refl,
          (no_such_file (at (pos 8)) refl, (no_such_file (at (pos 9)) refl, tt)),
        ),
      )
      tt

after_all-Later_example :
    (s' : AccountState whole) × ((Calls.after_all whole calls seen_db).state ≡ some s')
    × History.Later whole seen s'
after_all-Later_example =
    History.after_all-Later whole calls seen_db seen (refl, (refl, (refl, (refl, tt)))) refl
      (refl, refl, refl)

-- The second monitor is told that the account was halted already.
one_trip : Once.trip_count whole calls seen_db ≡ 1
unfolding Once.trip_count Calls.after State.in_transaction State.transaction State.read_or_migrate
    Value.positive_number
one_trip = refl

trip_count-le_example : Once.trip_count whole calls seen_db ≤ 1
trip_count-le_example =
    Once.trip_count-le whole calls seen_db (refl, (refl, (refl, (refl, tt))))
      (no_file, (no_file, (no_file, (no_file, tt)))) (refl, refl, refl)

abbrev id : Text
id = 114 ∷ 49 ∷ []

abbrev why : Text
why = 111 ∷ 107 ∷ []

reset-applied :
    Once.says_new whole
      (State.reset_if_new whole (at (pos 6)) id why (number (pos 90)) none none seen_db).0
    ≡ true
unfolding State.reset_if_new State.in_transaction State.transaction State.read_or_migrate
    Value.reset_text BrokerId.strip Value.is_sensitive Value.positive_number
reset-applied = refl

reset_if_new-once_example :
    let d' =
      Calls.after_all whole calls
        (State.reset_if_new whole (at (pos 6)) id why (number (pos 90)) none none seen_db).1 in
    (Once.says_new whole
        (State.reset_if_new whole (at (pos 20)) id why (number (pos 70)) none none d').0
      ≡ false)
    × ((State.reset_if_new whole (at (pos 20)) id why (number (pos 70)) none none d').1 ≡ d')
reset_if_new-once_example =
    Resets.reset_if_new-once whole (at (pos 6)) (at (pos 20)) id why why (number (pos 90))
      (number (pos 70)) none none none none seen_db calls reset-applied
