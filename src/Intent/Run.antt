-- ===== src/Intent/Run.antt =====
-- `_run` of core/order_intent_store.py: every operation opens its own connection and is tried
-- again while the database is locked. What SQLite answers at each attempt is an argument.
use Prim.Native.Nat.{◌^◌}
use trading_snapshot.Base.{ℕ, zero, suc, ◌+◌, ◌≡◌, arith, ◌⊎◌}
use trading_snapshot.Intent.Table.{
  Table, Result, ok, err, integrity, no_row, operation_failed, Action,
}

-- How an attempt to connect, to begin or to commit goes: it raises nothing, an OperationalError
-- that says "locked", or another sqlite3.DatabaseError. A raise rolls the transaction back.
pub data Connection : Type 0 where
  ready locked broken : Connection

-- IntegrityError and TypeError are wrapped; an OrderIntentStoreError passes.
abbrev pub surface : {A : Type 0} → Result A → Result A
surface (ok a) = ok a
surface (err integrity) = err operation_failed
surface (err no_row) = err operation_failed
surface (err e) = err e

module _ {R A : Type 0} where
  abbrev pub surfaced : Result A × Table R → Result A × Table R
  surfaced (r, t) = (surface r, t)

  -- The loop over `range(lock_retry_attempts + 1)`: `left` retries remain after attempt `k`.
  unfoldable pub run_from : ℕ → ℕ → (ℕ → Connection) → Action R A → Action R A
  run_from zero k env m t = elim (env k) [
    | ready ↦ surfaced (m t)
    | locked ↦ (err operation_failed, t)
    | broken ↦ (err operation_failed, t)
  ]
  run_from (suc left) k env m t = elim (env k) [
    | ready ↦ surfaced (m t)
    | locked ↦ run_from left (suc k) env m t
    | broken ↦ (err operation_failed, t)
  ]

  unfoldable pub run : ℕ → (ℕ → Connection) → Action R A → Action R A
  run attempts env m = run_from attempts 0 env m

  run_from-table :
      (left k : ℕ) (env : ℕ → Connection) (m : Action R A) (t : Table R)
      → ((run_from left k env m t).1 ≡ (m t).1) ⊎ ((run_from left k env m t).1 ≡ t)
  unfolding run_from
  run_from-table zero k env m t = ground arith
  run_from-table (suc left) k env m t = ground (arith, run_from-table left (suc k) env m t)

  run_from-cases :
      (left k : ℕ) (env : ℕ → Connection) (m : Action R A) (t : Table R)
      → (run_from left k env m t ≡ surfaced (m t))
        ⊎ (run_from left k env m t ≡ (err operation_failed, t))
  unfolding run_from
  run_from-cases zero k env m t = ground arith
  run_from-cases (suc left) k env m t = ground (arith, run_from-cases left (suc k) env m t)

  -- The operation ran, or the call raises on the table as it was.
  pub run-cases :
      (attempts : ℕ) (env : ℕ → Connection) (m : Action R A) (t : Table R)
      → (run attempts env m t ≡ surfaced (m t)) ⊎ (run attempts env m t ≡ (err operation_failed, t))
  unfolding run
  run-cases attempts env m t = run_from-cases attempts 0 env m t

  -- Whatever the database answers, the operation takes effect once or not at all.
  pub run-table :
      (attempts : ℕ) (env : ℕ → Connection) (m : Action R A) (t : Table R)
      → ((run attempts env m t).1 ≡ (m t).1) ⊎ ((run attempts env m t).1 ≡ t)
  unfolding run
  run-table attempts env m t = run_from-table attempts 0 env m t

-- The seconds slept, in multiples of `lock_retry_base_sec`.
unfoldable pub slept_from : ℕ → ℕ → (ℕ → Connection) → ℕ
slept_from zero k env = 0
slept_from (suc left) k env = elim (env k) [
  | ready ↦ 0
  | locked ↦ 2 ^ k + slept_from left (suc k) env
  | broken ↦ 0
]
