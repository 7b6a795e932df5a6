-- ===== src/Intent/Table.antt =====
-- The SQLite statements of core/order_intent_store.py over the table as a list of rows in
-- insertion order, and a method body as an action that may raise. Without ORDER BY the order of
-- a result is that of the list; `ORDER BY created_at LIMIT 1` takes the first of the oldest rows.
use trading_snapshot.Base.{
  String, Bool, true, false, Option, none, some, List, [], ◌∷◌, ◌++◌, leb, str_eq, if◌then◌else◌,
  any, filter, find?, ◌&&◌,
}
use trading_snapshot.Intent.Status.{Status, is_active}
use trading_snapshot.Intent.Row.{OrderIntent, SignalKey, same_signal, conflicts}

-- `OrderIntentStoreError` and its subclass, and what a statement raises on its own.
pub data Error : Type 0 where
  -- sqlite3.IntegrityError of a UNIQUE or PRIMARY KEY constraint
  integrity : Error
  -- the TypeError of `_from_row(None)`
  no_row : Error
  intent_not_found : Error
  unknown_status : Error
  not_allowed : Status → Status → Error
  -- "order intent store operation failed", raised by `_run`
  operation_failed : Error

pub data Result (A : Type 0) : Type 0 where
  ok : A → Result A
  err : Error → Result A

abbrev pub Table : Type 0 → Type 0
Table R = List (OrderIntent R)

abbrev pub Action : Type 0 → Type 0 → Type 0
Action R A = Table R → Result A × Table R

module _ {R A : Type 0} where
  abbrev pub pure : A → Action R A
  pure a t = (ok a, t)

  abbrev pub raise : Error → Action R A
  raise e t = (err e, t)

  abbrev pub rolled_back : Table R → Result A × Table R → Result A × Table R
  rolled_back t (ok a, t') = (ok a, t')
  rolled_back t (err e, t') = (err e, t)

  -- BEGIN IMMEDIATE … COMMIT, with ROLLBACK and `raise` on an exception.
  unfoldable pub transaction : Action R A → Action R A
  transaction m t = rolled_back t (m t)

infixl 5 ◌>>=◌ ◌>>◌
abbrev pub ◌>>=◌ : {R A B : Type 0} → Action R A → (A → Action R B) → Action R B
◌>>=◌ m f t = let (r, t') = m t in elim r [ ok a ↦ f a t' | err e ↦ raise e t' ]

abbrev pub ◌>>◌ : {R A B : Type 0} → Action R A → Action R B → Action R B
m >> k = m >>= λ _. k

module _ {R : Type 0} where
  -- SELECT * … WHERE account_id = ? AND strategy_id = ? AND signal_id = ?
  unfoldable pub select_signal : SignalKey → Table R → Option (OrderIntent R)
  select_signal key t = find? (λ r. same_signal r key) t

  -- SELECT * … WHERE intent_id = ?
  unfoldable pub select_id : String → Table R → Option (OrderIntent R)
  select_id id t = find? (λ r. str_eq r.intent_id id) t

  abbrev older : OrderIntent R → Option (OrderIntent R) → OrderIntent R
  older r none = r
  older r (some m) = if leb r.created_at m.created_at then r else m

  -- ORDER BY created_at LIMIT 1
  unfoldable pub earliest : Table R → Option (OrderIntent R)
  earliest [] = none
  earliest (r ∷ rs) = some (older r (earliest rs))

  -- account_id = ? AND strategy_id = ? AND status IN ACTIVE_STATUSES
  unfoldable pub active_for : String → String → OrderIntent R → Bool
  active_for account strategy r =
      str_eq r.account_id account && str_eq r.strategy_id strategy && is_active r.status

  unfoldable pub select_active : String → String → Table R → Option (OrderIntent R)
  unfolding earliest
  select_active account strategy t = earliest (filter (active_for account strategy) t)

  -- INSERT
  unfoldable pub insert_row : OrderIntent R → Action R (Unit {0})
  insert_row r t = if any (conflicts r) t then (err integrity, t) else (ok tt, t ++ r ∷ [])

  -- INSERT OR IGNORE
  unfoldable pub insert_or_ignore : OrderIntent R → Action R (Unit {0})
  insert_or_ignore r t = (ok tt, if any (conflicts r) t then t else t ++ r ∷ [])

  -- The rows that `intent_id = ?` does not select, and the rows with `f` made on the others.
  abbrev pub others : String → Table R → Table R
  others id t = filter (λ r. if str_eq r.intent_id id then false else true) t

  unfoldable pub replace : String → OrderIntent R → Table R → Table R
  replace id new [] = []
  replace id new (r ∷ rs) = (if str_eq r.intent_id id then new else r) ∷ replace id new rs

  -- UPDATE … WHERE intent_id = ? on the row `r` that has this id: `new` is the row after the SET.
  unfoldable pub update_row : String → OrderIntent R → Action R (Unit {0})
  update_row id new t =
      if any (conflicts new) (others id t) then (err integrity, t) else (ok tt, replace id new t)
