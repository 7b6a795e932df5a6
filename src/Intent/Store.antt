-- ===== src/Intent/Store.antt =====
-- The operations of OrderIntentStore (core/order_intent_store.py). What the source reads from
-- the clock and from `uuid` is an argument: `now` and `id`.
use trading_snapshot.Base.{
  ℕ, zero, suc, String, Bool, true, false, ◌&&◌, ◌||◌, Option, none, some, List, [], ◌∷◌, str_eq,
  if◌then◌else◌, filter,
}
use trading_snapshot.Intent.Status.{
  Status, submitting, accepted, partially_filled, filled, parse_status, same_status, may_move,
  is_reconcilable,
}
use trading_snapshot.Intent.BrokerId.{normalise_broker_id}
use trading_snapshot.Intent.Row.{OrderIntent, SignalKey, Value, new_intent}
use trading_snapshot.Intent.Table.{
  ok, no_row, intent_not_found, unknown_status, not_allowed, Action, pure, raise, ◌>>=◌, ◌>>◌,
  transaction, select_signal, select_id, select_active, insert_row, insert_or_ignore, update_row,
}

-- `row[...] or now`: NULL and 0.0 are falsy.
unfoldable pub or_now : Option ℕ → ℕ → Option ℕ
or_now none now = some now
or_now (some zero) now = some now
or_now (some (suc n)) now = some (suc n)

abbrev pub is_accepted_stage : Status → Bool
is_accepted_stage s = same_status s accepted || same_status s partially_filled

abbrev pub is_filled_stage : Status → Bool
is_filled_stage s = same_status s filled || same_status s partially_filled

module _ {R : Type 0} where
  -- One assignment of the UPDATE, after `_normalise_values`.
  unfoldable pub assign : OrderIntent R → Value R → OrderIntent R
  assign r (Value.requested_volume x) = record r { requested_volume = some x }
  assign r (Value.requested_sl x) = record r { requested_sl = some x }
  assign r (Value.requested_tp x) = record r { requested_tp = some x }
  assign r (Value.request x) = record r { request = x }
  assign r (Value.retcode x) = record r { retcode = x }
  assign r (Value.broker_result x) = record r { broker_result = x }
  assign r (Value.broker_order_id x) = record r { broker_order_id = normalise_broker_id x }
  assign r (Value.broker_position_id x) = record r { broker_position_id = normalise_broker_id x }
  assign r (Value.filled_volume x) = record r { filled_volume = x }
  assign r (Value.last_error x) = record r { last_error = x }

  unfoldable pub assign_all : OrderIntent R → List (Value R) → OrderIntent R
  assign_all r [] = r
  assign_all r (v ∷ vs) = assign_all (assign r v) vs

  -- The row that the UPDATE of `transition` leaves: status, values, then the time stamps.
  unfoldable pub moved : OrderIntent R → Status → List (Value R) → ℕ → OrderIntent R
  moved r s values now =
      let changed : OrderIntent R = assign_all (record r { status = s; updated_at = now }) values in
      record changed {
        submitted_at = if same_status s submitting then some now else changed.submitted_at;
        accepted_at = if is_accepted_stage s then or_now r.accepted_at now else changed.accepted_at;
        filled_at = if is_filled_stage s then or_now r.filled_at now else changed.filled_at;
      }

  -- SELECT of the row that was just written, through `_from_row`.
  abbrev pub refetch : String → Action R (OrderIntent R)
  refetch id t = elim (select_id id t) [ none ↦ raise no_row t | some r ↦ pure r t ]

  -- The body of `transition` for a status that is known.
  unfoldable pub move : String → Status → List (Value R) → ℕ → Action R (OrderIntent R)
  move id s values now t = elim (select_id id t) [
    | none ↦ raise intent_not_found t
    | some r ↦
        if same_status r.status s || may_move r.status s
        then (update_row id (moved r s values now) >> refetch id) t
        else raise (not_allowed r.status s) t
  ]

  unfoldable pub transition : String → String → List (Value R) → ℕ → Action R (OrderIntent R)
  transition id status values now = elim (parse_status status) [
    | none ↦ raise unknown_status
    | some s ↦ transaction (move id s values now)
  ]

  -- `set_request`, through `_update`: one UPDATE outside a transaction, and a check of its row
  -- count.
  unfoldable pub set_request : String → R → R → R → Option String → ℕ → Action R (OrderIntent R)
  set_request id volume sl tp request now t = elim (select_id id t) [
    | none ↦ raise intent_not_found t
    | some r ↦
        (update_row id (
              assign_all (record r { updated_at = now })
                (Value.requested_volume volume
                  ∷ Value.requested_sl sl
                  ∷ Value.requested_tp tp
                  ∷ Value.request request
                  ∷ []))
            >> refetch id)
          t
  ]

  -- `get_or_create`: the row of this key, and whether this call inserted it.
  unfoldable pub get_or_create_body :
      String → SignalKey → String → String → ℕ → Action R (OrderIntent R × Bool)
  get_or_create_body id key symbol side now =
      insert_or_ignore (new_intent id key symbol side now) >> λ t. elim (select_signal key t) [
        | none ↦ raise no_row t
        | some r ↦ pure (r, str_eq r.intent_id id) t
      ]

  unfoldable pub get_or_create :
      String → SignalKey → String → String → ℕ → Action R (OrderIntent R × Bool)
  get_or_create id key symbol side now = transaction (get_or_create_body id key symbol side now)

  -- The inserted row, read back.
  abbrev pub claimed_row : String → Action R (OrderIntent R × Bool)
  claimed_row id = refetch id >>= λ r. pure (r, true)

  -- `claim_signal`: an existing row of the key wins, then an unresolved row of the strategy;
  -- only otherwise a new row is inserted.
  unfoldable pub claim_body :
      String → SignalKey → String → String → ℕ → Action R (OrderIntent R × Bool)
  claim_body id key symbol side now t = elim (select_signal key t) [
    | some r ↦ pure (r, false) t
    | none ↦ elim (select_active key.account_id key.strategy_id t) [
      | some r ↦ pure (r, false) t
      | none ↦ (insert_row (new_intent id key symbol side now) >> claimed_row id) t
    ]
  ]

  unfoldable pub claim_signal :
      String → SignalKey → String → String → ℕ → Action R (OrderIntent R × Bool)
  claim_signal id key symbol side now = transaction (claim_body id key symbol side now)

  -- `get`, `get_active` and `list_reconcilable` read only.
  unfoldable pub get : SignalKey → Action R (Option (OrderIntent R))
  get key t = (ok (select_signal key t), t)

  unfoldable pub get_active : String → String → Action R (Option (OrderIntent R))
  get_active account strategy t = (ok (select_active account strategy t), t)

  abbrev pub of_account : Option String → OrderIntent R → Bool
  of_account none r = true
  of_account (some a) r = str_eq r.account_id a

  unfoldable pub list_reconcilable : Option String → Action R (List (OrderIntent R))
  list_reconcilable account t =
      (ok (filter (λ r. is_reconcilable r.status && of_account account r) t), t)
