-- ===== src/Intent/Claims/Exclusive.antt =====
-- One claim at a time for a strategy of an account: what a second `claim_signal` returns after a
-- first one won (core/order_intent_store.py).
use trading_snapshot.Base.{
  ℕ, String, Bool, true, false, none, some, List, [], ◌∷◌, ◌++◌, str_eq_iff, ◌≡◌, refl, arith, inl,
  inr, Option-cases, filter,
}
use trading_snapshot.Intent.Status.{is_active}
use trading_snapshot.Intent.Row.{OrderIntent, SignalKey, new_intent, same_signal}
use trading_snapshot.Intent.Table.{Table, ok, select_signal, select_active, active_for, earliest}
use trading_snapshot.Intent.Store.{claim_signal}
use trading_snapshot.Intent.Keys.{str_eq_refl}
use trading_snapshot.Intent.Select.{find?-some, find?-stands, active_none}
use trading_snapshot.Intent.Claims.{claim_found, claim_busy, claim-Won}

pub filter-append {ℓ} :
    {A : Type ℓ} (p : A → Bool) (xs ys : List A) → filter p (xs ++ ys) ≡ filter p xs ++ filter p ys
filter-append p [] ys = refl
filter-append p (x ∷ xs) ys = ground (arith, filter-append p xs ys)

module _ {R : Type 0} where
  -- a row of the table, of a strategy of an account
  pub record IsRowOf (account strategy : String) (x : OrderIntent R) (table : Table R)
      : Type 0 where
    pub before : Table R
    pub after : Table R
    pub stands : table ≡ before ++ x ∷ after
    pub account_is : x.account_id ≡ account
    pub strategy_is : x.strategy_id ≡ strategy

-- The row that a claim inserts is unresolved, and is found under its key.
module _ (R : Type 0) (id : String) (key : SignalKey) (symbol side : String) (now : ℕ) where
  new_intent-active :
      active_for key.account_id key.strategy_id (new_intent {R = R} id key symbol side now) ≡ true
  unfolding active_for new_intent is_active
  new_intent-active = rw (str_eq_refl key.account_id, str_eq_refl key.strategy_id) refl

module _ {R : Type 0} (id : String) (key : SignalKey) (symbol side : String) (now : ℕ)
    (t : Table R) where
  abbrev new : OrderIntent R
  new = new_intent id key symbol side now

  active-snoc :
      select_active key.account_id key.strategy_id t ≡ none
      → select_active key.account_id key.strategy_id (t ++ new ∷ []) ≡ some new
  unfolding select_active earliest
  active-snoc idle =
      let mine = active_for {R = R} key.account_id key.strategy_id in
      let nothing : filter mine t ≡ [] = active_none key.account_id key.strategy_id t idle in
      rw (filter-append mine t (new ∷ []))
        (rw nothing (rw (new_intent-active R id key symbol side now) refl))

  module _ (r : OrderIntent R) (t' : Table R)
      (won : claim_signal id key symbol side now t ≡ (ok (r, true), t'))
      (id' symbol' side' : String) (now' : ℕ) where
    signal-owner :
        (x : OrderIntent R) (signal : String)
        → same_signal x (record key { signal_id = signal }) ≡ true
        → (x.account_id ≡ key.account_id) × (x.strategy_id ≡ key.strategy_id)
    unfolding same_signal
    signal-owner x signal h =
        ground
          (arith, str_eq_iff x.account_id key.account_id, str_eq_iff x.strategy_id key.strategy_id)

    new_owner : (new.account_id ≡ key.account_id) × (new.strategy_id ≡ key.strategy_id)
    unfolding new_intent
    new_owner = (refl, refl)

    -- On the table that a claim which won has left, a claim of any signal of the same strategy
    -- writes nothing and does not win: it returns a row of this table, of the same strategy and
    -- account.
    pub claim_signal_excludes :
        (signal : String)
        → (x : OrderIntent R) × (claim_signal id'
              (record key { signal_id = signal })
              symbol'
              side'
              now'
              t'
            ≡ (ok (x, false), t'))
          × IsRowOf key.account_id key.strategy_id x t'
    unfolding select_signal
    claim_signal_excludes signal =
        let w = claim-Won id key symbol side now t r t' won in
        let key' : SignalKey = record key { signal_id = signal } in
        let p : OrderIntent R → Bool = λ x. same_signal x key' in
        rw w.table (elim (Option-cases (select_signal key' (t ++ new ∷ []))) [
          | inr (x, found) ↦
              let (before, after, stands) = find?-stands p (t ++ new ∷ []) x found in
              let (account, strategy) =
                signal-owner x signal (find?-some p (t ++ new ∷ []) x found) in
              (
                x,
                claim_found id' key' symbol' side' now' (t ++ new ∷ []) x found,
                record {
                  before = before;
                  after = after;
                  stands = stands;
                  account_is = account;
                  strategy_is = strategy;
                },
              )
          | inl unseen ↦ (
            new,
            claim_busy id' key' symbol' side' now' (t ++ new ∷ []) new unseen (active-snoc w.idle),
            record {
              before = t;
              after = [];
              stands = refl;
              account_is = new_owner.0;
              strategy_is = new_owner.1;
            },
          )
        ])
