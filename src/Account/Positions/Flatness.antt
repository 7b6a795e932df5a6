-- ===== src/Account/Positions/Flatness.antt =====
-- When `flatten_account` may report a flat account, and what its ticket lists account for.
use trading_snapshot.Base.{
  ℕ, String, Bool, true, false, ◌||◌, List, [], ◌∷◌, ◌++◌, ◌==◌, ◌≡◌, refl, arith,
}
use trading_snapshot.Account.Broker.{Broker, Listing, positions, query_failed}
use trading_snapshot.Account.Positions.{
  FlattenResult, empty, is_flat, close_each, verification, verify_flat, verified, closing_pass,
  flatten_account,
}

-- `t in tickets`, and `t in failed_tickets`.
abbrev pub mem : ℕ → List ℕ → Bool
mem t [] = false
mem t (x ∷ xs) = t == x || mem t xs

abbrev pub has_key : ℕ → List (ℕ × String) → Bool
has_key t [] = false
has_key t (e ∷ d) = t == e.0 || has_key t d

pub mem-append : (t : ℕ) (xs ys : List ℕ) → mem t (xs ++ ys) ≡ (mem t xs || mem t ys)
mem-append t [] ys = refl
mem-append t (x ∷ xs) ys = ground (arith, mem-append t xs ys)

-- Every ticket is attempted exactly when it is in one of the three outcome lists.
abbrev pub Accounted : FlattenResult → Type 0
Accounted r =
    (t : ℕ)
    → mem t r.attempted_tickets
      ≡ (mem t r.closed_tickets || (mem t r.already_closed_tickets || has_key t r.failed_tickets))

-- The tickets of a listing that did not raise.
abbrev pub listed : Listing → List ℕ
listed (positions ts) = ts
listed (query_failed e) = []

module _ (b : Broker) where
  open b use {State, list_all_positions, close_position_by_ticket, done}

  -- The account was seen to be flat: a query in some state of the account returned no position,
  -- and nothing was called after it.
  abbrev pub SeenFlat : State → Type 0
  SeenFlat final = (s : State) × (list_all_positions s ≡ (positions [], final))

  verified-SeenFlat :
      (r : FlattenResult) (l : Listing) (s s' : State)
      → list_all_positions s ≡ (l, s')
      → is_flat (verified r (verification l)) ≡ true
      → SeenFlat s'
  unfolding is_flat
  verified-SeenFlat r (query_failed e) s s' q h = cc
  verified-SeenFlat r (positions []) s s' q h = (s, q)
  verified-SeenFlat r (positions (x ∷ ts)) s s' q h = cc

  closing_pass-SeenFlat :
      (reason : String) (l : Listing) (s : State)
      → is_flat (closing_pass b reason l s).0 ≡ true
      → SeenFlat (closing_pass b reason l s).1
  unfolding verify_flat is_flat
  closing_pass-SeenFlat reason (query_failed e) s h = cc
  closing_pass-SeenFlat reason (positions ts) s h =
      let (r, s') = close_each b ts (empty reason) s in
      let (l, s'') = list_all_positions s' in
      verified-SeenFlat r l s' s'' refl (unfold is_flat in h)

  -- Flatness is never assumed: it is reported only if a query that followed the last close
  -- returned no position at all. A failed query is not flat.
  pub flatten_account-is_flat :
      (reason : String) (s : State)
      → is_flat (flatten_account b reason s).0 ≡ true
      → SeenFlat (flatten_account b reason s).1
  unfolding flatten_account
  flatten_account-is_flat reason s h =
      let (l, s') = list_all_positions s in closing_pass-SeenFlat reason l s' h
