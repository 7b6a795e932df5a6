-- ===== src/Account/Positions.antt =====
-- AccountPositionService (core/account_position_service.py): close every position of the
-- account, then ask again what is open.
pub mod Flatness
pub mod Honest
use trading_snapshot.Base.{
  ℕ, String, Bool, true, false, ◌&&◌, ◌||◌, Option, none, some, is_some, List, [], ◌∷◌, ◌++◌, ◌==◌,
  if◌then◌else◌,
}
use trading_snapshot.Base.Int.{ℤ, pos_part, neg_part}
use trading_snapshot.Account.Broker.{
  Broker, Listing, positions, query_failed, CloseReply, query_error, unexpected, gone, no_result,
  result,
}

pub record FlatVerification : Type 0 where
  pub remaining_tickets : List ℕ
  pub error : Option String

-- A Python dict in insertion order.
abbrev pub put : ℕ → String → List (ℕ × String) → List (ℕ × String)
put k v [] = (k, v) ∷ []
put k v (e ∷ d) = if k == e.0 then (k, v) ∷ d else e ∷ put k v d

pub record FlattenResult : Type 0 where
  pub reason : String
  pub attempted_tickets : List ℕ
  pub closed_tickets : List ℕ
  pub already_closed_tickets : List ℕ
  pub failed_tickets : List (ℕ × String)
  pub remaining_tickets : List ℕ
  pub verification_error : Option String

abbrev pub empty : String → FlattenResult
empty reason = record {
  reason = reason;
  attempted_tickets = [];
  closed_tickets = [];
  already_closed_tickets = [];
  failed_tickets = [];
  remaining_tickets = [];
  verification_error = none;
}

abbrev pub is_nil {ℓ} : {A : Type ℓ} → List A → Bool
is_nil [] = true
is_nil (_ ∷ _) = false

-- `FlattenResult.is_flat`
unfoldable pub is_flat : FlattenResult → Bool
is_flat r = if is_some r.verification_error then false else is_nil r.remaining_tickets

-- The pair that `close_position_by_ticket` of the service returns.
pub data Closing : Type 0 where
  closed already_closed : Closing
  failed : String → Closing

abbrev pub same_ℤ : ℤ → ℤ → Bool
same_ℤ a b = pos_part a == pos_part b && neg_part a == neg_part b

abbrev pub is_retcode : Option ℤ → ℤ → Bool
is_retcode none done = false
is_retcode (some c) done = same_ℤ c done

unfoldable pub classify : ℤ → CloseReply → Closing
classify done (query_error e) = failed e
classify done (unexpected e) = failed e
classify done gone = already_closed
classify done no_result = failed "MT5 order_send returned no result"
classify done (result code context) = if is_retcode code done then closed else failed context

-- The branch of the loop in `flatten_account` for one ticket.
unfoldable pub note : ℕ → Closing → FlattenResult → FlattenResult
note ticket closed r = record r {
  attempted_tickets = r.attempted_tickets ++ ticket ∷ [];
  closed_tickets = r.closed_tickets ++ ticket ∷ [];
}
note ticket already_closed r = record r {
  attempted_tickets = r.attempted_tickets ++ ticket ∷ [];
  already_closed_tickets = r.already_closed_tickets ++ ticket ∷ [];
}
note ticket (failed e) r = record r {
  attempted_tickets = r.attempted_tickets ++ ticket ∷ [];
  failed_tickets = put ticket e r.failed_tickets;
}

abbrev pub verification : Listing → FlatVerification
verification (positions ts) = record { remaining_tickets = ts; error = none }
verification (query_failed e) = record { remaining_tickets = []; error = some e }

abbrev pub verified : FlattenResult → FlatVerification → FlattenResult
verified r v = record r { remaining_tickets = v.remaining_tickets; verification_error = v.error }

module _ (b : Broker) where
  open b use {State, list_all_positions, close_position_by_ticket, done}

  unfoldable pub close_ticket : ℕ → State → Closing × State
  close_ticket ticket s =
      let (reply, s') = close_position_by_ticket ticket s in (classify done reply, s')

  -- The loop over the listed positions.
  unfoldable pub close_each : List ℕ → FlattenResult → State → FlattenResult × State
  close_each [] r s = (r, s)
  close_each (ticket ∷ rest) r s =
      let (closing, s') = close_ticket ticket s in close_each rest (note ticket closing r) s'

  unfoldable pub verify_flat : State → FlatVerification × State
  verify_flat s = let (listing, s') = list_all_positions s in (verification listing, s')

  abbrev pub closing_pass : String → Listing → State → FlattenResult × State
  closing_pass reason (query_failed e) s =
      (record (empty reason) { verification_error = some e }, s)
  closing_pass reason (positions ts) s =
      let (r, s') = close_each ts (empty reason) s in
      let (v, s'') = verify_flat s' in (verified r v, s'')

  unfoldable pub flatten_account : String → State → FlattenResult × State
  flatten_account reason s =
      let (listing, s') = list_all_positions s in closing_pass reason listing s'
