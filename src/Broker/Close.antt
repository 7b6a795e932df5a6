-- ===== src/Broker/Close.antt =====
-- The close of a position (core/broker.py): `get_position_by_ticket`, `_send_close_with_retry`,
-- `close_position` and `close_position_by_ticket` of Broker. What the MetaTrader 5 package answers
-- at an attempt is an argument, as are its return code for success and `round`. A run is an
-- outcome with the calls that matter, in their order; logs, events and latencies are left out.
pub mod Refines
pub mod Gone
use trading_snapshot.Base.{
  ℕ, zero, suc, Bool, true, false, ◌||◌, Option, none, some, List, [], ◌∷◌, String, ◌==◌,
  if◌then◌else◌,
}
use trading_snapshot.Base.Float.{Floats}

pub data Side : Type 0 where
  buy sell : Side

-- `TRANSIENT_RETCODES`
unfoldable pub is_transient : ℕ → Bool
is_transient retcode =
    (retcode == 10004) || (retcode == 10021) || (retcode == 10024) || (retcode == 10031)

-- What a close returns or raises; `answered` holds the return code of a result.
pub data Outcome : Type 0 where
  nothing already_closed query_error : Outcome
  answered : ℕ → Outcome

abbrev pub outcome_of : Option ℕ → Outcome
outcome_of none = nothing
outcome_of (some retcode) = answered retcode

module _ (fs : Floats) where
  open fs use {F}

  pub record Position : Type 0 where
    pub ticket : ℕ
    pub symbol : String
    -- `type == mt5.POSITION_TYPE_BUY`
    pub is_long : Bool
    pub volume : F
    pub magic : ℕ

  pub record Tick : Type 0 where
    pub bid : F
    pub ask : F

  pub record Request : Type 0 where
    pub symbol : String
    pub volume : F
    -- "type", the side of the order
    pub side : Side
    pub position : ℕ
    pub price : F
    pub deviation : ℕ
    pub magic : ℕ
    pub type_filling : ℕ

  pub data Lookup : Type 0 where
    query_failed absent : Lookup
    found : Position → Lookup

  -- `positions_get` answers None where it fails
  abbrev pub get_position_by_ticket : Option (List Position) → Lookup
  get_position_by_ticket none = query_failed
  get_position_by_ticket (some []) = absent
  get_position_by_ticket (some (p ∷ ps)) = found p

  -- `symbol_info_tick` and the digits of `symbol_info`
  pub record Market : Type 0 where
    pub tick : Option Tick
    pub digits : Option ℕ

  -- the answers around one attempt: to the lookup before it, to the order, and after it
  pub record Attempt : Type 0 where
    pub positions : Option (List Position)
    pub result : Option ℕ
    pub market : Market

  pub data Effect : Type 0 where
    -- what `positions_get` answers for the ticket
    looked : Option (List Position) → Effect
    sent : Request → Option ℕ → Effect
    slept : Effect

  abbrev pub Run : Type 0
  Run = Outcome × List Effect

  abbrev pub after : Effect → Run → Run
  after e (o, es) = (o, e ∷ es)

  abbrev pub price_of : Side → Tick → F
  price_of buy t = t.ask
  price_of sell t = t.bid

  abbrev pub look_up : Option (List Position) → Lookup → (Position → Run) → Run
  look_up positions query_failed next = (nothing, looked positions ∷ [])
  look_up positions absent next = (already_closed, looked positions ∷ [])
  look_up positions (found p) next = after (looked positions) (next p)

module _ (fs : Floats) (round : fs.F → ℕ → fs.F) (done_code : ℕ) where
  open fs use {F}

  abbrev pub rounded : Option ℕ → F → F
  rounded none price = price
  rounded (some digits) price = round price digits

  -- the price of the next attempt, where there is a tick
  abbrev pub refreshed : Side → Option ℕ → Option (Tick fs) → Request fs → Request fs
  refreshed side digits none r = r
  refreshed side digits (some t) r = record r { price = rounded digits (price_of fs side t) }

  -- a result that ends the loop: success, or a code that is not transient
  abbrev pub is_final : Option ℕ → Bool
  is_final none = false
  is_final (some retcode) =
      if retcode == done_code then true else if is_transient retcode then false else true

  -- the end of an attempt that is not the last
  abbrev pub prepare_retry : ℕ → Side → Market fs → Request fs → (Request fs → Run fs) → Run fs
  prepare_retry zero side m r next = next r
  prepare_retry (suc left) side m r next = after fs slept (next (refreshed side m.digits m.tick r))

  abbrev pub submit : ℕ → Side → Attempt fs → Request fs → (Request fs → Run fs) → Run fs
  submit left side a r next = after fs (sent r a.result) (
      if is_final a.result
      then (outcome_of a.result, [])
      else prepare_retry left side a.market r next)

  -- the attempts after the first: how many are left, the answers, and the last result
  unfoldable pub retry_close : ℕ → (ℕ → Attempt fs) → Side → ℕ → Option ℕ → Request fs → Run fs
  unfolding is_transient
  retry_close zero answers side attempt last r = (outcome_of last, [])
  retry_close (suc left) answers side attempt last r =
      look_up fs (answers attempt).positions (get_position_by_ticket fs (answers attempt).positions)
        (λ p.
          submit left side (answers attempt) (record r { volume = p.volume })
            (retry_close left answers side (suc attempt) (answers attempt).result))

  unfoldable pub send_close_with_retry : ℕ → (ℕ → Attempt fs) → Side → Request fs → Run fs
  unfolding retry_close
  send_close_with_retry zero answers side r = (nothing, [])
  send_close_with_retry (suc left) answers side r =
      submit left side (answers 1) r (retry_close left answers side 2 (answers 1).result)

  abbrev pub close_side : Bool → Side
  close_side true = sell
  close_side false = buy

  abbrev pub close_request : ℕ → ℕ → Option ℕ → Tick fs → Position fs → Request fs
  close_request deviation filling digits t p = record {
    symbol = p.symbol;
    volume = p.volume;
    side = close_side p.is_long;
    position = p.ticket;
    price = rounded digits (price_of fs (close_side p.is_long) t);
    deviation = deviation;
    magic = p.magic;
    type_filling = filling;
  }

  abbrev pub close_at :
      ℕ → ℕ → ℕ → Option ℕ → (ℕ → Attempt fs) → Position fs → Option (Tick fs) → Run fs
  close_at attempts deviation filling digits answers p none = (nothing, [])
  close_at attempts deviation filling digits answers p (some t) =
      send_close_with_retry attempts answers (close_side p.is_long)
        (close_request deviation filling digits t p)

  unfoldable pub close_position : ℕ → ℕ → ℕ → Market fs → (ℕ → Attempt fs) → Position fs → Run fs
  unfolding send_close_with_retry
  close_position attempts deviation filling m answers p =
      close_at attempts deviation filling m.digits answers p m.tick

  abbrev pub close_found : (Position fs → Run fs) → Option (List (Position fs)) → Lookup fs → Run fs
  close_found close positions query_failed = (query_error, looked positions ∷ [])
  close_found close positions absent = (already_closed, looked positions ∷ [])
  close_found close positions (found p) = after fs (looked positions) (close p)

  unfoldable pub close_position_by_ticket :
      ℕ → ℕ → ℕ → Market fs → (ℕ → Attempt fs) → Option (List (Position fs)) → Run fs
  unfolding close_position
  close_position_by_ticket attempts deviation filling m answers positions =
      close_found (close_position attempts deviation filling m answers) positions
        (get_position_by_ticket fs positions)
