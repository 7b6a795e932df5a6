-- ===== src/Intent/Row.antt =====
-- A row of the table `order_intents`, which is also the frozen dataclass `OrderIntent`, and the
-- column assignments that callers make (core/order_intent_store.py). `R` is the type of the
-- volumes and prices, which the journal only copies; a JSON column holds its encoded text.
use Prim.Native.String.{[], ◌∷◌, ◌++◌}
use trading_snapshot.Base.{
  ℕ, zero, suc, String, Bool, false, ◌&&◌, ◌||◌, Option, none, some, str_eq,
}
use trading_snapshot.Base.Int.{ℤ}
use trading_snapshot.Intent.Status.{Status, created}
use trading_snapshot.Intent.BrokerId.{Text, text_eq, BrokerValue}

pub record OrderIntent (R : Type 0) : Type 0 where
  pub intent_id : String
  pub account_id : String
  pub strategy_id : String
  pub signal_id : String
  pub symbol : String
  pub side : String
  pub requested_volume : Option R
  pub requested_sl : Option R
  pub requested_tp : Option R
  pub status : Status
  pub client_reference : String
  pub broker_order_id : Option Text
  pub broker_position_id : Option Text
  pub filled_volume : Option R
  pub request : Option String
  pub retcode : Option ℤ
  pub broker_result : Option String
  pub created_at : ℕ
  pub submitted_at : Option ℕ
  pub accepted_at : Option ℕ
  pub filled_at : Option ℕ
  pub updated_at : ℕ
  pub last_error : Option String

-- The unique key that a caller names.
pub record SignalKey : Type 0 where
  pub account_id : String
  pub strategy_id : String
  pub signal_id : String

-- `intent_id[:16]` counts characters.
unfoldable pub take_chars : ℕ → String → String
take_chars zero s = []
take_chars (suc n) [] = []
take_chars (suc n) (c ∷ s) = c ∷ take_chars n s

-- `_client_reference`
unfoldable pub client_reference_of : String → String
unfolding take_chars
client_reference_of intent_id = "oi-" ++ take_chars 16 intent_id

-- The row that the INSERT statements of `get_or_create` and `claim_signal` write.
unfoldable pub new_intent : {R : Type 0} → String → SignalKey → String → String → ℕ → OrderIntent R
new_intent intent_id key symbol side now = record {
  intent_id = intent_id;
  account_id = key.account_id;
  strategy_id = key.strategy_id;
  signal_id = key.signal_id;
  symbol = symbol;
  side = side;
  requested_volume = none;
  requested_sl = none;
  requested_tp = none;
  status = created;
  client_reference = client_reference_of intent_id;
  broker_order_id = none;
  broker_position_id = none;
  filled_volume = none;
  request = none;
  retcode = none;
  broker_result = none;
  created_at = now;
  submitted_at = none;
  accepted_at = none;
  filled_at = none;
  updated_at = now;
  last_error = none;
}

-- Two values of a UNIQUE column collide; NULL collides with nothing.
abbrev pub clash : Option Text → Option Text → Bool
clash (some a) (some b) = text_eq a b
clash _ _ = false

module _ {R : Type 0} where
  -- UNIQUE(account_id, strategy_id, signal_id)
  unfoldable pub same_signal : OrderIntent R → SignalKey → Bool
  same_signal r key =
      str_eq r.account_id key.account_id
      && str_eq r.strategy_id key.strategy_id
      && str_eq r.signal_id key.signal_id

  abbrev pub key_of : OrderIntent R → SignalKey
  key_of r = record {
    account_id = r.account_id;
    strategy_id = r.strategy_id;
    signal_id = r.signal_id;
  }

  -- The PRIMARY KEY and the four UNIQUE constraints of the table.
  unfoldable pub conflicts : OrderIntent R → OrderIntent R → Bool
  conflicts a b =
      str_eq a.intent_id b.intent_id
      || str_eq a.client_reference b.client_reference
      || same_signal a (key_of b)
      || (str_eq a.account_id b.account_id && clash a.broker_order_id b.broker_order_id)
      || (str_eq a.account_id b.account_id && clash a.broker_position_id b.broker_position_id)

-- The keyword arguments of `transition` and the values of `set_request`.
pub data Value (R : Type 0) : Type 0 where
  requested_volume requested_sl requested_tp : R → Value R
  request : Option String → Value R
  retcode : Option ℤ → Value R
  broker_result : Option String → Value R
  broker_order_id broker_position_id : Option BrokerValue → Value R
  filled_volume : Option R → Value R
  last_error : Option String → Value R
