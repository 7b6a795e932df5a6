-- ===== src/Intent/Status.antt =====
-- The statuses of an order intent and the table `_TRANSITIONS` of the moves that it may make
-- (core/order_intent_store.py, class OrderIntentStore).
pub mod Paths
use trading_snapshot.Base.{
  String, Bool, true, false, Option, none, some, ◌||◌, str_eq, if◌then◌else◌,
}

pub data Status : Type 0 where
  created submitting accepted partially_filled filled rejected cancelled unknown reconciling
        closed :
      Status

-- The text that the column `status` holds.
abbrev pub name : Status → String
name created = "CREATED"
name submitting = "SUBMITTING"
name accepted = "ACCEPTED"
name partially_filled = "PARTIALLY_FILLED"
name filled = "FILLED"
name rejected = "REJECTED"
name cancelled = "CANCELLED"
name unknown = "UNKNOWN"
name reconciling = "RECONCILING"
name closed = "CLOSED"

-- `status in self._TRANSITIONS`, with the key that was found.
unfoldable pub parse_status : String → Option Status
parse_status s =
    if str_eq s "CREATED"
    then some created
    else if str_eq s "SUBMITTING"
    then some submitting
    else if str_eq s "ACCEPTED"
    then some accepted
    else if str_eq s "PARTIALLY_FILLED"
    then some partially_filled
    else if str_eq s "UNKNOWN"
    then some unknown
    else if str_eq s "RECONCILING"
    then some reconciling
    else if str_eq s "FILLED"
    then some filled
    else if str_eq s "REJECTED"
    then some rejected
    else if str_eq s "CANCELLED"
    then some cancelled
    else if str_eq s "CLOSED"
    then some closed
    else none

abbrev pub same_status : Status → Status → Bool
same_status created created = true
same_status submitting submitting = true
same_status accepted accepted = true
same_status partially_filled partially_filled = true
same_status filled filled = true
same_status rejected rejected = true
same_status cancelled cancelled = true
same_status unknown unknown = true
same_status reconciling reconciling = true
same_status closed closed = true
same_status _ _ = false

-- `ACTIVE_STATUSES`
unfoldable pub is_active : Status → Bool
is_active created = true
is_active submitting = true
is_active accepted = true
is_active unknown = true
is_active reconciling = true
is_active _ = false

-- `TERMINAL_STATUSES`
unfoldable pub is_terminal : Status → Bool
is_terminal rejected = true
is_terminal cancelled = true
is_terminal closed = true
is_terminal _ = false

-- `OrderIntent.__bool__`
unfoldable pub is_success : Status → Bool
is_success filled = true
is_success partially_filled = true
is_success closed = true
is_success _ = false

-- The statuses that `list_reconcilable` selects.
unfoldable pub is_reconcilable : Status → Bool
is_reconcilable submitting = true
is_reconcilable accepted = true
is_reconcilable unknown = true
is_reconcilable reconciling = true
is_reconcilable _ = false

-- `status in self._TRANSITIONS.get(current, set())`
unfoldable pub may_move : Status → Status → Bool
may_move created submitting = true
may_move created rejected = true
may_move created cancelled = true
may_move submitting accepted = true
may_move submitting partially_filled = true
may_move submitting filled = true
may_move submitting rejected = true
may_move submitting unknown = true
may_move submitting reconciling = true
may_move accepted partially_filled = true
may_move accepted filled = true
may_move accepted reconciling = true
may_move accepted unknown = true
may_move accepted closed = true
may_move partially_filled filled = true
may_move partially_filled reconciling = true
may_move partially_filled unknown = true
may_move partially_filled closed = true
may_move unknown reconciling = true
may_move unknown partially_filled = true
may_move unknown filled = true
may_move unknown closed = true
may_move reconciling partially_filled = true
may_move reconciling filled = true
may_move reconciling closed = true
may_move reconciling unknown = true
may_move filled closed = true
may_move rejected submitting = true
may_move _ _ = false
