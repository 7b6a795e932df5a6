-- ===== src/Intent/BrokerId.antt =====
-- `_normalise_broker_id` of core/order_intent_store.py, over the code points of a text: Python's
-- `str`, `str.strip` and `int` on the ASCII texts that a broker identifier can be.
use trading_snapshot.Base.{
  ℕ, zero, suc, ◌+◌, ◌-◌, ◌*◌, ◌/◌, ◌%◌, Bool, true, false, ◌&&◌, ◌||◌, Option, none, some, List,
  [], ◌∷◌, ◌++◌, ltb, leb, ◌==◌, if◌then◌else◌,
}
use trading_snapshot.Base.Int.{ℤ, pos, negsuc, leb_ℤ}

abbrev pub Text : Type 0
Text = List ℕ

abbrev pub text_eq : Text → Text → Bool
text_eq [] [] = true
text_eq (c ∷ s) (d ∷ t) = c == d && text_eq s t
text_eq _ _ = false

unfoldable pub is_digit : ℕ → Bool
is_digit c = leb b'0' c && leb c b'9'

-- `str.isspace`.
unfoldable pub is_space : ℕ → Bool
is_space c =
    c == 32
    || (leb 9 c && leb c 13)
    || (leb 28 c && leb c 31)
    || c == 133
    || c == 160
    || c == 5760
    || (leb 8192 c && leb c 8202)
    || c == 8232
    || c == 8233
    || c == 8239
    || c == 8287
    || c == 12288

-- `str(n)` of a natural number, on fuel: `n` rounds are enough.
unfoldable pub print_fuel : ℕ → ℕ → Text
print_fuel zero n = (b'0' + n % 10) ∷ []
print_fuel (suc f) n =
    let front = print_fuel f (n / 10) in
    if ltb n 10 then (b'0' + n) ∷ [] else front ++ (b'0' + n % 10) ∷ []

unfoldable pub print_nat : ℕ → Text
unfolding print_fuel
print_nat n = print_fuel n n

unfoldable pub print_int : ℤ → Text
unfolding print_nat
print_int (pos n) = print_nat n
print_int (negsuc n) = b'-' ∷ print_nat (suc n)

unfoldable pub lstrip : Text → Text
unfolding is_space
lstrip [] = []
lstrip (c ∷ cs) = if is_space c then lstrip cs else c ∷ cs

abbrev pub is_empty : Text → Bool
is_empty [] = true
is_empty (_ ∷ _) = false

unfoldable pub rstrip : Text → Text
unfolding is_space
rstrip [] = []
rstrip (c ∷ cs) = let rest = rstrip cs in if is_space c && is_empty rest then [] else c ∷ rest

unfoldable pub strip : Text → Text
unfolding lstrip rstrip
strip t = rstrip (lstrip t)

-- The digits of `int(text)`, with single underscores between them; `after` says that the last
-- character was a digit.
unfoldable pub parse_digits : ℕ → Bool → Text → Option ℕ
unfolding is_digit
parse_digits acc after [] = if after then some acc else none
parse_digits acc after (c ∷ cs) =
    if is_digit c || (c == b'_' && after)
    then parse_digits (if is_digit c then acc * 10 + (c - b'0') else acc) (is_digit c) cs
    else none

abbrev negate : ℕ → ℤ
negate zero = pos 0
negate (suc n) = negsuc n

-- `int(text)` on a stripped text; `none` is the ValueError.
unfoldable pub parse_int : Text → Option ℤ
unfolding parse_digits
parse_int [] = none
parse_int (c ∷ cs) =
    if c == b'-'
    then elim (parse_digits 0 false cs) [ none ↦ none | some n ↦ some (negate n) ]
    else if c == b'+'
    then elim (parse_digits 0 false cs) [ none ↦ none | some n ↦ some (pos n) ]
    else elim (parse_digits 0 false (c ∷ cs)) [ none ↦ none | some n ↦ some (pos n) ]

-- What a caller passes: an MT5 ticket, or the text of an adapter.
pub data BrokerValue : Type 0 where
  number : ℤ → BrokerValue
  text : Text → BrokerValue

unfoldable pub str_of : BrokerValue → Text
unfolding print_int
str_of (number z) = print_int z
str_of (text t) = t

unfoldable pub is_placeholder : Option ℤ → Bool
is_placeholder none = false
is_placeholder (some z) = leb_ℤ z (pos 0)

unfoldable pub normalise_broker_id : Option BrokerValue → Option Text
unfolding str_of strip parse_int is_placeholder
normalise_broker_id none = none
normalise_broker_id (some v) =
    let t = strip (str_of v) in
    if is_empty t then none else if is_placeholder (parse_int t) then none else some t
