-- ===== src/Money/Amount.antt =====
-- `class Money` and `sumMoney` of packages/domain/src/money/money.ts. `allocate` is in Money/Allocate.
-- A `Money` has integer minor units and a currency; a thrown error is the `err` of a result.
-- The tests `typeof x !== 'bigint'` have no counterpart: a minor amount is an integer by its type.
pub mod Laws
pub mod Wire
use rayi.Prelude.{
  ℕ, ◌≡◌, Bool, not, ◌&&◌, Option, none, some, List, [], ◌∷◌, Text, ℤ, pos, negsuc, ◌+ℤ◌, ◌-ℤ◌,
  ◌*ℤ◌, ltb_ℤ, ◌==ℤ◌, Result, ok, err, ◌>>=◌, ◌>>◌, throw_if, if◌then◌else◌,
}
use rayi.Money.Currency.{Currency, currency_code, currency_eq, find_currency, exponent_of}
use rayi.Money.Decimal.{minor_units_pattern, text_to_bigint, bigint_to_text}

pub record Money : Type 0 where
  pub amount_minor : ℤ
  pub currency : Currency

-- The messages of `InvalidMoneyError`.
pub data InvalidMoney : Type 0 where
  not_a_string not_an_object : InvalidMoney
  malformed_minor_units : Text → InvalidMoney
  exponent_mismatch : ℕ → InvalidMoney
  no_weights negative_amount negative_weight weights_sum_to_zero : InvalidMoney
  parts_do_not_sum : ℕ → ℤ → InvalidMoney

-- A value of unknown type, as far as the parsers look into it.
pub data JsValue : Type 0 where
  undefined other : JsValue
  string : Text → JsValue
  number : ℤ → JsValue

pub data MoneyError : Type 0 where
  currency_mismatch : Currency → Currency → MoneyError
  invalid_money : InvalidMoney → MoneyError
  unknown_currency : JsValue → MoneyError

-- A parsed JSON value: an object with the three properties, or anything else.
pub data Json : Type 0 where
  object : JsValue → JsValue → JsValue → Json
  not_object : Json

-- `MoneyJSON`
pub record MoneyJson : Type 0 where
  pub amount_minor : Text
  pub currency : Text
  pub exponent : ℕ

or_unknown : Option Currency → JsValue → Result MoneyError Currency
or_unknown none v = err (unknown_currency v)
or_unknown (some c) v = ok c

-- `assertCurrency`
unfoldable pub assert_currency : JsValue → Result MoneyError Currency
unfolding or_unknown
assert_currency (string s) = or_unknown (find_currency s) (string s)
assert_currency v = err (unknown_currency v)

-- `Money.fromMinorString`
unfoldable pub from_minor_string : JsValue → JsValue → Result MoneyError Money
from_minor_string (string s) currency = do
  throw_if (not (minor_units_pattern s)) (invalid_money (malformed_minor_units s))
  c ← assert_currency currency
  ok (record { amount_minor = text_to_bigint s; currency = c })
from_minor_string v currency = err (invalid_money not_a_string)

-- `exponent !== undefined && exponent !== money.exponent`
unfoldable pub exponent_differs : JsValue → Currency → Bool
exponent_differs undefined c = Bool.false
exponent_differs (number e) c = not (e ==ℤ pos (exponent_of c))
exponent_differs v c = Bool.true

-- `Money.fromJSON`
unfoldable pub from_json : Json → Result MoneyError Money
unfolding exponent_differs
from_json not_object = err (invalid_money not_an_object)
from_json (object amount currency exponent) = do
  m ← from_minor_string amount currency
  throw_if (exponent_differs exponent m.currency)
      (invalid_money (exponent_mismatch (exponent_of m.currency)))
  ok m

-- `toJSON`
unfoldable pub to_json : Money → MoneyJson
to_json m = record {
  amount_minor = bigint_to_text m.amount_minor;
  currency = currency_code m.currency;
  exponent = exponent_of m.currency;
}

-- What a parser makes of the wire shape: `JSON.parse(JSON.stringify(j))`.
abbrev pub parsed : MoneyJson → Json
parsed j = object (string j.amount_minor) (string j.currency) (number (pos j.exponent))

-- `assertSameCurrency`
assert_same_currency : Money → Money → Result MoneyError (Unit {0})
assert_same_currency m n =
    throw_if (not (currency_eq m.currency n.currency)) (currency_mismatch m.currency n.currency)

unfoldable pub add : Money → Money → Result MoneyError Money
unfolding assert_same_currency
add m n = do
  assert_same_currency m n
  ok (record { amount_minor = m.amount_minor +ℤ n.amount_minor; currency = m.currency })

unfoldable pub subtract : Money → Money → Result MoneyError Money
unfolding assert_same_currency
subtract m n = do
  assert_same_currency m n
  ok (record { amount_minor = m.amount_minor -ℤ n.amount_minor; currency = m.currency })

unfoldable pub multiply : Money → ℤ → Money
multiply m factor = record m { amount_minor = m.amount_minor *ℤ factor }

unfoldable pub negate : Money → Money
negate m = record m { amount_minor = pos 0 -ℤ m.amount_minor }

unfoldable pub abs : Money → Money
unfolding negate
abs m = if ltb_ℤ m.amount_minor (pos 0) then negate m else m

-- `Money.zero`
abbrev pub zero_of : Currency → Money
zero_of c = record { amount_minor = pos 0; currency = c }

unfoldable pub equals : Money → Money → Bool
equals m n = currency_eq m.currency n.currency && m.amount_minor ==ℤ n.amount_minor

-- `compare`: -1, 0 or 1.
unfoldable pub compare : Money → Money → Result MoneyError ℤ
unfolding assert_same_currency
compare m n = do
  assert_same_currency m n
  ok (
      if ltb_ℤ m.amount_minor n.amount_minor
      then negsuc 0
      else if ltb_ℤ n.amount_minor m.amount_minor
      then pos 1
      else pos 0)

unfoldable pub less_than : Money → Money → Result MoneyError Bool
less_than m n = do ok (ltb_ℤ (← compare m n) (pos 0))

unfoldable pub greater_than : Money → Money → Result MoneyError Bool
greater_than m n = do ok (ltb_ℤ (pos 0) (← compare m n))

-- The `reduce` of `sumMoney`, from an accumulator.
unfoldable pub sum_from : Money → List Money → Result MoneyError Money
sum_from acc [] = ok acc
sum_from acc (m ∷ ms) = add acc m >>= λ next. sum_from next ms

unfoldable pub sum_money : List Money → Currency → Result MoneyError Money
unfolding sum_from
sum_money ms c = sum_from (zero_of c) ms
