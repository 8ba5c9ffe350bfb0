-- ===== src/Money/Amount/Wire.antt =====
-- The wire shape of an amount: `toJSON` against `fromJSON` of packages/domain/src/money/money.ts.
use rayi.Prelude.{
  ◌≡◌, refl, ◌⊎◌, inl, inr, true, false, arith, Text, pos, ◌==ℤ◌, ==ℤ_refl, ==ℤ_iff, ok, not-false,
  Option-cases, >>=-eq-ok, some,
}
use rayi.Money.Currency.{
  Currency, find_currency, currency_code, exponent_of, find_currency-currency_code,
  find_currency_sound,
}
use rayi.Money.Decimal.{minor_units_pattern, text_to_bigint, minor_units_pattern-print, read-print}
use rayi.Money.Amount.{
  Money, JsValue, undefined, other, string, number, Json, object, not_object, from_json, to_json,
  parsed, from_minor_string, assert_currency, exponent_differs,
}

-- What is serialised parses back to the same money, whatever the amount and the currency.
pub from_json-to_json : (m : Money) → from_json (parsed (to_json m)) ≡ ok m
unfolding from_json to_json from_minor_string assert_currency
from_json-to_json m = rw (
  minor_units_pattern-print m.amount_minor,
  find_currency-currency_code m.currency,
  ==ℤ_refl (pos (exponent_of m.currency)),
  read-print m.amount_minor,
)

-- What the two strings must be for `fromMinorString` to accept them.
abbrev pub Denotes : JsValue → JsValue → Money → Type 0
Denotes amount currency m =
    (s : Text) × (amount ≡ string s)
    × (minor_units_pattern s ≡ true)
    × (text_to_bigint s ≡ m.amount_minor)
    × (currency ≡ string (currency_code m.currency))

from_minor_string_sound :
    (amount currency : JsValue) (m : Money)
    → from_minor_string amount currency ≡ ok m
    → Denotes amount currency m
unfolding from_minor_string assert_currency
from_minor_string_sound undefined currency m h = cc
from_minor_string_sound other currency m h = cc
from_minor_string_sound (number n) currency m h = cc
from_minor_string_sound (string s) (string c) m h = elim (Option-cases (find_currency c)) [
  | inl unknown ↦ ground arith
  | inr (k, known) ↦
      (s, refl, ground arith, ground arith, cc (find_currency_sound c k known, denotes k known))
]
  where
    denotes : (k : Currency) → find_currency c ≡ some k → m.currency ≡ k
    denotes k known = ground arith
from_minor_string_sound (string s) _ m h = ground arith

exponent_matches :
    (e : JsValue) (c : Currency)
    → exponent_differs e c ≡ false
    → (e ≡ undefined) ⊎ (e ≡ number (pos (exponent_of c)))
unfolding exponent_differs
exponent_matches undefined c h = inl refl
exponent_matches other c h = cc
exponent_matches (string s) c h = cc
exponent_matches (number n) c h =
    inr (cc ((==ℤ_iff n (pos (exponent_of c))).0 (not-false (n ==ℤ pos (exponent_of c)) h)))

-- `fromJSON` accepts an object only if its amount fits the pattern and denotes the amount returned,
-- its currency is that currency's code, and its exponent is absent or that currency's own.
pub from_json_strict :
    (v : Json) (m : Money)
    → from_json v ≡ ok m
    → (amount currency exponent : JsValue) × (v ≡ object amount currency exponent)
      × Denotes amount currency m
      × ((exponent ≡ undefined) ⊎ (exponent ≡ number (pos (exponent_of m.currency))))
unfolding from_json
from_json_strict not_object m h = cc
from_json_strict (object amount currency exponent) m h =
    let (n, parsed_ok, rest) = >>=-eq-ok (from_minor_string amount currency) _ h in
    let same : n ≡ m = ground arith in
    (
      amount,
      currency,
      exponent,
      refl,
      from_minor_string_sound amount currency m (cc),
      exponent_matches exponent m.currency (ground arith),
    )
