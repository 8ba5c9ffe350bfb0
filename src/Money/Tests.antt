-- ===== src/Money/Tests.antt =====
-- Runs of packages/domain/src/money at concrete inputs.
use rayi.Prelude.{
  ℕ, ◌≡◌, refl, ◌+◌, ◌*◌, ◌<◌, List, [], ◌∷◌, map, length, All, sum, arith, codes, pos, negsuc,
  sum_ℤ, ok,
}
use rayi.Money.Currency.{usd, jpy, find_currency}
use rayi.Money.Decimal.{minor_units_pattern, text_to_bigint}
use rayi.Money.Amount.{
  exponent_differs, Money, undefined, string, Json, object, from_json, to_json, parsed,
  assert_currency, from_minor_string,
}
use rayi.Money.Amount.Wire.{from_json-to_json}
use rayi.Money.Allocate.{allocate, of_shares}
use rayi.Money.Allocate.Extras.{share_at}
use rayi.Money.Allocate.Laws.{allocate_conserves, allocate_rounds}

abbrev weights : List ℕ
weights = 1 ∷ 1 ∷ 1 ∷ []

abbrev ten_dollars : Money
ten_dollars = record { amount_minor = pos 1_000; currency = usd }

abbrev two_yen : Money
two_yen = record { amount_minor = negsuc 1; currency = jpy }

allocate_conserves_example :
    (parts : List Money) × (allocate
        (record { amount_minor = pos 1_000; currency = usd })
        (map pos weights)
      ≡ ok parts)
    × (length parts ≡ length weights)
    × (sum_ℤ (map (λ m. m.amount_minor) parts) ≡ pos 1_000)
    × All (λ m. m.currency ≡ usd) parts
allocate_conserves_example = allocate_conserves usd 1_000 weights (omega arith)

allocate_rounds_example :
    (shares : List ℕ) × (allocate
        (record { amount_minor = pos 1_000; currency = usd })
        (map pos weights)
      ≡ ok (of_shares usd shares))
    × ((i : ℕ)
        → i < length weights
        → (share_at i shares * sum weights < 1_000 * share_at i weights + sum weights)
          × (1_000 * share_at i weights < share_at i shares * sum weights + sum weights))
allocate_rounds_example = allocate_rounds usd 1_000 weights (omega arith)

from_json-to_json_example : from_json (parsed (to_json two_yen)) ≡ ok two_yen
from_json-to_json_example = from_json-to_json two_yen

abbrev wire : Json
wire = object (string (codes "-2")) (string (codes "JPY")) undefined

wire_read : from_json wire ≡ ok two_yen
unfolding from_json from_minor_string assert_currency find_currency minor_units_pattern
    text_to_bigint exponent_differs
wire_read = refl
