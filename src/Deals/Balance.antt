-- ===== src/Deals/Balance.antt =====
-- What `preview` of apps/backend/src/api/deals/deals.service.ts promises of a draft without problems.
use rayi.Prelude.{List, map, ℕ, ℤ, sum_ℤ}
use rayi.Money.Currency.{Currency}
use rayi.Money.Amount.{Money}
use rayi.Deal.Amounts.{AmountMap}
use rayi.Deals.Preview.{or_zero, amount_at}

-- What a map has under keys, nothing counting as zero.
abbrev sum_at : AmountMap → List ℕ → ℤ
sum_at m is = sum_ℤ (map (λ i. or_zero (amount_at i m)) is)
