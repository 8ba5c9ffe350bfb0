-- ===== src/Money/Allocate.antt =====
-- `Money.allocate` of packages/domain/src/money/money.ts: an amount is split over weights by the
-- largest-remainder method. Past the guards every number is at least 0, so shares and remainders are
-- natural numbers, and `/` and `%` are the bigint operations.
pub mod Shares
pub mod Extras
pub mod Indices
pub mod Count
pub mod Laws
use rayi.Prelude.{
  ℕ, zero, suc, ◌+◌, ◌-◌, ◌*◌, ◌/◌, ◌%◌, Bool, true, false, not, List, [], ◌∷◌, map, ltb, leb, ◌==◌,
  if◌then◌else◌, sum, ℤ, pos, negsuc, pos_part, ltb_ℤ, Result, ok, err, ◌>>=◌, ◌>>◌, throw_if,
}
use rayi.Prelude.Sorting.{sort}
use rayi.Money.Currency.{Currency}
use rayi.Money.Amount.{
  Money, MoneyError, invalid_money, no_weights, negative_amount, negative_weight,
  weights_sum_to_zero, parts_do_not_sum,
}

-- The loop that checks the weights and adds them up.
pub total_weight : ℕ → List ℤ → Result MoneyError ℕ
total_weight total [] = ok total
total_weight total (pos w ∷ ws) = total_weight (total + w) ws
total_weight total (negsuc w ∷ ws) = err (invalid_money negative_weight)

-- An entry of `remainders`.
pub record Remainder : Type 0 where
  pub index : ℕ
  pub remainder : ℕ

pub record Floors : Type 0 where
  pub shares : List ℕ
  pub remainders : List Remainder
  pub distributed : ℕ

-- The loop over the weights, from `index` on.
pub floor_shares : ℕ → ℕ → ℕ → List ℕ → Floors
floor_shares amount total index [] = record { shares = []; remainders = []; distributed = 0 }
floor_shares amount total index (w ∷ ws) =
    let rest = floor_shares amount total (index + 1) ws in
    record {
      shares = (amount * w / total) ∷ rest.shares;
      remainders = record { index = index; remainder = (amount * w) % total } ∷ rest.remainders;
      distributed = amount * w / total + rest.distributed;
    }

-- The comparator of `remainders.sort` does not put `a` behind `b`.
pub not_behind : Remainder → Remainder → Bool
not_behind a b =
    if a.remainder == b.remainder then leb a.index b.index else ltb b.remainder a.remainder

-- `shares[index] += 1n`
abbrev increment : ℕ → List ℕ → List ℕ
increment i [] = []
increment zero (s ∷ ss) = (s + 1) ∷ ss
increment (suc i) (s ∷ ss) = s ∷ increment i ss

-- The loop that hands out the leftover units.
pub hand_out : ℕ → List Remainder → List ℕ → List ℕ
hand_out zero rs shares = shares
hand_out (suc leftover) [] shares = shares
hand_out (suc leftover) (r ∷ rs) shares = hand_out leftover rs (increment r.index shares)

-- The shares before they become money. `leftover` is not below 0 where `distributed` is at most the
-- amount; else the loop would stop at once, as it does at 0.
pub split_shares : ℕ → ℕ → List ℕ → List ℕ
unfolding floor_shares hand_out sort not_behind
split_shares amount total ws =
    let floors = floor_shares amount total 0 ws in
    hand_out (amount - floors.distributed) (sort not_behind floors.remainders) floors.shares

abbrev is_nil : List ℤ → Bool
is_nil [] = true
is_nil (w ∷ ws) = false

abbrev pub of_shares : Currency → List ℕ → List Money
of_shares c = map (λ s. record { amount_minor = pos s; currency = c })

unfoldable pub allocate : Money → List ℤ → Result MoneyError (List Money)
unfolding total_weight split_shares
allocate m weights = do
  throw_if (is_nil weights) (invalid_money no_weights)
  throw_if (ltb_ℤ m.amount_minor (pos 0)) (invalid_money negative_amount)
  total ← total_weight 0 weights
  throw_if (total == 0) (invalid_money weights_sum_to_zero)
  let shares = split_shares (pos_part m.amount_minor) total (map pos_part weights)
  throw_if (not (sum shares == pos_part m.amount_minor))
      (invalid_money (parts_do_not_sum (sum shares) m.amount_minor))
  ok (of_shares m.currency shares)
