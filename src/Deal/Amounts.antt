-- ===== src/Deal/Amounts.antt =====
-- `resolveMilestoneAmounts` of packages/domain/src/deal/evaluate.ts: authored amounts, fixed or in
-- basis points, become minor units that are frozen when a deal is accepted.
pub mod Entries
pub mod Keys
pub mod Laws
use rayi.Prelude.{
  ℕ, suc, Bool, true, false, not, List, [], ◌∷◌, map, ◌==◌, if◌then◌else◌, ℤ, pos, ◌+ℤ◌, ◌-ℤ◌,
  ltb_ℤ, ◌==ℤ◌, add_up, Result, ok, err, ◌>>=◌, ◌>>◌, throw_if,
}
use rayi.Money.Amount.{Money, MoneyError}
use rayi.Money.Allocate.{allocate}

-- The kinds of an authored milestone. Basis points are integers: `BigInt` refuses any other number.
pub data Share : Type 0 where
  fixed percentage : ℤ → Share

pub record Authored : Type 0 where
  pub sequence : ℕ
  pub share : Share

pub data AmountsError : Type 0 where
  no_milestones : AmountsError
  fixed_exceed_total fixed_differ_from_total : ℤ → ℤ → AmountsError
  not_one_hundred_percent : ℤ → AmountsError
  resolved_differ_from_total : ℤ → ℤ → AmountsError
  money_error : MoneyError → AmountsError

-- A `Map<number, bigint>`, its entries in insertion order.
abbrev pub AmountMap : Type 0
AmountMap = List (ℕ × ℤ)

-- `map.set(key, amount)`
abbrev pub set_amount : ℕ → ℤ → AmountMap → AmountMap
set_amount k v [] = (k, v) ∷ []
set_amount k v ((j, w) ∷ m) = if j == k then (k, v) ∷ m else (j, w) ∷ set_amount k v m

-- `map.values()`
abbrev pub values : AmountMap → List ℤ
values m = map (λ e. e.1) m

abbrev add_fixed : ℤ → Share → ℤ
add_fixed total (fixed amount) = total +ℤ amount
add_fixed total (percentage bps) = total

-- The `reduce` of `fixedTotal`.
unfoldable pub fixed_total : ℤ → List Authored → ℤ
fixed_total total [] = total
fixed_total total (e ∷ es) = fixed_total (add_fixed total e.share) es

abbrev pub keep_percentage : ℕ → Share → List (ℕ × ℤ) → List (ℕ × ℤ)
keep_percentage s (fixed amount) rest = rest
keep_percentage s (percentage bps) rest = (s, bps) ∷ rest

-- `percentageEntries`, as sequence and basis points.
unfoldable pub percentage_entries : List Authored → List (ℕ × ℤ)
percentage_entries [] = []
percentage_entries (e ∷ es) = keep_percentage e.sequence e.share (percentage_entries es)

abbrev pub set_share : ℕ → Share → AmountMap → AmountMap
set_share s (fixed amount) m = set_amount s amount m
set_share s (percentage bps) m = m

-- The loops that write the fixed amounts into the map.
unfoldable pub set_fixed : List Authored → AmountMap → AmountMap
set_fixed [] m = m
set_fixed (e ∷ es) m = set_fixed es (set_share e.sequence e.share m)

-- The loop that writes the shares of the percentage entries; there is one share for each entry.
pub set_percentages : List (ℕ × ℤ) → List Money → AmountMap → AmountMap
set_percentages [] shares m = m
set_percentages (e ∷ es) [] m = m
set_percentages (e ∷ es) (s ∷ ss) m = set_percentages es ss (set_amount e.0 s.amount_minor m)

abbrev pub is_nil {ℓ} : {A : Type ℓ} → List A → Bool
is_nil [] = true
is_nil (x ∷ xs) = false

-- An exception of `allocate` passes through.
abbrev pub from_money : {A : Type 0} → Result MoneyError A → Result AmountsError A
from_money (ok a) = ok a
from_money (err e) = err (money_error e)

-- With percentages: they must come to 100%, and split what the fixed amounts leave.
unfoldable pub resolve_mixed :
    List Authored → List (ℕ × ℤ) → ℤ → Money → Result AmountsError AmountMap
unfolding set_fixed set_percentages
resolve_mixed authored entries fixed_sum total = do
  let bps = add_up (pos 0) (map (λ e. e.1) entries)
  throw_if (not (bps ==ℤ pos 10_000)) (not_one_hundred_percent bps)
  shares ← from_money (
      allocate (record total { amount_minor = total.amount_minor -ℤ fixed_sum })
        (map (λ e. e.1) entries))
  let resolved = set_percentages entries shares (set_fixed authored [])
  let resolved_total = add_up (pos 0) (values resolved)
  throw_if (not (resolved_total ==ℤ total.amount_minor))
      (resolved_differ_from_total resolved_total total.amount_minor)
  ok resolved

-- Without percentages the fixed amounts must come to the deal total.
unfoldable pub resolve_fixed : List Authored → ℤ → Money → Result AmountsError AmountMap
unfolding set_fixed
resolve_fixed authored fixed_sum total = do
  throw_if (not (fixed_sum ==ℤ total.amount_minor))
      (fixed_differ_from_total fixed_sum total.amount_minor)
  ok (set_fixed authored [])

unfoldable pub resolve_milestone_amounts : List Authored → Money → Result AmountsError AmountMap
unfolding fixed_total percentage_entries
resolve_milestone_amounts authored total = do
  throw_if (is_nil authored) no_milestones
  let fixed_sum = fixed_total (pos 0) authored
  throw_if (ltb_ℤ total.amount_minor fixed_sum) (fixed_exceed_total fixed_sum total.amount_minor)
  let entries = percentage_entries authored
  (if is_nil entries
      then resolve_fixed authored fixed_sum total
      else resolve_mixed authored entries fixed_sum total)
