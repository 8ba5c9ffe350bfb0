-- ===== src/Deal/Tests.antt =====
-- Runs of packages/domain/src/deal at concrete inputs.
use rayi.Prelude.{◌≡◌, refl, Option, none, some, List, [], ◌∷◌, map, Text, ℤ, pos, ◌+ℤ◌, sum_ℤ, ok}
use rayi.Money.Currency.{usd}
use rayi.Money.Amount.{Money}
use rayi.Deal.Conditions.{advance, deliverables_approved_count, DealFacts}
use rayi.Deal.Evaluate.{MilestoneInput, evaluate_deal}
use rayi.Deal.Evaluate.Laws.{due_amount, total_to_release_exact}
use rayi.Deal.Amounts.{
  fixed, percentage, Authored, AmountMap, values, resolve_milestone_amounts, fixed_total,
  percentage_entries, resolve_fixed, set_fixed,
}
use rayi.Deal.Amounts.Entries.{fixed_sum}
use rayi.Deal.Amounts.Laws.{resolve_mixed_total, resolve_sums_to_total}

-- A host that reads every text but the empty one as the same time.
abbrev reading : Text → Option ℤ
reading [] = none
reading (c ∷ s) = some (pos 50)

abbrev facts : DealFacts
facts = record {
  approved_deliverable_ids = 4 ∷ 7 ∷ [];
  total_deliverables = 2;
  manually_approved_milestone_ids = [];
  now = pos 60;
}

abbrev later_facts : DealFacts
later_facts = record {
  approved_deliverable_ids = 7 ∷ 9 ∷ 4 ∷ [];
  total_deliverables = 2;
  manually_approved_milestone_ids = 1 ∷ [];
  now = pos 70;
}

abbrev larger_facts : DealFacts
larger_facts = record facts { total_deliverables = 3 }

abbrev milestones : List MilestoneInput
milestones =
    record {
      id = 1;
      condition = deliverables_approved_count (pos 3);
      amount_minor = pos 30;
      released_at = none;
      sequence = 2;
    }
    ∷ record {
      id = 2;
      condition = advance;
      amount_minor = pos 20;
      released_at = none;
      sequence = 1;
    }
    ∷ record {
      id = 3;
      condition = advance;
      amount_minor = pos 50;
      released_at = some (pos 8);
      sequence = 0;
    }
    ∷ []

total_to_release_exact_example :
    (evaluate_deal reading milestones facts).total_to_release_minor
    ≡ sum_ℤ (map (due_amount reading facts) milestones)
total_to_release_exact_example = total_to_release_exact reading milestones facts

abbrev authored : List Authored
authored =
    record { sequence = 0; share = fixed (pos 100) }
    ∷ record { sequence = 1; share = percentage (pos 3_333) }
    ∷ record { sequence = 2; share = percentage (pos 6_667) }
    ∷ []

abbrev deal_total : Money
deal_total = record { amount_minor = pos 1_000; currency = usd }

entries_shape : map (λ x. x.1) (percentage_entries authored) ≡ pos 3_333 ∷ pos 6_667 ∷ []
unfolding percentage_entries
entries_shape = refl

total_covers : pos 1_000 ≡ fixed_sum authored +ℤ pos 900
unfolding ◌+ℤ◌
total_covers = refl

resolve_mixed_total_example :
    (m : AmountMap) × (resolve_milestone_amounts authored deal_total ≡ ok m)
    × (sum_ℤ (values m) ≡ pos 1_000)
resolve_mixed_total_example =
    resolve_mixed_total authored deal_total (3_333 ∷ 6_667 ∷ []) 900 (refl, (refl, (refl, tt)))
      entries_shape refl total_covers

abbrev fixed_only : List Authored
fixed_only =
    record { sequence = 0; share = fixed (pos 400) }
    ∷ record { sequence = 1; share = fixed (pos 600) }
    ∷ []

fixed_resolved :
    resolve_milestone_amounts fixed_only deal_total ≡ ok ((0, pos 400) ∷ (1, pos 600) ∷ [])
unfolding resolve_milestone_amounts resolve_fixed fixed_total percentage_entries set_fixed ◌+ℤ◌
fixed_resolved = refl

resolve_sums_to_total_example : sum_ℤ (values ((0, pos 400) ∷ (1, pos 600) ∷ [])) ≡ pos 1_000
resolve_sums_to_total_example =
    resolve_sums_to_total fixed_only deal_total ((0, pos 400) ∷ (1, pos 600) ∷ [])
      (refl, (refl, tt)) fixed_resolved
