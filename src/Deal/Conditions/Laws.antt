-- ===== src/Deal/Conditions/Laws.antt =====
-- What every condition of packages/domain/src/deal/conditions.ts has to satisfy.
use rayi.Prelude.{
  ℕ, ◌≡◌, refl, Bool, true, false, Option, List, [], ◌∷◌, arith, Text, Identifier, has, length,
  select, not, IsDistinct, IsSubset, length-subset, has_of_subset, ℤ, ◌≤ℤ◌, ◌-ℤ◌, Option-cases, inl,
  inr,
}
use rayi.Deal.Conditions.{
  MilestoneCondition, advance, all_deliverables_approved, manual_brand_approval,
  deliverables_approved_count, specific_deliverables_approved, date_reached, DealFacts, Reason,
  paid_up_front, every_specific_approved, every_deliverable_approved, date_passed, brand_approved,
  already_paid, count_reached, evaluate_condition, is_satisfiable_at_start,
}

-- `g` is a later state of the deal that `f` describes: approvals and time have only grown.
pub record Later (f g : DealFacts) : Type 0 where
  pub approved_grows : IsSubset f.approved_deliverable_ids g.approved_deliverable_ids
  pub approved_distinct : IsDistinct f.approved_deliverable_ids
  pub same_total : f.total_deliverables ≡ g.total_deliverables
  pub manual_grows : IsSubset f.manually_approved_milestone_ids g.manually_approved_milestone_ids
  pub time_passes : f.now ≤ℤ g.now

outstanding_shrinks :
    (xs ys ids : List Identifier)
    → IsSubset xs ys
    → length (select (λ id. not (has xs id)) ids) ≡ 0
    → length (select (λ id. not (has ys id)) ids) ≡ 0
outstanding_shrinks xs ys [] s h = refl
outstanding_shrinks xs ys (id ∷ ids) s h =
    ground (arith, has_of_subset xs ys id, outstanding_shrinks xs ys ids)

module _ (parse_date : Text → Option ℤ) where
  pub evaluate_condition_monotone :
      (c : MilestoneCondition) (m : Identifier) (f g : DealFacts)
      → Later f g
      → (evaluate_condition parse_date c m f).satisfied ≡ true
      → (evaluate_condition parse_date c m g).satisfied ≡ true
  unfolding evaluate_condition ◌-ℤ◌
  evaluate_condition_monotone advance m f g l h = refl
  evaluate_condition_monotone (deliverables_approved_count n) m f g l h =
      let grows = length-subset _ _ l.approved_distinct l.approved_grows in ground arith
  evaluate_condition_monotone (specific_deliverables_approved ids) m f g l h =
      ground (arith, outstanding_shrinks _ _ ids l.approved_grows)
  evaluate_condition_monotone all_deliverables_approved m f g l h =
      let grows = length-subset _ _ l.approved_distinct l.approved_grows in ground arith
  evaluate_condition_monotone (date_reached at) m f g l h = elim (Option-cases (parse_date at)) [
    | inl bad ↦ ground arith
    | inr (t, e) ↦ ground arith
  ]
  evaluate_condition_monotone manual_brand_approval m f g l h = has_of_subset _ _ m l.manual_grows h

  -- The advance disclosure is exact: a condition is satisfiable at the start if and only if it is
  -- satisfied, for every milestone, on a deal of any size on which nothing has been approved.
  pub is_satisfiable_at_start_exact :
      (d : Identifier) (c : MilestoneCondition) (m : Identifier) (total : ℕ) (now : ℤ)
      → is_satisfiable_at_start parse_date d c now
        ≡ (evaluate_condition parse_date c m (record {
          approved_deliverable_ids = [];
          total_deliverables = total;
          manually_approved_milestone_ids = [];
          now = now;
        })).satisfied
  unfolding is_satisfiable_at_start evaluate_condition ◌-ℤ◌
  is_satisfiable_at_start_exact d advance m total now = refl
  is_satisfiable_at_start_exact d all_deliverables_approved m total now = ground arith
  is_satisfiable_at_start_exact d _ m total now = refl

  -- What the disclosure calls an advance is due in every later state of every deal.
  pub advance_always_due :
      (d : Identifier) (c : MilestoneCondition) (m : Identifier) (start : ℤ) (f : DealFacts)
      → is_satisfiable_at_start parse_date d c start ≡ true
      → start ≤ℤ f.now
      → (evaluate_condition parse_date c m f).satisfied ≡ true
  unfolding is_satisfiable_at_start evaluate_condition
  advance_always_due d advance m start f h l = refl
  advance_always_due d all_deliverables_approved m start f h l = cc
  advance_always_due d manual_brand_approval m start f h l = cc
  advance_always_due d (deliverables_approved_count n) m start f h l = ground arith
  advance_always_due d (specific_deliverables_approved []) m start f h l = refl
  advance_always_due d (specific_deliverables_approved (i ∷ ids)) m start f h l = ground arith
  advance_always_due d (date_reached at) m start f h l = elim (Option-cases (parse_date at)) [
    | inl bad ↦ ground arith
    | inr (t, e) ↦ ground arith
  ]

-- The sentences that announce an unlocked milestone.
abbrev pub announces_unlock : Reason → Bool
announces_unlock paid_up_front = true
announces_unlock every_specific_approved = true
announces_unlock every_deliverable_approved = true
announces_unlock date_passed = true
announces_unlock brand_approved = true
announces_unlock already_paid = true
announces_unlock (count_reached n) = true
announces_unlock _ = false

module _ (parse_date : Text → Option ℤ) where
  -- The sentence shown announces an unlocked milestone exactly when the engine is satisfied.
  pub reason_agrees :
      (c : MilestoneCondition) (m : Identifier) (f : DealFacts)
      → announces_unlock (evaluate_condition parse_date c m f).reason
        ≡ (evaluate_condition parse_date c m f).satisfied
  unfolding evaluate_condition ◌-ℤ◌
  reason_agrees (date_reached at) m f = elim (Option-cases (parse_date at)) [
    | inl bad ↦ ground arith
    | inr (t, e) ↦ ground arith
  ]
  reason_agrees c m f = ground arith
