-- ===== src/Deal/Evaluate/Laws.antt =====
-- What `evaluateDeal` of packages/domain/src/deal/evaluate.ts promises the release step.
use rayi.Prelude.{
  ◌≡◌, ◌↔◌, refl, ◌∙◌, Bool, true, false, not, ◌&&◌, ◌||◌, Option, none, some, List, [], ◌∷◌, map,
  arith, Text, select, find, is_some, All, if◌then◌else◌, ℤ, pos, ◌+ℤ◌, sum_ℤ, add_up_zero,
  int_laws, Bool-cases, inl, inr,
}
use rayi.Prelude.Sorting.{sort, sum_ℤ-sort, sort-IsSorted, IsSorted, All-sort, sort-All}
use rayi.Deal.Conditions.{DealFacts, evaluate_condition}
use rayi.Deal.Conditions.Laws.{Later, evaluate_condition_monotone}
use rayi.Deal.Evaluate.{MilestoneInput, by_sequence, verdict_of, evaluate_deal}

by_sequence_total : (a b : MilestoneInput) → by_sequence a b ≡ false → by_sequence b a ≡ true
unfolding by_sequence
by_sequence_total a b h = ground arith

by_sequence_trans :
    (a b c : MilestoneInput)
    → by_sequence a b ≡ true
    → by_sequence b c ≡ true
    → by_sequence a c ≡ true
unfolding by_sequence
by_sequence_trans a b c h k = ground arith

module _ (parse_date : Text → Option ℤ) where
  -- A milestone is due: its condition holds and it has not been released.
  abbrev pub is_due : DealFacts → MilestoneInput → Bool
  is_due facts m =
      not (is_some m.released_at)
      && (evaluate_condition parse_date m.condition m.id facts).satisfied

  abbrev pub due_amount : DealFacts → MilestoneInput → ℤ
  due_amount facts m = if is_due facts m then m.amount_minor else pos 0

  should_release-is_due :
      (facts : DealFacts) (m : MilestoneInput)
      → ((verdict_of parse_date facts m).should_release ≡ is_due facts m)
        × ((verdict_of parse_date facts m).amount_minor ≡ m.amount_minor)
        × ((verdict_of parse_date facts m).satisfied ≡ (is_some m.released_at || is_due facts m))
  unfolding verdict_of
  should_release-is_due facts m = ground arith

  select-verdicts :
      (facts : DealFacts) (ms : List MilestoneInput)
      → select (λ v. v.should_release) (map (verdict_of parse_date facts) ms)
        ≡ map (verdict_of parse_date facts) (select (is_due facts) ms)
  unfolding verdict_of
  select-verdicts facts [] = refl
  select-verdicts facts (m ∷ ms) =
      let (due, _, _) = should_release-is_due facts m in
      elim (Bool-cases (is_due facts m)) [
        | inl now_due ↦ rw (due, now_due, select-verdicts facts ms)
        | inr not_due ↦ rw (due, not_due, select-verdicts facts ms)
      ]

  -- The release list is the due milestones and no others, in the order of their sequence numbers.
  pub to_release_exact :
      (ms : List MilestoneInput) (facts : DealFacts)
      → ((evaluate_deal parse_date ms facts).to_release
          ≡ map (verdict_of parse_date facts) (select (is_due facts) (sort by_sequence ms)))
        × IsSorted by_sequence (sort by_sequence ms)
  unfolding evaluate_deal
  to_release_exact ms facts = (
    select-verdicts facts (sort by_sequence ms),
    sort-IsSorted by_sequence by_sequence_total by_sequence_trans ms,
  )

  sum-due :
      (facts : DealFacts) (ms : List MilestoneInput)
      → sum_ℤ (
          map
            (λ v. v.amount_minor)
            (select (λ v. v.should_release) (map (verdict_of parse_date facts) ms)))
        ≡ sum_ℤ (map (due_amount facts) ms)
  sum-due facts [] = refl
  sum-due facts (m ∷ ms) =
      let (due, amount, _) = should_release-is_due facts m in
      let zero_add : pos 0 +ℤ sum_ℤ (map (due_amount facts) ms)
          ≡ sum_ℤ (map (due_amount facts) ms) =
        omega int_laws in
      elim (Bool-cases (is_due facts m)) [
        | inl now_due ↦ rw (due, now_due, amount, sum-due facts ms)
        | inr not_due ↦ rw (due, not_due, zero_add, sum-due facts ms)
      ]

  -- The total to release is the sum of the amounts of the due milestones, in whatever order the
  -- milestones are given.
  pub total_to_release_exact :
      (ms : List MilestoneInput) (facts : DealFacts)
      → (evaluate_deal parse_date ms facts).total_to_release_minor
        ≡ sum_ℤ (map (due_amount facts) ms)
  unfolding evaluate_deal
  total_to_release_exact ms facts =
      add_up_zero _
      ∙ sum-due facts (sort by_sequence ms)
      ∙ sum_ℤ-sort by_sequence (due_amount facts) ms

  -- What the release step does to the milestones on the list: they are marked as released.
  abbrev pub release_due : ℤ → DealFacts → List MilestoneInput → List MilestoneInput
  release_due at facts = map (λ m. if is_due facts m then record m { released_at = some at } else m)

  not_due_after :
      (at : ℤ) (facts : DealFacts) (m : MilestoneInput)
      → due_amount facts (if is_due facts m then record m { released_at = some at } else m) ≡ pos 0
  not_due_after at facts m = elim (Bool-cases (is_due facts m)) [
    | inl now_due ↦ rw now_due
    | inr not_due ↦ rw (not_due, not_due)
  ]

  none_due_after :
      (at : ℤ) (facts : DealFacts) (ms : List MilestoneInput)
      → sum_ℤ (map (due_amount facts) (release_due at facts ms)) ≡ pos 0
  none_due_after at facts [] = refl
  none_due_after at facts (m ∷ ms) =
      rw (not_due_after at facts m, none_due_after at facts ms) (omega int_laws)

  -- Evaluating again after the due milestones have been released releases nothing more.
  pub evaluate_deal_idempotent :
      (ms : List MilestoneInput) (at : ℤ) (facts : DealFacts)
      → (evaluate_deal parse_date (release_due at facts ms) facts).total_to_release_minor ≡ pos 0
  evaluate_deal_idempotent ms at facts =
      total_to_release_exact (release_due at facts ms) facts ∙ none_due_after at facts ms

  -- What is due stays due while approvals and time grow and no deliverable is added.
  pub is_due_monotone :
      (m : MilestoneInput) (f g : DealFacts) → Later f g → is_due f m ≡ true → is_due g m ≡ true
  is_due_monotone m f g l h =
      ground (arith, evaluate_condition_monotone parse_date m.condition m.id f g l)

  find-unsatisfied :
      (facts : DealFacts) (ms : List MilestoneInput)
      → (find (λ v. not v.satisfied) (map (verdict_of parse_date facts) ms) ≡ none)
        ↔ All (λ m. (is_some m.released_at || is_due facts m) ≡ true) ms
  find-unsatisfied facts [] = (λ h. tt, λ h. refl)
  find-unsatisfied facts (m ∷ ms) =
      let (_, _, sat) = should_release-is_due facts m in
      let (left, right) = find-unsatisfied facts ms in
      elim (Bool-cases (is_some m.released_at || is_due facts m)) [
        | inl fine ↦ (λ h. (fine, left (rw (sat, fine) at h)), λ h. rw (sat, fine) (right h.1))
        | inr blocked ↦ (λ h. cc (rw (sat, blocked) at h), λ h. cc (blocked, h.0))
      ]

  -- A next unlock is reported exactly when some milestone is unpaid and unsatisfied.
  pub next_unlock_exact :
      (ms : List MilestoneInput) (facts : DealFacts)
      → ((evaluate_deal parse_date ms facts).next_unlock ≡ none)
        ↔ All (λ m. (is_some m.released_at || is_due facts m) ≡ true) ms
  unfolding evaluate_deal
  next_unlock_exact ms facts =
      let (left, right) = find-unsatisfied facts (sort by_sequence ms) in
      (λ h. sort-All by_sequence _ ms (left h), λ h. right (All-sort by_sequence _ ms h))
