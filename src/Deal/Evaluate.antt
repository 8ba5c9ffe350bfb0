-- ===== src/Deal/Evaluate.antt =====
-- `evaluateDeal` of packages/domain/src/deal/evaluate.ts: which milestones are due, and what is next.
pub mod Laws
use rayi.Prelude.{
  ℕ, Bool, true, false, not, Option, List, map, Text, Identifier, select, find, is_some, leb,
  if◌then◌else◌, ℤ, pos, add_up,
}
use rayi.Prelude.Sorting.{sort}
use rayi.Deal.Conditions.{MilestoneCondition, DealFacts, Reason, already_paid, evaluate_condition}

pub record MilestoneInput : Type 0 where
  pub id : Identifier
  pub condition : MilestoneCondition
  pub amount_minor : ℤ
  pub released_at : Option ℤ
  pub sequence : ℕ

pub record MilestoneVerdict : Type 0 where
  pub milestone_id : Identifier
  pub amount_minor : ℤ
  pub satisfied : Bool
  pub reason : Reason
  pub should_release : Bool
  pub already_released : Bool

pub record DealEvaluation : Type 0 where
  pub verdicts : List MilestoneVerdict
  pub to_release : List MilestoneVerdict
  pub total_to_release_minor : ℤ
  pub next_unlock : Option MilestoneVerdict

-- The comparator of `sort` does not put `a` behind `b`.
pub by_sequence : MilestoneInput → MilestoneInput → Bool
by_sequence a b = leb a.sequence b.sequence

-- How a host reads a date string is the parameter of Deal/Conditions.
module _ (parse_date : Text → Option ℤ) where
  unfoldable pub verdict_of : DealFacts → MilestoneInput → MilestoneVerdict
  verdict_of facts m =
      let verdict = evaluate_condition parse_date m.condition m.id facts in
      if is_some m.released_at
      then record {
        milestone_id = m.id;
        amount_minor = m.amount_minor;
        satisfied = true;
        reason = already_paid;
        should_release = false;
        already_released = true;
      }
      else record {
        milestone_id = m.id;
        amount_minor = m.amount_minor;
        satisfied = verdict.satisfied;
        reason = verdict.reason;
        should_release = verdict.satisfied;
        already_released = false;
      }

  unfoldable pub evaluate_deal : List MilestoneInput → DealFacts → DealEvaluation
  unfolding sort by_sequence verdict_of
  evaluate_deal milestones facts =
      let verdicts = map (verdict_of facts) (sort by_sequence milestones) in
      let to_release = select (λ v. v.should_release) verdicts in
      record {
        verdicts = verdicts;
        to_release = to_release;
        total_to_release_minor = add_up (pos 0) (map (λ v. v.amount_minor) to_release);
        next_unlock = find (λ v. not v.satisfied) verdicts;
      }
