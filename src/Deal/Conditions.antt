-- ===== src/Deal/Conditions.antt =====
-- packages/domain/src/deal/conditions.ts: the closed catalogue of milestone conditions. The sentence
-- of a verdict is a constructor with the numbers that the template prints.
pub mod Laws
use rayi.Prelude.{
  ℕ, ◌≡◌, Bool, true, false, Option, none, some, List, [], Text, Identifier, has, length, select,
  not, ◌==◌, if◌then◌else◌, ℤ, pos, ◌-ℤ◌, leb_ℤ, ltb_ℤ,
}

pub data MilestoneCondition : Type 0 where
  advance all_deliverables_approved manual_brand_approval : MilestoneCondition
  deliverables_approved_count : ℤ → MilestoneCondition
  specific_deliverables_approved : List Identifier → MilestoneCondition
  date_reached : Text → MilestoneCondition

-- Times are milliseconds since the epoch.
pub record DealFacts : Type 0 where
  pub approved_deliverable_ids : List Identifier
  pub total_deliverables : ℕ
  pub manually_approved_milestone_ids : List Identifier
  pub now : ℤ

pub data Reason : Type 0 where
  paid_up_front every_specific_approved no_deliverables_agreed every_deliverable_approved : Reason
  invalid_date date_passed brand_approved waiting_for_brand already_paid : Reason
  count_reached : ℤ → Reason
  more_needed : ℤ → ℕ → ℤ → Reason
  specific_waiting : ℕ → Reason
  some_waiting : ℤ → ℕ → Reason
  unlocks_on : ℤ → Reason

pub record Verdict : Type 0 where
  pub satisfied : Bool
  pub reason : Reason

-- `Math.max(0, n)`
abbrev max_zero : ℤ → ℤ
max_zero n = if ltb_ℤ n (pos 0) then pos 0 else n

abbrev is_zero : ℤ → Bool
is_zero n = leb_ℤ n (pos 0)

count_verdict : ℤ → ℕ → Verdict
count_verdict count approved =
    let remaining = max_zero (count -ℤ pos approved) in
    record {
      satisfied = leb_ℤ count (pos approved);
      reason =
          if is_zero remaining then count_reached count else more_needed remaining approved count;
    }

specific_verdict : List Identifier → List Identifier → Verdict
specific_verdict ids approved =
    let outstanding = length (select (λ id. not (has approved id)) ids) in
    record {
      satisfied = outstanding == 0;
      reason = if outstanding == 0 then every_specific_approved else specific_waiting outstanding;
    }

all_verdict : ℕ → ℕ → Verdict
all_verdict total approved =
    let remaining = pos total -ℤ pos approved in
    if total == 0 then record { satisfied = false; reason = no_deliverables_agreed } else record {
      satisfied = leb_ℤ remaining (pos 0);
      reason =
          if leb_ℤ remaining (pos 0)
          then every_deliverable_approved
          else some_waiting remaining total;
    }

date_verdict : Option ℤ → ℤ → Verdict
date_verdict none now = record { satisfied = false; reason = invalid_date }
date_verdict (some at) now = record {
  satisfied = leb_ℤ at now;
  reason = if leb_ℤ at now then date_passed else unlocks_on at;
}

manual_verdict : Bool → Verdict
manual_verdict approved = record {
  satisfied = approved;
  reason = if approved then brand_approved else waiting_for_brand;
}

-- `new Date(s).getTime()`, `none` for `NaN`: how a host reads the date strings it is given is not
-- fixed by the program, so the reading is a parameter.
module _ (parse_date : Text → Option ℤ) where
  unfoldable pub evaluate_condition : MilestoneCondition → Identifier → DealFacts → Verdict
  unfolding count_verdict specific_verdict all_verdict date_verdict manual_verdict
  evaluate_condition advance milestone_id facts = record {
    satisfied = true;
    reason = paid_up_front;
  }
  evaluate_condition (deliverables_approved_count count) milestone_id facts =
      count_verdict count (length facts.approved_deliverable_ids)
  evaluate_condition (specific_deliverables_approved ids) milestone_id facts =
      specific_verdict ids facts.approved_deliverable_ids
  evaluate_condition all_deliverables_approved milestone_id facts =
      all_verdict facts.total_deliverables (length facts.approved_deliverable_ids)
  evaluate_condition (date_reached at) milestone_id facts = date_verdict (parse_date at) facts.now
  evaluate_condition manual_brand_approval milestone_id facts =
      manual_verdict (has facts.manually_approved_milestone_ids milestone_id)

  -- The identifier `__disclosure__` is that of no milestone; the empty set holds no identifier.
  unfoldable pub is_satisfiable_at_start : Identifier → MilestoneCondition → ℤ → Bool
  is_satisfiable_at_start disclosure condition now =
      (evaluate_condition condition disclosure (record {
        approved_deliverable_ids = [];
        total_deliverables = 0;
        manually_approved_milestone_ids = [];
        now = now;
      })).satisfied
