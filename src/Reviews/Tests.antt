-- ===== src/Reviews/Tests.antt =====
-- Runs of reviews at concrete inputs.
use rayi.Prelude.{
  true, Option, none, some, List, [], ◌∷◌, ◌≡◌, refl, Text, codes, ok, err, ℤ, pos, ◌+ℤ◌, ◌-ℤ◌,
  trim, split,
}
use rayi.Prelude.Sorting.{sort, insert}
use rayi.Authorization as Authorization
use rayi.Authorization.{
  org, can, effective_permissions, find_member, permissions_of_member, roles_of, workspace_roles,
  role_matches,
}
use rayi.Deal.Conditions.{all_deliverables_approved, evaluate_condition}
use rayi.Deal.Evaluate.{MilestoneInput, MilestoneVerdict, verdict_of, evaluate_deal}
use rayi.Deals.{submitted, approved}
use rayi.Reviews.{
  Deliverable, Tables, human, approval, new_review, deal_facts, would_satisfy, total_of,
  write_approval, check_violation, request_changes, write_changes,
}
use rayi.Reviews.Approvals.{IsConsistent, write_approval-IsConsistent}

abbrev rights : Authorization.Tables
rights = record {
  members = (record { id = 31; user_id = 70; organization_id = 9; role = codes "owner" }) ∷ [];
  workspace_members = [];
  role_permissions =
      (record { scope = org; role = codes "owner"; permission = codes "deliverable:review" }) ∷ [];
  money_authorities =
      (record {
        member_id = 31;
        organization_id = 9;
        capability = codes "deliverable:release";
        limit_minor = some (pos 500);
        revoked_at = none;
      })
      ∷ [];
  users = [];
}

abbrev parse_date : Text → Option ℤ
parse_date s = none

abbrev video : Deliverable
video = record { id = 80; deal_id = 50; state = submitted; version = 2; approved_at = none }

abbrev final : MilestoneInput
final = record {
  id = 60;
  condition = all_deliverables_approved;
  amount_minor = pos 400;
  released_at = none;
  sequence = 0;
}

abbrev db : Tables
db = record {
  rights = rights;
  deals = (record { id = 50; organization_id = 9 }) ∷ [];
  milestones = (record { deal_id = 50; in_force = true; milestone = final }) ∷ [];
  submissions = (record { id = 90; deliverable_id = 80 }) ∷ [];
  deliverables = video ∷ [];
  reviews = [];
}

abbrev quiet : Tables → Tables
quiet w = w

abbrev after : Tables
after = record db {
  deliverables = (record video { state = approved; approved_at = some 1_000; version = 3 }) ∷ [];
  reviews = new_review 7 90 80 approval human 70 1_000 ∷ [];
}

abbrev due : List MilestoneVerdict
due = would_satisfy parse_date 50 80 1_000 db

due_total : total_of parse_date due ≡ pos 400
unfolding would_satisfy total_of evaluate_deal deal_facts sort insert verdict_of evaluate_condition
    ◌+ℤ◌ ◌-ℤ◌
due_total = refl

-- Changes cannot be requested on a deliverable that is approved: the statement violates a constraint.
changes_refused : request_changes quiet 8 90 9 70 2_000 after ≡ err check_violation
unfolding request_changes write_changes can effective_permissions permissions_of_member find_member
    roles_of workspace_roles role_matches trim split
changes_refused = refl

was_written : write_approval video (new_review 7 90 80 approval human 70 1_000) 1_000 db ≡ ok after
unfolding write_approval
was_written = refl

write_approval-IsConsistent_example : IsConsistent after
write_approval-IsConsistent_example =
    write_approval-IsConsistent video 7 90 70 human 1_000 db after was_written
      ((refl, tt), ((refl, refl), tt))
