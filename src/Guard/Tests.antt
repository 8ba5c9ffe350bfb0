-- ===== src/Guard/Tests.antt =====
-- Runs of the guard at concrete inputs.
use rayi.Prelude.{◌≡◌, refl, true, some, Identifier, trim, split, ok}
use rayi.Authorization.{
  could_ever, ceiling_of_member, holds_any_money_authority, holds_of_member, find_member, roles_of,
  role_matches, find_authority,
}
use rayi.Authorization.Tests.{rights}
use rayi.Treasury.{campaign_allocate}
use rayi.Treasury.Tests.{start, input, accepted, answer, input-accepted}
use rayi.Guard.{permission, Request, check_in_org, check_permission, can_activate}
use rayi.Guard.Admission.{IsAdmitted, can_activate_admits_only, can_activate-execute}

abbrev request : Request
request = record { user_id = some 70; org_id = some 9 }

request_admitted :
    can_activate rights true (some (permission campaign_allocate true)) request ≡ ok true
unfolding can_activate check_permission check_in_org could_ever ceiling_of_member
    holds_any_money_authority holds_of_member find_member roles_of role_matches find_authority trim
    split
request_admitted = refl

can_activate_admits_only_example :
    (user : Identifier) × (request.user_id ≡ some user)
    × IsAdmitted rights campaign_allocate true request user
can_activate_admits_only_example =
    can_activate_admits_only rights campaign_allocate true request true request_admitted

can_activate-execute_example :
    can_activate rights true (some (permission campaign_allocate true)) request ≡ ok true
can_activate-execute_example = can_activate-execute input start accepted answer input-accepted
