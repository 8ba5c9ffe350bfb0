-- ===== src/Treasury/Tests.antt =====
-- Runs of the allocation of budget at concrete inputs.
use rayi.Prelude.{
  ◌≡◌, ◌⊎◌, ◌≤◌, refl, true, false, none, some, [], ◌∷◌, codes, trim, split, text_eq, arith, find,
  length, ◌==◌, pos, ok,
}
use rayi.Authorization.{
  can, effective_permissions, permissions_of_member, find_member, roles_of, workspace_roles,
  role_matches, has_money_authority, authority_of_member, check_authority, find_authority,
}
use rayi.Authorization.Tests.{rights}
use rayi.Ledger.Accounts.{Campaign}
use rayi.Ledger.Sources.{IsOnce, entries_of}
use rayi.Ledger.Tests.{before, before-IsSound}
use rayi.Ledger.Books.{IsSound}
use rayi.Ledger.Freshness.{IsFresh}
use rayi.Treasury.{
  pending, processing, permission_revoked, TreasuryCommand, Store, AllocateBudgetInput,
  AllocateBudgetResult, execute, check_request, replay_or_create,
}
use rayi.Treasury.Request.{IsEntitled, execute-IsEntitled}
use rayi.Treasury.Processor.{World, thrown, is_live, treasury_source, process, reauthorize}
use rayi.Treasury.Processing.{IsAuthorized, refused, process-IsAuthorized, process_refusal_recorded}
use rayi.Treasury.Queue.{deliver}
use rayi.Treasury.Delivery.{deliver-IsSound, deliver_posts_once}

abbrev campaign : Campaign
campaign = record {
  id = 5;
  organization_id = 9;
  workspace_id = 6;
  currency = codes "USD";
  state = codes "active";
}

abbrev pub start : Store
start = record {
  rights = rights;
  campaigns = campaign ∷ [];
  commands = [];
  notified = [];
  next_id = 40;
  now = 1_000;
}

abbrev pub input : AllocateBudgetInput
input = record {
  organization_id = 9;
  campaign_id = 5;
  amount_minor = pos 70;
  currency = codes "USD";
  idempotency_key = 77;
  actor_user_id = 70;
  expected_available_minor = none;
}

abbrev command : TreasuryCommand
command = record {
  id = 40;
  kind = codes "ALLOCATE_BUDGET";
  idempotency_key = 77;
  organization_id = 9;
  workspace_id = some 6;
  campaign_id = some 5;
  amount_minor = pos 70;
  currency = codes "USD";
  actor_user_id = 70;
  actor_member_id = 31;
  expected_available_minor = none;
  status = pending;
  claimed_at = none;
  attempts = 0;
  ledger_entry_id = none;
  failure_reason = none;
  created_at = 1_000;
}

abbrev pub accepted : Store
accepted = record start { commands = command ∷ []; notified = 40 ∷ []; next_id = 41 }

abbrev pub answer : AllocateBudgetResult
answer = record { command_id = 40; campaign_id = 5; replayed = false }

pub input-accepted : execute input start ≡ ok (answer, accepted)
unfolding execute check_request replay_or_create can effective_permissions permissions_of_member
    find_member roles_of workspace_roles role_matches trim split has_money_authority
    authority_of_member check_authority find_authority
input-accepted = refl

execute-IsEntitled_example : (c : Campaign) × IsEntitled input start c
execute-IsEntitled_example = execute-IsEntitled input start accepted answer input-accepted

-- The command, claimed by a worker; and rights from which the member is gone.
abbrev working : World
working = record {
  store = record accepted {
    commands = record command { status = processing; claimed_at = some 1_000; attempts = 1 } ∷ [];
  };
  ledger = record { db = before; failures = [] };
}

abbrev revoked : World
revoked = record working {
  store = record (working.store) { rights = record rights { members = [] } };
}

process-IsAuthorized_example :
    (((process 40 working).1).ledger ≡ working.ledger)
    ⊎ ((c : TreasuryCommand) × (find (λ c. c.id == 40) working.store.commands ≡ some c)
        × (text_eq c.kind (codes "ALLOCATE_BUDGET") ≡ true)
        × (is_live c.status ≡ true)
        × IsAuthorized working.store c)
process-IsAuthorized_example = process-IsAuthorized 40 working

revoked_throws : (process 40 revoked).0 ≡ thrown permission_revoked
unfolding process reauthorize can effective_permissions permissions_of_member find_member
revoked_throws = refl

process_refusal_recorded_example :
    find (λ d. d.id == 40) ((process 40 revoked).1).store.commands
    ≡ some (
        refused permission_revoked
          (record command { status = processing; claimed_at = some 1_000; attempts = 1 }))
process_refusal_recorded_example =
    process_refusal_recorded 40 revoked
      (record command { status = processing; claimed_at = some 1_000; attempts = 1 })
      permission_revoked refl revoked_throws

before-IsOnce : IsOnce before
before-IsOnce = λ kind source. omega arith

deliver_posts_once_example :
    length (entries_of treasury_source 40 (deliver (40 ∷ 40 ∷ []) working).ledger.db) ≤ 1
deliver_posts_once_example = deliver_posts_once (40 ∷ 40 ∷ []) working 40 before-IsOnce

deliver-IsSound_example :
    IsSound (deliver (40 ∷ 40 ∷ []) working).ledger.db
    × IsFresh (deliver (40 ∷ 40 ∷ []) working).ledger.db
deliver-IsSound_example =
    deliver-IsSound (40 ∷ 40 ∷ []) working before-IsSound ((omega arith, (omega arith, tt)), tt)
