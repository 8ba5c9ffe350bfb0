-- ===== src/Treasury.antt =====
-- apps/backend/src/treasury/use-cases/allocate-budget.use-case.ts: the request to allocate budget from
-- an organization's balance to a campaign. It moves no money: it checks, and writes a command.
pub mod Tests
pub mod Request
pub mod Processor
pub mod Processing
pub mod Delivery
pub mod Queue
use rayi.Prelude.{
  Bool, true, false, not, ◌&&◌, ◌||◌, Option, none, some, List, [], ◌∷◌, ℕ, suc, Identifier, Text,
  codes, text_eq, find, ◌==◌, if◌then◌else◌, ℤ, pos, leb_ℤ, ◌==ℤ◌, Result, ok, err, ◌>>=◌, ◌>>◌,
  throw_if,
}
use rayi.Authorization
use rayi.Authorization.{
  Member, PermissionScope, DenialReason, exceeds_limit, not_a_member, no_money_authority,
  MoneyAuthorityCheck, granted, denied, can, has_money_authority, find_member,
}
use rayi.Ledger.SqlState.{Error}
use rayi.Ledger.Accounts.{Campaign, same_id}

pub data Status : Type 0 where
  pending processing completed failed : Status

-- Why a command was refused, before it is rendered as text.
pub data FailureReason : Type 0 where
  wrong_processor : Text → FailureReason
  missing_campaign : FailureReason
  stale_balance : ℤ → ℤ → FailureReason
  permission_revoked : FailureReason
  authority_revoked : DenialReason → FailureReason
  ledger_refused : Option Error → FailureReason

-- A row of `treasury_command`; times are in milliseconds.
pub record TreasuryCommand : Type 0 where
  pub id : Identifier
  pub kind : Text
  pub idempotency_key : Identifier
  pub organization_id : Identifier
  pub workspace_id : Option Identifier
  pub campaign_id : Option Identifier
  pub amount_minor : ℤ
  pub currency : Text
  pub actor_user_id : Identifier
  pub actor_member_id : Identifier
  pub expected_available_minor : Option ℤ
  pub status : Status
  pub claimed_at : Option ℕ
  pub attempts : ℕ
  pub ledger_entry_id : Option Identifier
  pub failure_reason : Option FailureReason
  pub created_at : ℕ

-- The tables of the application, the identifiers sent by `pg_notify` (the latest first), the next
-- identifier and the time.
pub record Store : Type 0 where
  pub rights : Authorization.Tables
  pub campaigns : List Campaign
  pub commands : List TreasuryCommand
  pub notified : List Identifier
  pub next_id : Identifier
  pub now : ℕ

pub record AllocateBudgetInput : Type 0 where
  pub organization_id : Identifier
  pub campaign_id : Identifier
  pub amount_minor : ℤ
  pub currency : Text
  pub idempotency_key : Identifier
  pub actor_user_id : Identifier
  pub expected_available_minor : Option ℤ

pub record AllocateBudgetResult : Type 0 where
  pub command_id : Identifier
  pub campaign_id : Identifier
  pub replayed : Bool

-- `NotVisible`, and the texts of the `ForbiddenException`s.
pub data Refusal : Type 0 where
  not_visible amount_not_positive other_currency closed_campaign over_approval_limit not_authorised
        key_reused :
      Refusal

abbrev pub campaign_allocate : Text
campaign_allocate = codes "campaign:allocate"

abbrev pub find_campaign : Store → AllocateBudgetInput → Option Campaign
find_campaign s input =
    find (λ c. c.id == input.campaign_id && c.organization_id == input.organization_id) s.campaigns

abbrev pub required : {A : Type 0} → Option A → Result Refusal A
required none = err not_visible
required (some a) = ok a

abbrev pub scope_of : Identifier → Option Identifier → PermissionScope
scope_of org_id ws = record { organization_id = org_id; workspace_id = ws }

-- `if (!authority.granted) throw ...`
abbrev pub require_granted : MoneyAuthorityCheck → Result Refusal (Unit {0})
require_granted (granted limit) = ok tt
require_granted (denied limit exceeds_limit) = err over_approval_limit
require_granted (denied limit not_a_member) = err not_authorised
require_granted (denied limit no_money_authority) = err not_authorised

abbrev pub same_amount : Option ℤ → Option ℤ → Bool
same_amount none none = true
same_amount (some a) (some b) = a ==ℤ b
same_amount _ _ = false

-- `sameRequest`
abbrev pub same_request : TreasuryCommand → AllocateBudgetInput → Bool
same_request c input =
    (c.organization_id == input.organization_id && same_id c.campaign_id input.campaign_id)
    && ((c.amount_minor ==ℤ input.amount_minor && text_eq c.currency input.currency)
        && same_amount c.expected_available_minor input.expected_available_minor)

abbrev pub or_else : Option Identifier → Identifier → Identifier
or_else none i = i
or_else (some j) i = j

abbrev pub allocate_budget_kind : Text
allocate_budget_kind = codes "ALLOCATE_BUDGET"

abbrev pub new_command : Store → AllocateBudgetInput → Campaign → Member → TreasuryCommand
new_command s input c m = record {
  id = s.next_id;
  kind = allocate_budget_kind;
  idempotency_key = input.idempotency_key;
  organization_id = input.organization_id;
  workspace_id = some c.workspace_id;
  campaign_id = some input.campaign_id;
  amount_minor = input.amount_minor;
  currency = input.currency;
  actor_user_id = input.actor_user_id;
  actor_member_id = m.id;
  expected_available_minor = input.expected_available_minor;
  status = pending;
  claimed_at = none;
  attempts = 0;
  ledger_entry_id = none;
  failure_reason = none;
  created_at = s.now;
}

-- The transaction: the command that the key already has, or a new one and its notification.
unfoldable pub replay_or_create :
    AllocateBudgetInput
    → Store
    → Campaign
    → Member
    → Option TreasuryCommand
    → Result Refusal (AllocateBudgetResult × Store)
replay_or_create input s c m (some old) =
    if same_request old input
    then ok (
      record {
        command_id = old.id;
        campaign_id = or_else old.campaign_id input.campaign_id;
        replayed = true;
      },
      s,
    )
    else err key_reused
replay_or_create input s c m none = ok (
  record { command_id = s.next_id; campaign_id = input.campaign_id; replayed = false },
  record s {
    commands = new_command s input c m ∷ s.commands;
    notified = s.next_id ∷ s.notified;
    next_id = suc s.next_id;
  },
)

-- `existing`, by its unique key.
abbrev pub find_key : Store → Identifier → Option TreasuryCommand
find_key s key = find (λ c. c.idempotency_key == key) s.commands

-- The checks of `execute`, in their order: the campaign and the member that pass.
unfoldable pub check_request : AllocateBudgetInput → Store → Result Refusal (Campaign × Member)
check_request input s =
    throw_if (leb_ℤ input.amount_minor (pos 0)) amount_not_positive
    >> (required (find_campaign s input) >>= λ c.
        (throw_if (not (text_eq c.currency input.currency)) other_currency
          >> (throw_if (text_eq c.state (codes "cancelled") || text_eq c.state (codes "completed"))
                closed_campaign
              >> (throw_if
                    (not (
                      can s.rights input.actor_user_id campaign_allocate
                        (scope_of input.organization_id (some c.workspace_id))))
                    not_visible
                  >> (require_granted (
                        has_money_authority s.rights input.actor_user_id campaign_allocate
                          (scope_of input.organization_id (some c.workspace_id))
                          (some input.amount_minor))
                      >> (required (find_member s.rights input.actor_user_id input.organization_id)
                          >>= λ m. ok (c, m)))))))

-- `AllocateBudgetUseCase.execute`
unfoldable pub execute : AllocateBudgetInput → Store → Result Refusal (AllocateBudgetResult × Store)
unfolding check_request replay_or_create
execute input s = check_request input s >>= λ (c, m).
    replay_or_create input s c m (find_key s input.idempotency_key)
