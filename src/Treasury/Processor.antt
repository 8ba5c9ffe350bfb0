-- ===== src/Treasury/Processor.antt =====
-- apps/backend/src/treasury/processors/allocate-budget.processor.ts: the worker's half of an
-- allocation. A command is a pointer: the worker checks the rights again and derives the accounts.
use rayi.Prelude.{
  Bool, true, false, not, ◌&&◌, Option, none, some, [], ◌∷◌, map, Identifier, Text, codes, text_eq,
  find, ◌==◌, if◌then◌else◌, ℤ, ◌==ℤ◌, Result, ok, err,
}
use rayi.Authorization.{MoneyAuthorityCheck, granted, denied, can, has_money_authority}
use rayi.Ledger.SqlState.{Error}
use rayi.Ledger.{
  Tables, Session, PostEntryCommand, campaign_allocated, debit, credit, post_entry, balance_of,
}
use rayi.Ledger.Accounts.{account_for_campaign, org_lot_to_spend}
use rayi.Treasury.{
  Status, pending, processing, completed, failed, FailureReason, wrong_processor, missing_campaign,
  stale_balance, permission_revoked, authority_revoked, ledger_refused, TreasuryCommand, Store,
  campaign_allocate, scope_of, allocate_budget_kind,
}

-- What a worker works on: the tables of the application, and its session with the ledger.
pub record World : Type 0 where
  pub store : Store
  pub ledger : Session

abbrev pub is_pending : Status → Bool
is_pending pending = true
is_pending _ = false

-- `LIVE_STATUSES.includes(status)`
abbrev pub is_live : Status → Bool
is_live pending = true
is_live processing = true
is_live completed = false
is_live failed = false

-- `updateMany({ where: { id, ... }, data })`
abbrev pub update_where :
    (TreasuryCommand → Bool) → (TreasuryCommand → TreasuryCommand) → Store → Store
update_where p f s = record s { commands = map (λ c. if p c then f c else c) s.commands }

-- `fail`
unfoldable pub fail : Identifier → FailureReason → Store → Store
fail command_id reason s =
    update_where (λ c. c.id == command_id && is_pending c.status)
      (λ c. record c { status = failed; failure_reason = some reason }) s

-- The update at the end of `process`.
unfoldable pub complete : Identifier → Identifier → Store → Store
complete command_id entry_id s =
    update_where (λ c. c.id == command_id && is_live c.status)
      (λ c. record c { status = completed; ledger_entry_id = some entry_id; claimed_at = none }) s

abbrev pub authority_error : MoneyAuthorityCheck → Option FailureReason
authority_error (granted limit) = none
authority_error (denied limit reason) = some (authority_revoked reason)

-- `reauthorize`: the error that it throws, if any.
unfoldable pub reauthorize : Store → TreasuryCommand → Option FailureReason
reauthorize s c =
    let scope = scope_of c.organization_id c.workspace_id in
    if not (can s.rights c.actor_user_id campaign_allocate scope)
    then some permission_revoked
    else authority_error
        (has_money_authority s.rights c.actor_user_id campaign_allocate scope (some c.amount_minor))

-- How `process` ends: it returns, or it rethrows an error that it has recorded.
pub data Outcome : Type 0 where
  returned : Outcome
  thrown : FailureReason → Outcome

abbrev pub fail_and_return : TreasuryCommand → FailureReason → World → Outcome × World
fail_and_return c reason w = (returned, record w { store = fail c.id reason w.store })

-- The `catch`: the failure is recorded and the error thrown again.
abbrev pub fail_and_throw : TreasuryCommand → FailureReason → World → Outcome × World
fail_and_throw c reason w = (thrown reason, record w { store = fail c.id reason w.store })

abbrev pub treasury_source : Text
treasury_source = codes "treasury_command"

abbrev pub allocation_entry : TreasuryCommand → Identifier → Identifier → PostEntryCommand
allocation_entry c campaign_account org_lot = record {
  transition = allocate_budget_kind;
  source_type = treasury_source;
  source_id = c.id;
  lines =
      record { account_id = campaign_account; direction = debit; amount_minor = c.amount_minor }
      ∷ record { account_id = org_lot; direction = credit; amount_minor = c.amount_minor }
      ∷ [];
}

abbrev pub settle :
    TreasuryCommand → Store → Result (Option Error) Identifier × Session → Outcome × World
settle c s (ok entry_id, after) =
    (returned, record { store = complete c.id entry_id s; ledger = after })
settle c s (err e, after) =
    fail_and_throw c (ledger_refused e) (record { store = s; ledger = after })

unfoldable pub post_allocation : TreasuryCommand → Identifier → Identifier → World → Outcome × World
post_allocation c campaign_account org_lot w =
    settle c w.store (post_entry (allocation_entry c campaign_account org_lot) w.ledger)

-- `actual !== command.expectedAvailableMinor`
abbrev pub after_check :
    TreasuryCommand → Identifier → Identifier → World → Result Error ℤ → ℤ → Outcome × World
after_check c campaign_account org_lot w (err e) expected =
    fail_and_throw c (ledger_refused (some e)) w
after_check c campaign_account org_lot w (ok actual) expected =
    if actual ==ℤ expected
    then post_allocation c campaign_account org_lot w
    else fail_and_return c (stale_balance expected actual) w

-- The requester's assertion about what was available, when there is one.
unfoldable pub verify_and_post :
    TreasuryCommand → Identifier → Identifier → World → Option ℤ → Outcome × World
unfolding post_allocation
verify_and_post c campaign_account org_lot w none = post_allocation c campaign_account org_lot w
verify_and_post c campaign_account org_lot w (some expected) =
    after_check c campaign_account org_lot w (balance_of w.ledger.db org_lot) expected

abbrev pub with_lot :
    TreasuryCommand → Identifier → World → Result Error Identifier → Outcome × World
with_lot c campaign_account w (err e) = fail_and_throw c (ledger_refused (some e)) w
with_lot c campaign_account w (ok org_lot) =
    verify_and_post c campaign_account org_lot w c.expected_available_minor

abbrev pub with_account :
    TreasuryCommand → World → Result Error (Identifier × Tables) → Outcome × World
with_account c w (err e) = fail_and_throw c (ledger_refused (some e)) w
with_account c w (ok (campaign_account, derived)) =
    with_lot c campaign_account (record w { ledger = record (w.ledger) { db = derived } })
      (org_lot_to_spend derived c.organization_id c.currency)

abbrev pub with_campaign : TreasuryCommand → World → Option Identifier → Outcome × World
with_campaign c w none = fail_and_return c missing_campaign w
with_campaign c w (some campaign) =
    with_account c w
      (account_for_campaign w.store.campaigns w.ledger.db campaign campaign_allocated c.currency)

abbrev pub if_authorized : TreasuryCommand → World → Option FailureReason → Outcome × World
if_authorized c w (some reason) = fail_and_throw c reason w
if_authorized c w none = with_campaign c w c.campaign_id

abbrev pub process_command : World → TreasuryCommand → Outcome × World
process_command w c =
    if not (text_eq c.kind allocate_budget_kind)
    then fail_and_return c (wrong_processor c.kind) w
    else if not (is_live c.status)
    then (returned, w)
    else if_authorized c w (reauthorize w.store c)

abbrev pub process_found : World → Option TreasuryCommand → Outcome × World
process_found w none = (returned, w)
process_found w (some c) = process_command w c

-- `AllocateBudgetProcessor.process`
unfoldable pub process : Identifier → World → Outcome × World
unfolding reauthorize verify_and_post
process command_id w = process_found w (find (λ c. c.id == command_id) w.store.commands)
