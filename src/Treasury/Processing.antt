-- ===== src/Treasury/Processing.antt =====
-- What `AllocateBudgetProcessor.process` does to the ledger and to its command, on every path.
use rayi.Prelude.{
  true, Option, none, some, Identifier, text_eq, find, ◌==◌, if◌then◌else◌, ℤ, ◌==ℤ◌, Result, ok,
  err, ◌≡◌, ◌⊎◌, refl, ap, ◌∙◌, arith, inl, inr, Bool-cases, Option-cases, find-update, find-holds,
  ==_iff,
}
use rayi.Authorization.{MoneyAuthorityCheck, granted, denied, can, has_money_authority}
use rayi.Ledger.SqlState.{Error}
use rayi.Ledger.{Tables, Session, PostEntryCommand, campaign_allocated, post_entry, balance_of}
use rayi.Ledger.Accounts.{account_for_campaign}
use rayi.Treasury.{
  failed, FailureReason, missing_campaign, stale_balance, ledger_refused, TreasuryCommand, Store,
  campaign_allocate, scope_of, allocate_budget_kind,
}
use rayi.Treasury.Processor.{
  World, is_pending, is_live, fail, authority_error, reauthorize, Outcome, thrown, fail_and_return,
  fail_and_throw, allocation_entry, settle, post_allocation, after_check, verify_and_post, with_lot,
  with_account, with_campaign, if_authorized, process_command, process_found, process,
}

-- The session in which the accounts have been derived, or were not reached.
abbrev pub IsDerived : TreasuryCommand → World → Session → Type 0
IsDerived c w s =
    (s ≡ w.ledger)
    ⊎ ((campaign : Identifier) × (a : Identifier) × (account_for_campaign w.store.campaigns
            w.ledger.db campaign campaign_allocated c.currency
          ≡ ok (a, s.db)))

-- How the work on an authorized command ends: it is refused, or its entry is handed to the ledger.
pub data Run (c : TreasuryCommand) (w : World) : Outcome × World → Type 0 where
  throws :
      (reason : FailureReason) (s : Session)
      → IsDerived c w s
      → Run c w (fail_and_throw c reason (record w { ledger = s }))
  returns :
      (reason : FailureReason) (s : Session)
      → IsDerived c w s
      → Run c w (fail_and_return c reason (record w { ledger = s }))
  posts :
      (a lot : Identifier) (s : Session)
      → IsDerived c w s
      → Run c w (settle c w.store (post_entry (allocation_entry c a lot) s))

module _ (c : TreasuryCommand) (w : World) where
  after_check-Run :
      (a lot : Identifier) (s : Session) (r : Result Error ℤ) (expected : ℤ)
      → IsDerived c w s
      → Run c w (after_check c a lot (record w { ledger = s }) r expected)
  unfolding post_allocation
  after_check-Run a lot s (err e) expected d = throws (ledger_refused (some e)) s d
  after_check-Run a lot s (ok actual) expected d = elim (Bool-cases (actual ==ℤ expected)) [
    | inl fresh ↦ rw fresh (posts a lot s d)
    | inr stale ↦ rw stale (returns (stale_balance expected actual) s d)
  ]

  verify_and_post-Run :
      (a lot : Identifier) (s : Session) (o : Option ℤ)
      → IsDerived c w s
      → Run c w (verify_and_post c a lot (record w { ledger = s }) o)
  unfolding verify_and_post post_allocation
  verify_and_post-Run a lot s none d = posts a lot s d
  verify_and_post-Run a lot s (some expected) d =
      after_check-Run a lot s (balance_of s.db lot) expected d

  with_lot-Run :
      (a : Identifier) (s : Session) (lot : Result Error Identifier)
      → IsDerived c w s
      → Run c w (with_lot c a (record w { ledger = s }) lot)
  with_lot-Run a s (err e) d = throws (ledger_refused (some e)) s d
  with_lot-Run a s (ok lot) d = verify_and_post-Run a lot s c.expected_available_minor d

  with_account-Run :
      (campaign : Identifier) (r : Result Error (Identifier × Tables))
      → account_for_campaign w.store.campaigns w.ledger.db campaign campaign_allocated c.currency
        ≡ r
      → Run c w (with_account c w r)
  with_account-Run campaign (err e) h = throws (ledger_refused (some e)) w.ledger (inl refl)
  with_account-Run campaign (ok (a, derived)) h =
      with_lot-Run a (record (w.ledger) { db = derived }) _ (inr (campaign, a, h))

  with_campaign-Run : (o : Option Identifier) → Run c w (with_campaign c w o)
  with_campaign-Run none = returns missing_campaign w.ledger (inl refl)
  with_campaign-Run (some campaign) = with_account-Run campaign _ refl

-- A predicate on the ledger that the derivation of accounts and `postEntry` keep is kept by `process`.
module _ (P : Tables → Type 0)
    (derive : (c : TreasuryCommand) (w : World) (s : Session)
      → IsDerived c w s
      → P w.ledger.db
      → P s.db)
    (post : (cmd : PostEntryCommand) (s : Session) → P s.db → P ((post_entry cmd s).1).db) where
  settle-keeps :
      (c : TreasuryCommand) (s : Store) (out : Result (Option Error) Identifier × Session)
      → P (out.1).db
      → P ((settle c s out).1).ledger.db
  settle-keeps c s (ok e, after) h = h
  settle-keeps c s (err e, after) h = h

  Run-keeps :
      (c : TreasuryCommand) (w : World) (out : Outcome × World)
      → Run c w out
      → P w.ledger.db
      → P (out.1).ledger.db
  Run-keeps c w out (throws reason s d) h = derive c w s d h
  Run-keeps c w out (returns reason s d) h = derive c w s d h
  Run-keeps c w out (posts a lot s d) h =
      settle-keeps c w.store (post_entry (allocation_entry c a lot) s)
        (post (allocation_entry c a lot) s (derive c w s d h))

  if_authorized-keeps :
      (c : TreasuryCommand) (w : World) (o : Option FailureReason)
      → P w.ledger.db
      → P ((if_authorized c w o).1).ledger.db
  if_authorized-keeps c w (some reason) h = h
  if_authorized-keeps c w none h = Run-keeps c w _ (with_campaign-Run c w c.campaign_id) h

  process_command-keeps :
      (w : World) (c : TreasuryCommand) → P w.ledger.db → P ((process_command w c).1).ledger.db
  process_command-keeps w c h = elim (Bool-cases (text_eq c.kind allocate_budget_kind)) [
    | inr foreign ↦ rw foreign h
    | inl mine ↦ elim (Bool-cases (is_live c.status)) [
      | inr over ↦ rw (mine, over) h
      | inl live ↦ rw (mine, live) (if_authorized-keeps c w (reauthorize w.store c) h)
    ]
  ]

  process_found-keeps :
      (w : World) (o : Option TreasuryCommand) → P w.ledger.db → P ((process_found w o).1).ledger.db
  process_found-keeps w none h = h
  process_found-keeps w (some c) h = process_command-keeps w c h

  pub process-keeps :
      (command_id : Identifier) (w : World) → P w.ledger.db → P ((process command_id w).1).ledger.db
  unfolding process
  process-keeps command_id w h =
      process_found-keeps w (find (λ c. c.id == command_id) w.store.commands) h

-- The rights that the worker finds when it executes a command.
abbrev pub IsAuthorized : Store → TreasuryCommand → Type 0
IsAuthorized s c =
    (can s.rights c.actor_user_id campaign_allocate (scope_of c.organization_id c.workspace_id)
      ≡ true)
    × ((limit : Option ℤ) × (has_money_authority s.rights c.actor_user_id campaign_allocate
            (scope_of c.organization_id c.workspace_id) (some c.amount_minor)
          ≡ granted limit))

authority_error-none :
    (m : MoneyAuthorityCheck) → authority_error m ≡ none → (limit : Option ℤ) × (m ≡ granted limit)
authority_error-none (granted limit) h = (limit, refl)
authority_error-none (denied limit reason) h = cc

reauthorize-none : (s : Store) (c : TreasuryCommand) → reauthorize s c ≡ none → IsAuthorized s c
unfolding reauthorize
reauthorize-none s c h =
    elim (Bool-cases (
      can s.rights c.actor_user_id campaign_allocate (scope_of c.organization_id c.workspace_id))) [
        | inl may ↦
            let t : authority_error (
                  has_money_authority s.rights c.actor_user_id campaign_allocate
                    (scope_of c.organization_id c.workspace_id) (some c.amount_minor))
                ≡ none =
              rw may at h in
            (may, authority_error-none _ t)
        | inr not_allowed ↦ ground arith
      ]

if_authorized-ledger :
    (c : TreasuryCommand) (w : World) (o : Option FailureReason)
    → (((if_authorized c w o).1).ledger ≡ w.ledger) ⊎ (o ≡ none)
if_authorized-ledger c w (some reason) = inl refl
if_authorized-ledger c w none = inr refl

-- The worker leaves the ledger alone, unless the command that it was given stands in the table, is an
-- allocation, is neither completed nor failed, and its actor still has the permission and the money
-- authority for its amount when it is executed.
pub process-IsAuthorized :
    (command_id : Identifier) (w : World)
    → (((process command_id w).1).ledger ≡ w.ledger)
      ⊎ ((c : TreasuryCommand) × (find (λ c. c.id == command_id) w.store.commands ≡ some c)
          × (text_eq c.kind allocate_budget_kind ≡ true)
          × (is_live c.status ≡ true)
          × IsAuthorized w.store c)
unfolding process
process-IsAuthorized command_id w =
    elim (Option-cases (find (λ c. c.id == command_id) w.store.commands)) [
      | inl absent ↦ inl (rw absent refl)
      | inr (c, e) ↦ elim (Bool-cases (text_eq c.kind allocate_budget_kind)) [
        | inr foreign ↦ inl (rw (e, foreign) refl)
        | inl mine ↦ elim (Bool-cases (is_live c.status)) [
          | inr over ↦ inl (rw (e, mine, over) refl)
          | inl live ↦ elim (if_authorized-ledger c w (reauthorize w.store c)) [
            | inl kept ↦ inl (rw (e, mine, live) kept)
            | inr allowed ↦ inr (c, e, mine, live, reauthorize-none w.store c allowed)
          ]
        ]
      ]
    ]

-- What `fail` makes of one command.
abbrev pub refused : FailureReason → TreasuryCommand → TreasuryCommand
refused reason c =
    if is_pending c.status then record c { status = failed; failure_reason = some reason } else c

find-fail :
    (command_id : Identifier) (reason : FailureReason) (s : Store) (c : TreasuryCommand)
    → find (λ d. d.id == command_id) s.commands ≡ some c
    → find (λ d. d.id == command_id) (fail command_id reason s).commands ≡ some (refused reason c)
unfolding fail
find-fail command_id reason s c h =
    find-update (λ d. d.id == command_id) (λ d. is_pending d.status)
      (λ d. record d { status = failed; failure_reason = some reason }) (λ d. refl) s.commands c h

settle-throws :
    (c : TreasuryCommand) (s : Store) (out : Result (Option Error) Identifier × Session)
    (reason : FailureReason)
    → (settle c s out).0 ≡ thrown reason
    → ((settle c s out).1).store ≡ fail c.id reason s
settle-throws c s (ok e, after) reason h = cc
settle-throws c s (err e, after) reason h = cc

Run-throws :
    (c : TreasuryCommand) (w : World) (out : Outcome × World) (reason : FailureReason)
    → Run c w out
    → out.0 ≡ thrown reason
    → (out.1).store ≡ fail c.id reason w.store
Run-throws c w out reason (throws r s d) h = cc
Run-throws c w out reason (returns r s d) h = cc
Run-throws c w out reason (posts a lot s d) h =
    settle-throws c w.store (post_entry (allocation_entry c a lot) s) reason h

authorized-throws :
    (c : TreasuryCommand) (w : World) (o : Option FailureReason) (reason : FailureReason)
    → (if_authorized c w o).0 ≡ thrown reason
    → ((if_authorized c w o).1).store ≡ fail c.id reason w.store
authorized-throws c w (some r) reason h = cc
authorized-throws c w none reason h =
    Run-throws c w _ reason (with_campaign-Run c w c.campaign_id) h

command-throws :
    (c : TreasuryCommand) (w : World) (reason : FailureReason)
    → (process_command w c).0 ≡ thrown reason
    → ((process_command w c).1).store ≡ fail c.id reason w.store
command-throws c w reason h = elim (Bool-cases (text_eq c.kind allocate_budget_kind)) [
  | inr foreign ↦ ground arith
  | inl mine ↦ elim (Bool-cases (is_live c.status)) [
    | inr over ↦ ground arith
    | inl live ↦
        rw (mine, live)
          (authorized-throws c w (reauthorize w.store c) reason (rw (mine, live) at h))
  ]
]

-- When `process` throws, a command that was pending is marked failed, with the reason, but a command
-- that a worker had claimed stays as it was, processing and without a reason.
pub process_refusal_recorded :
    (command_id : Identifier) (w : World) (c : TreasuryCommand) (reason : FailureReason)
    → find (λ d. d.id == command_id) w.store.commands ≡ some c
    → (process command_id w).0 ≡ thrown reason
    → find (λ d. d.id == command_id) ((process command_id w).1).store.commands
      ≡ some (refused reason c)
unfolding process
process_refusal_recorded command_id w c reason found h =
    let same : c.id ≡ command_id =
      (==_iff c.id command_id).0 (find-holds (λ d. d.id == command_id) w.store.commands c found) in
    let t : (process_command w c).0 ≡ thrown reason = rw found at h in
    let stored = command-throws c w reason t ∙ ap (λ i. fail i reason w.store) same in
    rw (found, stored) (find-fail command_id reason w.store c found)
