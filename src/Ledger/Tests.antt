-- ===== src/Ledger/Tests.antt =====
-- Runs of the ledger at concrete inputs.
use rayi.Prelude.{
  ◌≡◌, refl, true, false, none, some, [], ◌∷◌, codes, Identifier, arith, pos, negsuc, ◌+ℤ◌, ◌-ℤ◌,
  set_of, ok, add_up,
}
use rayi.Prelude.Sorting.{sort, insert}
use rayi.Ledger.SqlState.{Error, sql_error, sql_state_of, state_of_causes, embedded_state}
use rayi.Ledger.Retry.{with_retry, attempts_from, is_retryable, HasRun, with_retry-HasRun}
use rayi.Ledger.{
  debit, credit, org_lot_available, campaign_allocated, Entry, Tables, PostEntryCommand, Session,
  join_accounts, move_balance, move_balances, accounts_of, insert_entry, sql_post_entry,
  call_post_entry, post_entry, balance_of,
}
use rayi.Ledger.Accounts.{Campaign, account_for_campaign}
use rayi.Ledger.Books.{IsSound, sql_post_entry-IsSound}
use rayi.Ledger.Posting.{post_entry-IsSound, post_entry_once, post_entry_survives}

-- An organization's lot, overdrawable so that it can be opened empty, and a campaign's account.
abbrev pub before : Tables
before = record {
  accounts =
      record {
        id = 1;
        role = org_lot_available;
        currency = codes "USD";
        normal_balance = debit;
        org_id = some 9;
        campaign_id = none;
      }
      ∷ record {
        id = 2;
        role = campaign_allocated;
        currency = codes "USD";
        normal_balance = debit;
        org_id = some 9;
        campaign_id = some 5;
      }
      ∷ [];
  balances =
      record { account_id = 1; allow_negative = true; balance_minor = pos 0 }
      ∷ record { account_id = 2; allow_negative = false; balance_minor = pos 0 }
      ∷ [];
  entries = [];
  next_id = 3;
}

abbrev allocation : PostEntryCommand
allocation = record {
  transition = codes "ALLOCATE_BUDGET";
  source_type = codes "treasury_command";
  source_id = 40;
  lines =
      record { account_id = 2; direction = debit; amount_minor = pos 70 }
      ∷ record { account_id = 1; direction = credit; amount_minor = pos 70 }
      ∷ [];
}

pub before-IsSound : IsSound before
before-IsSound = (tt, (refl, (refl, tt)), λ c. ground arith)

abbrev busy : Session
busy = record { db = before; failures = sql_error "40P01" ∷ sql_error "40001" ∷ [] }

abbrev first_entry : Entry
first_entry = record {
  id = 3;
  transition = codes "ALLOCATE_BUDGET";
  source_type = codes "treasury_command";
  source_id = 40;
  lines =
      record { account_id = 2; normal_balance = debit; direction = debit; amount_minor = pos 70 }
      ∷ record { account_id = 1; normal_balance = debit; direction = credit; amount_minor = pos 70 }
      ∷ [];
}

abbrev after_first : Tables
after_first = record before {
  balances =
      record { account_id = 1; allow_negative = true; balance_minor = negsuc 69 }
      ∷ record { account_id = 2; allow_negative = false; balance_minor = pos 70 }
      ∷ [];
  entries = first_entry ∷ [];
  next_id = 4;
}

allocation_posts : sql_post_entry before allocation ≡ ok (3, after_first)
unfolding sql_post_entry insert_entry join_accounts accounts_of move_balance move_balances sort
    insert set_of ◌+ℤ◌ ◌-ℤ◌
allocation_posts = refl

after_first-IsSound : IsSound after_first
after_first-IsSound =
    sql_post_entry-IsSound before allocation 3 after_first allocation_posts before-IsSound

second_balance : balance_of after_first 2 ≡ ok (pos 70)
unfolding balance_of
second_balance = refl

post_entry-IsSound_example : IsSound ((post_entry allocation busy).1).db
post_entry-IsSound_example = post_entry-IsSound allocation busy before-IsSound

abbrev idle : Session
idle = record { db = after_first; failures = [] }

busy_posts : post_entry allocation busy ≡ (ok 3, idle)
unfolding post_entry with_retry attempts_from is_retryable sql_state_of state_of_causes
    embedded_state sql_post_entry insert_entry join_accounts accounts_of move_balance move_balances
    sort insert set_of ◌+ℤ◌ ◌-ℤ◌
busy_posts = refl

post_entry_once_example :
    (((post_entry allocation idle).1).db ≡ after_first)
    × ((m : Identifier) → (post_entry allocation idle).0 ≡ ok m → m ≡ 3)
post_entry_once_example = post_entry_once allocation busy idle idle 3 busy_posts refl

allocation_even : add_up (pos 0) (pos 70 ∷ (pos 0 -ℤ pos 70) ∷ []) ≡ pos 0
unfolding ◌+ℤ◌ ◌-ℤ◌
allocation_even = refl

transient : (is_retryable (sql_error "40P01") ≡ true) × (is_retryable (sql_error "40001") ≡ true)
unfolding is_retryable sql_state_of state_of_causes embedded_state
transient = (refl, refl)

post_entry_survives_example : (post_entry allocation busy).0 ≡ ok 3
post_entry_survives_example =
    post_entry_survives allocation busy after_first 3 allocation_even allocation_posts
      (transient.0, (transient.1, tt)) (omega arith)

with_retry-HasRun_example :
    HasRun (call_post_entry allocation) 5 busy (with_retry (call_post_entry allocation) 5 busy)
with_retry-HasRun_example = with_retry-HasRun (call_post_entry allocation) 5 busy (omega arith)

-- Prisma's own code stands before the code of the database.
abbrev wrapped : Error
wrapped = record {
  causes = record { code = some (codes "P2010"); meta_code = some (codes "40001") } ∷ [];
  message = [];
}

wrapped_state : sql_state_of wrapped ≡ some (codes "P2010")
unfolding sql_state_of state_of_causes embedded_state
wrapped_state = refl

abbrev campaign : Campaign
campaign = record {
  id = 5;
  organization_id = 9;
  workspace_id = 6;
  currency = codes "USD";
  state = codes "active";
}

abbrev with_account : Tables
with_account = record before {
  accounts =
      record {
        id = 3;
        role = campaign_allocated;
        currency = codes "EUR";
        normal_balance = debit;
        org_id = some 9;
        campaign_id = some 5;
      }
      ∷ before.accounts;
  balances =
      record { account_id = 3; allow_negative = false; balance_minor = pos 0 } ∷ before.balances;
  next_id = 4;
}

account_made :
    account_for_campaign (campaign ∷ []) before 5 campaign_allocated (codes "EUR")
    ≡ ok (3, with_account)
unfolding account_for_campaign
account_made = refl
