-- ===== src/Ledger.antt =====
-- apps/backend/src/ledger/infrastructure/ledger.repository.ts and the functions of the schema `ledger`
-- that it calls (apps/backend/prisma/migrations/20260918120000_ledger_core,
-- 20260918140000_ledger_account_derivation, 20260918150000_post_entry_concurrent_idempotency). A
-- statement that raises an error leaves the ledger as it was: the transaction is rolled back.
pub mod Tests
pub mod SqlState
pub mod Retry
pub mod Accounts
pub mod Balances
pub mod Books
pub mod Posting
pub mod Sources
pub mod Freshness
use rayi.Prelude.{
  Bool, true, false, not, ◌&&◌, ◌||◌, Option, none, some, List, [], ◌∷◌, ◌++◌, map, ℕ, suc,
  Identifier, Text, codes, text_eq, select, find, any, ◌==◌, ltb, leb, if◌then◌else◌, length, ℤ,
  pos, negsuc, ◌+ℤ◌, ◌-ℤ◌, ◌==ℤ◌, leb_ℤ, add_up, sum_ℤ, Result, ok, err, ◌>>=◌, ◌>>◌, throw_if,
  set_of,
}
use rayi.Prelude.Sorting.{sort}
use rayi.Ledger.SqlState.{
  Error, LedgerErrorCode, unbalanced, no_such_account, sql_error, ledger_error,
}
use rayi.Ledger.Retry.{with_retry}

pub data Direction : Type 0 where
  debit credit : Direction

-- The roles of accounts that the treasury derives, and any other.
pub data AccountRole : Type 0 where
  org_lot_available campaign_allocated : AccountRole
  other_role : Text → AccountRole

pub record Account : Type 0 where
  pub id : Identifier
  pub role : AccountRole
  pub currency : Text
  pub normal_balance : Direction
  pub org_id : Option Identifier
  pub campaign_id : Option Identifier

-- `EntryLineInput`; the amount is meant to be positive, the direction carries the sign.
pub record EntryLineInput : Type 0 where
  pub account_id : Identifier
  pub direction : Direction
  pub amount_minor : ℤ

-- A row of `ledger.entry_line`.
pub record EntryLine : Type 0 where
  pub account_id : Identifier
  pub normal_balance : Direction
  pub direction : Direction
  pub amount_minor : ℤ

pub record Entry : Type 0 where
  pub id : Identifier
  pub transition : Text
  pub source_type : Text
  pub source_id : Identifier
  pub lines : List EntryLine

pub record AccountBalance : Type 0 where
  pub account_id : Identifier
  pub allow_negative : Bool
  pub balance_minor : ℤ

-- The tables of the schema `ledger`, and the identifier that the next row gets.
pub record Tables : Type 0 where
  pub accounts : List Account
  pub balances : List AccountBalance
  pub entries : List Entry
  pub next_id : Identifier

pub record PostEntryCommand : Type 0 where
  pub transition : Text
  pub source_type : Text
  pub source_id : Identifier
  pub lines : List EntryLineInput

abbrev pub same_direction : Direction → Direction → Bool
same_direction debit debit = true
same_direction credit credit = true
same_direction _ _ = false

-- The generated columns `signed_minor` and `natural_minor`.
abbrev pub signed : Direction → ℤ → ℤ
signed debit amount = amount
signed credit amount = pos 0 -ℤ amount

abbrev pub signed_minor : EntryLine → ℤ
signed_minor l = signed l.direction l.amount_minor

abbrev pub natural_minor : EntryLine → ℤ
natural_minor l =
    if same_direction l.direction l.normal_balance then l.amount_minor else pos 0 -ℤ l.amount_minor

-- `INSERT INTO ledger.entry_line ... JOIN ledger.account`: a line of an unknown account is left out.
abbrev pub stored_line : EntryLineInput → Option Account → List EntryLine
stored_line l none = []
stored_line l (some a) =
    record {
      account_id = a.id;
      normal_balance = a.normal_balance;
      direction = l.direction;
      amount_minor = l.amount_minor;
    }
    ∷ []

unfoldable pub join_accounts : List Account → List EntryLineInput → List EntryLine
join_accounts accounts [] = []
join_accounts accounts (l ∷ ls) =
    stored_line l (find (λ a. a.id == l.account_id) accounts) ++ join_accounts accounts ls

-- `SUM(natural_minor)` of the lines of one account.
abbrev pub natural_total : Identifier → List EntryLine → ℤ
natural_total a ls = sum_ℤ (map natural_minor (select (λ l. l.account_id == a) ls))

-- `UPDATE ledger.account_balance`, with the check `account_balance_non_negative`.
unfoldable pub move_balance :
    Identifier → ℤ → List AccountBalance → Result Error (List AccountBalance)
move_balance a delta [] = err (sql_error "23503")
move_balance a delta (b ∷ bs) =
    let rest = move_balance a delta bs in
    let balance = b.balance_minor +ℤ delta in
    if b.account_id == a
    then (if b.allow_negative || leb_ℤ (pos 0) balance
        then ok (record b { balance_minor = balance } ∷ bs)
        else err (sql_error "23514"))
    else (rest >>= λ moved. ok (b ∷ moved))

-- The loop over the accounts of an entry.
unfoldable pub move_balances :
    List EntryLine → List Identifier → List AccountBalance → Result Error (List AccountBalance)
move_balances ls [] bs = ok bs
move_balances ls (a ∷ ids) bs = move_balance a (natural_total a ls) bs >>= move_balances ls ids

-- The accounts of the lines, `GROUP BY account_id ORDER BY account_id`.
unfoldable pub accounts_of : List EntryLine → List Identifier
accounts_of ls = sort leb (set_of (map (λ l. l.account_id) ls))

abbrev pub same_source : Text → Identifier → Entry → Bool
same_source kind source e = text_eq e.source_type kind && e.source_id == source

-- The rest of `ledger.post_entry`, for a source that has no entry yet. The last check is the deferred
-- trigger `assert_entry_balanced`.
unfoldable pub insert_entry : Tables → PostEntryCommand → Result Error (Identifier × Tables)
unfolding join_accounts accounts_of move_balances
insert_entry db cmd =
    let ls = join_accounts db.accounts cmd.lines in
    let entry : Entry = record {
      id = db.next_id;
      transition = cmd.transition;
      source_type = cmd.source_type;
      source_id = cmd.source_id;
      lines = ls;
    } in
    throw_if (any (λ l. leb_ℤ l.amount_minor (pos 0)) ls) (sql_error "23514")
    >> (throw_if (not (length ls == length cmd.lines)) (sql_error "23503")
        >> (move_balances ls (accounts_of ls) db.balances >>= λ moved.
            (throw_if (ltb (length ls) 2 || not (sum_ℤ (map signed_minor ls) ==ℤ pos 0))
                (sql_error "23514")
              >> ok (
                db.next_id,
                record db {
                  balances = moved;
                  entries = entry ∷ db.entries;
                  next_id = suc db.next_id;
                },
              ))))

abbrev pub existing_or_new :
    Tables → PostEntryCommand → Option Entry → Result Error (Identifier × Tables)
existing_or_new db cmd (some e) = ok (e.id, db)
existing_or_new db cmd none = insert_entry db cmd

-- The function `ledger.post_entry` of the database.
unfoldable pub sql_post_entry : Tables → PostEntryCommand → Result Error (Identifier × Tables)
unfolding insert_entry
sql_post_entry db cmd =
    throw_if (ltb (length cmd.lines) 2) (sql_error "23514")
    >> existing_or_new db cmd (find (same_source cmd.source_type cmd.source_id) db.entries)

-- What a worker reaches: the tables, and the errors that its next calls meet before they run (a lost
-- serialization, a deadlock, a dead connection).
pub record Session : Type 0 where
  pub db : Tables
  pub failures : List Error

abbrev pub settle_call :
    List Error → Tables → Result Error (Identifier × Tables) → Result Error Identifier × Session
settle_call es db (ok (n, after)) = (ok n, record { db = after; failures = es })
settle_call es db (err e) = (err e, record { db = db; failures = es })

abbrev pub call_with : PostEntryCommand → Tables → List Error → Result Error Identifier × Session
call_with cmd db [] = settle_call [] db (sql_post_entry db cmd)
call_with cmd db (e ∷ es) = (err e, record { db = db; failures = es })

-- One attempt at `SELECT ledger.post_entry(...)`.
abbrev pub call_post_entry : PostEntryCommand → Session → Result Error Identifier × Session
call_post_entry cmd s = call_with cmd s.db s.failures

-- `LedgerRepository.postEntry`
unfoldable pub post_entry : PostEntryCommand → Session → Result (Option Error) Identifier × Session
unfolding sql_post_entry
post_entry cmd s =
    let signed_total = add_up (pos 0) (map (λ l. signed l.direction l.amount_minor) cmd.lines) in
    if ltb (length cmd.lines) 2
    then (err (some (ledger_error unbalanced)), s)
    else if not (signed_total ==ℤ pos 0)
    then (err (some (ledger_error unbalanced)), s)
    else with_retry (call_post_entry cmd) 5 s

-- `LedgerRepository.balanceOf`
abbrev pub balance_row : Option AccountBalance → Result Error ℤ
balance_row none = err (ledger_error no_such_account)
balance_row (some b) = ok b.balance_minor

unfoldable pub balance_of : Tables → Identifier → Result Error ℤ
balance_of db a = balance_row (find (λ b. b.account_id == a) db.balances)

-- `LedgerRepository.findUnbalancedEntries`
unfoldable pub find_unbalanced_entries : Tables → List Identifier
find_unbalanced_entries db =
    map (λ e. e.id) (select (λ e. not (sum_ℤ (map signed_minor e.lines) ==ℤ pos 0)) db.entries)
