-- ===== src/Lib.antt =====
-- Rayi moves brands' money to creators: an organization funds a balance, allocates budget to campaigns,
-- agrees deals with creators in milestones, and releases a milestone when its condition holds. This
-- library models the code that decides about money, and proves what makes it correct. Paths are from
-- the root of the repository.
--
-- The parts and how they interact:
-- * packages/domain/src/money (Money/): exact amounts in minor units, and the split that loses no unit.
--   Currency.antt is currency.ts; Amount.antt is the class `Money` and `sumMoney` of money.ts, with its
--   wire form (Decimal.antt for the digits); Allocate.antt is `Money.allocate`.
-- * packages/domain/src/deal (Deal/): Conditions.antt is `evaluateCondition` and
--   `isSatisfiableAtStart` of conditions.ts; Evaluate.antt is `evaluateDeal`, and Amounts.antt
--   `resolveMilestoneAmounts`, of evaluate.ts. The latter splits with `Money.allocate`.
-- * apps/backend/src/authorization/permission.service.ts (Authorization): the permissions that roles
--   give, and the authority to move money. The tables are lists of rows.
-- * apps/backend/src/ledger (Ledger/): double-entry bookkeeping. Ledger.antt is
--   `LedgerRepository.postEntry`, `balanceOf` and `findUnbalancedEntries` of
--   infrastructure/ledger.repository.ts, and the SQL function `ledger.post_entry` with the constraints
--   of its tables (apps/backend/prisma/migrations); Accounts.antt is `accountForCampaign` and
--   `orgLotToSpend`; Retry.antt is infrastructure/retry.ts; SqlState.antt is
--   apps/backend/src/database/sqlstate.ts. Balances, Books, Posting, Sources and
--   Freshness are proofs.
-- * apps/backend/src/treasury (Treasury/): Treasury.antt is `AllocateBudgetUseCase.execute`, which
--   checks a request and writes a command; Queue.antt is the listener, which claims commands and hands
--   them on; Processor.antt is `AllocateBudgetProcessor.process`, which checks again and posts to the
--   ledger. Request, Processing and Delivery are proofs.
-- * apps/backend/src/guards/permission.guard.ts (Guard): the guard of every route, which asks
--   Authorization what a user could ever do; Guard/Admission.antt relates it to the use case behind it.
-- * apps/backend/src/auth/step-up (StepUp/): the second factor in front of an action. Totp.antt is totp.ts,
--   the codes and the base32 of secrets; StepUp.antt is step-up.service.ts: `mint`, `consume`, `has`,
--   `resourceHash` and the limit on wrong codes. Grants, Account, Guesses, Binding and Base32 are proofs.
-- * apps/backend/src/api/workspaces/workspaces.service.ts (Workspaces/): the budget of a workspace.
--   Workspaces.antt is `tryCommit`, `release` and `setEnvelope` on the table with its constraints; the
--   last is confirmed by StepUp. Rows, Commit, Calls, History and Approval are proofs.
-- * apps/backend/src/api/deals/deals.service.ts (Deals/): deals from the brand's side. Deals.antt is `list`,
--   View.antt `get`, Preview.antt `preview`, Create.antt `create`, Offer.antt `offer` and `terminate`. They
--   use Deal for amounts and conditions, StepUp to confirm and Workspaces to commit. Balance, Advance,
--   Creating, Offering, Failing and Ending are proofs.
-- * apps/backend/src/api/deals/review.service.ts (Reviews/): Reviews.antt is `approve`, `undoApproval` and
--   `requestChanges`, which ask Deal what an approval makes due and Authorization who may release it.
--   Authority, Approvals and Undo are proofs.
-- Prelude/ is shared: lists and numbers, integers, results, JavaScript's strings, stable sorting, sets.
--
-- Amounts (bigint) are unbounded integers; identifiers are natural numbers, since the program only
-- compares them; times are milliseconds. A thrown error is the `err` of a result, a row update is a
-- function from tables to tables, and an SQL statement that raises an error changes nothing. A lost
-- serialization, a deadlock or a dead connection is a list of errors that the next attempts meet.
-- Loops are structural recursion. `withRetry` recurs on the number of attempts that are left, 5 for
-- `postEntry`; the digits of a number are made on fuel one above the number; the walk along the causes
-- of an error has the depth 10 that the program gives it. How a host reads a date string is a parameter.
--
-- Where a service reads in one statement and writes in a later one, what other requests do in between is a
-- parameter, a function on the state; one clock reading serves a call. The hashes of node:crypto and the
-- text of an identifier are parameters. The inner loop of `encodeBase32` is on as much fuel as there are
-- bits, since each round takes five.
--
-- Not modelled: the range of the database's bigint, balance snapshots, log lines, delays, timers and
-- notifications (they say only when a step is made), the text of error messages; the services of
-- payouts, creators, webhooks and members, sign-in, the console, the contracts and the generated client.
pub mod Authorization
pub mod Deal
pub mod Deals
pub mod Guard
pub mod Ledger
pub mod Money
pub mod Prelude
pub mod Reviews
pub mod StepUp
pub mod Treasury
pub mod Workspaces
