-- ===== src/Workspaces.antt =====
-- apps/backend/src/api/workspaces/workspaces.service.ts: the budget of a workspace, which caps what its
-- deals may promise. The table `budget_envelope` is a list of rows; a statement that violates a CHECK of
-- apps/backend/prisma/migrations/20260918220000_workspace_budget_and_payouts changes nothing.
pub mod Rows
pub mod Commit
pub mod Calls
pub mod History
pub mod Approval
mod Tests
use rayi.Prelude.{
  Bool, true, false, not, ◌&&◌, ◌||◌, Option, none, some, List, [], ◌∷◌, ℕ, Identifier, Text, codes,
  ◌==◌, ltb, if◌then◌else◌, find, any, ℤ, pos, ◌+ℤ◌, ◌-ℤ◌, ltb_ℤ, leb_ℤ, Result, ok, err,
}
use rayi.Money.Decimal.{bigint_to_text}
use rayi.StepUp.Totp.{Hmac}
use rayi.StepUp.{
  Store, StepUpError, Outcome, Attempt, Part, approve_budget, resource_hash_of, confirm,
}

-- A row of `budget_envelope`; its key is the workspace.
pub record BudgetEnvelope : Type 0 where
  pub workspace_id : Identifier
  pub organization_id : Identifier
  pub ceiling_minor : ℤ
  pub committed_minor : ℤ
  pub currency : Text
  pub expires_at : Option ℕ
  pub approved_by_member_id : Option Identifier
  pub approved_at : ℕ

abbrev pub Envelopes : Type 0
Envelopes = List BudgetEnvelope

-- The CHECK constraints of the table.
pub data Check : Type 0 where
  non_negative within_ceiling : Check

-- What the constraints say of a row; PostgreSQL tests them in the order of their names.
abbrev pub check_row : BudgetEnvelope → Result Check BudgetEnvelope
check_row e =
    if not (leb_ℤ (pos 0) e.ceiling_minor && leb_ℤ (pos 0) e.committed_minor)
    then err non_negative
    else if ltb_ℤ e.ceiling_minor e.committed_minor
    then err within_ceiling
    else ok e

abbrev then_rows : Result Check BudgetEnvelope → Result Check Envelopes → Result Check Envelopes
then_rows (err c) rows = err c
then_rows (ok e) (err c) = err c
then_rows (ok e) (ok es) = ok (e ∷ es)

-- `updateMany`: the rows after it.
unfoldable pub update_many :
    (BudgetEnvelope → Bool) → (BudgetEnvelope → BudgetEnvelope) → Envelopes → Result Check Envelopes
update_many holds change [] = ok []
update_many holds change (e ∷ es) =
    let rest = update_many holds change es in
    if holds e then then_rows (check_row (change e)) rest else then_rows (ok e) rest

-- `{ workspaceId, organizationId }`
abbrev pub is_of : Identifier → Identifier → BudgetEnvelope → Bool
is_of org workspace e = e.workspace_id == workspace && e.organization_id == org

abbrev pub unexpired : Option ℕ → ℕ → Bool
unexpired none now = true
unexpired (some at) now = ltb now at

-- The row that `tryCommit` updates.
abbrev pub open_for : Identifier → Identifier → ℕ → BudgetEnvelope → Bool
open_for org workspace now e = is_of org workspace e && unexpired e.expires_at now

abbrev pub increment : ℤ → BudgetEnvelope → BudgetEnvelope
increment amount e = record e { committed_minor = e.committed_minor +ℤ amount }

abbrev pub decrement : ℤ → BudgetEnvelope → BudgetEnvelope
decrement amount e = record e { committed_minor = e.committed_minor -ℤ amount }

-- The answer of `tryCommit` to what its statement does: only the ceiling's constraint is an answer.
abbrev pub committed : Bool → Envelopes → Result Check Envelopes → Result Check (Bool × Envelopes)
committed found before (ok after) = ok (found, after)
committed found before (err non_negative) = err non_negative
committed found before (err within_ceiling) = ok (false, before)

-- `tryCommit`
unfoldable pub try_commit :
    Identifier → Identifier → ℤ → ℕ → Envelopes → Result Check (Bool × Envelopes)
unfolding update_many
try_commit org workspace amount now es =
    if leb_ℤ amount (pos 0)
    then ok (true, es)
    else committed (any (open_for org workspace now) es) es
        (update_many (open_for org workspace now) (increment amount) es)

abbrev pub holds_back : Identifier → Identifier → ℤ → BudgetEnvelope → Bool
holds_back org workspace amount e = is_of org workspace e && leb_ℤ amount e.committed_minor

-- `release`
unfoldable pub release : Identifier → Identifier → ℤ → Envelopes → Result Check Envelopes
unfolding update_many
release org workspace amount es =
    if leb_ℤ amount (pos 0)
    then ok es
    else update_many (holds_back org workspace amount) (decrement amount) es

pub record EnvelopeView : Type 0 where
  pub ceiling_minor : ℤ
  pub committed_minor : ℤ
  pub remaining_minor : ℤ
  pub currency : Text
  pub expires_at : Option ℕ
  pub approved_by_email : Option Text
  pub approved_at : ℕ

-- `toEnvelopeView` of an envelope that is there.
unfoldable pub to_envelope_view : BudgetEnvelope → Option Text → EnvelopeView
to_envelope_view e email = record {
  ceiling_minor = e.ceiling_minor;
  committed_minor = e.committed_minor;
  remaining_minor =
      if ltb_ℤ e.committed_minor e.ceiling_minor
      then e.ceiling_minor -ℤ e.committed_minor
      else pos 0;
  currency = e.currency;
  expires_at = e.expires_at;
  approved_by_email = email;
  approved_at = e.approved_at;
}

-- A row of `workspace`, and one of `member` with the e-mail address of its user.
pub record Workspace : Type 0 where
  pub id : Identifier
  pub organization_id : Identifier

pub record Approver : Type 0 where
  pub id : Identifier
  pub organization_id : Identifier
  pub user_id : Identifier
  pub email : Text

pub record Tables : Type 0 where
  pub workspaces : List Workspace
  pub members : List Approver
  pub envelopes : Envelopes
  pub step_up : Store

-- The exceptions of `setEnvelope`; a CHECK of the database passes through.
pub data BudgetError : Type 0 where
  not_found below_committed : BudgetError
  unconfirmed : StepUpError → BudgetError
  violation : Check → BudgetError

-- What the client sends, with what the request and the database make of it.
pub record NewCeiling : Type 0 where
  pub ceiling_minor : ℤ
  pub currency : Text
  pub expires_at : Option ℕ
  pub code : Text

abbrev pub committed_minor_of : Option BudgetEnvelope → ℤ
committed_minor_of none = pos 0
committed_minor_of (some e) = e.committed_minor

abbrev pub id_of : Option Approver → Option Identifier
id_of none = none
id_of (some m) = some m.id

abbrev pub email_of : Option Approver → Option Text
email_of none = none
email_of (some m) = some m.email

abbrev pub keyed : Identifier → BudgetEnvelope → Bool
keyed workspace e = e.workspace_id == workspace

-- The `create` and the `update` of the upsert.
abbrev pub created : Identifier → Identifier → NewCeiling → Option Identifier → ℕ → BudgetEnvelope
created org workspace input member now = record {
  workspace_id = workspace;
  organization_id = org;
  ceiling_minor = input.ceiling_minor;
  committed_minor = pos 0;
  currency = input.currency;
  expires_at = input.expires_at;
  approved_by_member_id = member;
  approved_at = now;
}

abbrev pub reapproved : NewCeiling → Option Identifier → ℕ → BudgetEnvelope → BudgetEnvelope
reapproved input member now e = record e {
  ceiling_minor = input.ceiling_minor;
  currency = input.currency;
  expires_at = input.expires_at;
  approved_by_member_id = member;
  approved_at = now;
}

-- The row that an upsert writes: the checked one.
abbrev pub upsert_row :
    Identifier
    → Identifier
    → NewCeiling
    → Option Identifier
    → ℕ
    → Option BudgetEnvelope
    → Result Check BudgetEnvelope
upsert_row org workspace input member now none = check_row (created org workspace input member now)
upsert_row org workspace input member now (some e) = check_row (reapproved input member now e)

-- The rows of the table with a row of that key written.
abbrev pub put_row : BudgetEnvelope → Envelopes → Envelopes
put_row row [] = row ∷ []
put_row row (e ∷ es) = if keyed row.workspace_id e then row ∷ es else e ∷ put_row row es

abbrev pub written :
    Option Text → Tables → Result Check BudgetEnvelope → Result BudgetError EnvelopeView × Tables
written email db (err c) = (err (violation c), db)
written email db (ok row) =
    (ok (to_envelope_view row email), record db { envelopes = put_row row db.envelopes })

-- What `ApproveBudget` is bound to. An identifier is its text, a parameter.
abbrev pub budget_parts : (Identifier → Text) → Identifier → Identifier → ℤ → List Part
budget_parts id_text org workspace ceiling =
    (codes "workspaceId", id_text workspace)
    ∷ (codes "organizationId", id_text org)
    ∷ (codes "ceilingMinor", bigint_to_text ceiling)
    ∷ []

module _ (hmac : Hmac) (sha256_hex : Text → Text) (id_text : Identifier → Text) where
  abbrev pub approval :
      Identifier → Identifier → NewCeiling → Identifier → Identifier → Bool → Attempt
  approval org workspace input actor grant_id recorded = record {
    confirmation = record {
      user_id = actor;
      purpose = approve_budget;
      resource_hash =
          some
            (resource_hash_of sha256_hex (budget_parts id_text org workspace input.ceiling_minor));
    };
    code = input.code;
    grant_id = grant_id;
    recorded = recorded;
  }

  -- From the answer of the confirmation on; `meanwhile` is what other requests do to the table after
  -- this one read it.
  abbrev pub approve :
      (Envelopes → Envelopes)
      → Identifier
      → Identifier
      → NewCeiling
      → Identifier
      → ℕ
      → Tables
      → Outcome (Unit {0})
      → Result BudgetError EnvelopeView × Tables
  approve meanwhile org workspace input actor now db (err e, step_up) =
      (err (unconfirmed e), record db { step_up = step_up })
  approve meanwhile org workspace input actor now db (ok done, step_up) =
      let member = find (λ m. m.organization_id == org && m.user_id == actor) db.members in
      let later = record db { step_up = step_up; envelopes = meanwhile db.envelopes } in
      if ltb_ℤ input.ceiling_minor (committed_minor_of (find (keyed workspace) db.envelopes))
      then (err below_committed, record db { step_up = step_up })
      else written (email_of member) later (
          upsert_row org workspace input (id_of member) now
            (find (keyed workspace) later.envelopes))

  -- `setEnvelope`, but for the record in the audit log.
  unfoldable pub set_envelope :
      (Envelopes → Envelopes)
      → Identifier
      → Identifier
      → NewCeiling
      → Identifier
      → Identifier
      → Bool
      → ℕ
      → Tables
      → Result BudgetError EnvelopeView × Tables
  unfolding to_envelope_view
  set_envelope meanwhile org workspace input actor grant_id recorded now db =
      if any (λ w. w.id == workspace && w.organization_id == org) db.workspaces
      then approve meanwhile org workspace input actor now db
          (confirm hmac (approval org workspace input actor grant_id recorded) now db.step_up)
      else (err not_found, db)
