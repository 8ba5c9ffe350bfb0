-- ===== src/Reviews.antt =====
-- apps/backend/src/api/deals/review.service.ts: reviewing a submission. Tables are lists of rows; an operation
-- reads the tables, and writes them in one transaction after what other requests do meanwhile.
pub mod Undo
pub mod Approvals
pub mod Authority
mod Tests
use rayi.Prelude.{
  Bool, true, false, not, ◌&&◌, Option, none, some, List, [], ◌∷◌, map, ℕ, suc, ◌-◌, Identifier,
  has, Text, codes, is_some, ◌==◌, ltb, if◌then◌else◌, length, select, find, any, ℤ, pos, ◌+ℤ◌,
  add_up, Result, ok, err, ◌>>=◌, ◌>>◌, throw_if,
}
use rayi.Authorization as Authorization
use rayi.Authorization.{PermissionScope, MoneyAuthorityCheck, can, has_money_authority}
use rayi.Deal.Conditions.{DealFacts}
use rayi.Deal.Evaluate.{MilestoneInput, MilestoneVerdict, evaluate_deal}
use rayi.Deals.{DeliverableState, in_review, changes_requested, approved, withdrawn, is_approved}

abbrev pub undo_window_ms : ℕ
undo_window_ms = 30_000

pub data Decision : Type 0 where
  approval changes rejection : Decision

pub data ActorKind : Type 0 where
  human system_auto : ActorKind

pub record Review : Type 0 where
  pub id : Identifier
  pub submission_id : Identifier
  pub deliverable_id : Identifier
  pub decision : Decision
  pub actor_kind : ActorKind
  pub actor_user_id : Option Identifier
  pub created_at : ℕ
  pub voided_at : Option ℕ
  pub voided_by : Option Identifier

pub record Submission : Type 0 where
  pub id : Identifier
  pub deliverable_id : Identifier

pub record Deliverable : Type 0 where
  pub id : Identifier
  pub deal_id : Identifier
  pub state : DeliverableState
  pub version : ℕ
  pub approved_at : Option ℕ

-- A milestone, and whether its agreement is accepted by the creator and not superseded.
pub record MilestoneRow : Type 0 where
  pub deal_id : Identifier
  pub in_force : Bool
  pub milestone : MilestoneInput

pub record DealOrg : Type 0 where
  pub id : Identifier
  pub organization_id : Identifier

pub record Tables : Type 0 where
  pub rights : Authorization.Tables
  pub deals : List DealOrg
  pub milestones : List MilestoneRow
  pub submissions : List Submission
  pub deliverables : List Deliverable
  pub reviews : List Review

-- The exceptions, and the violated constraint `deliverable_approved_at_matches_state`.
pub data ReviewError : Type 0 where
  no_submission no_approval not_found not_authorised already_approved was_cancelled acted_on
        too_late already_undone check_violation :
      ReviewError

abbrev pub is_withdrawn : DeliverableState → Bool
is_withdrawn withdrawn = true
is_withdrawn s = false

abbrev pub is_approval : Decision → Bool
is_approval approval = true
is_approval changes = false
is_approval rejection = false

abbrev pub deal_in : Identifier → Identifier → Tables → Bool
deal_in org deal db = any (λ d. d.id == deal && d.organization_id == org) db.deals

abbrev pub in_org : Identifier → Tables → Option Deliverable → Option Deliverable
in_org org db none = none
in_org org db (some d) = if deal_in org d.deal_id db then some d else none

abbrev pub deliverable_of : Tables → Option Submission → Option Deliverable
deliverable_of db none = none
deliverable_of db (some s) = find (λ d. d.id == s.deliverable_id) db.deliverables

-- `loadSubmission`: the deliverable of a submission of the organization.
abbrev pub load_submission : Identifier → Identifier → Tables → Option Deliverable
load_submission submission org db =
    in_org org db (deliverable_of db (find (λ s. s.id == submission) db.submissions))

-- `dealFacts`
unfoldable pub deal_facts : Identifier → ℕ → Tables → DealFacts
deal_facts deal now db =
    let rows = select (λ d. d.deal_id == deal && not (is_withdrawn d.state)) db.deliverables in
    record {
      approved_deliverable_ids = map (λ d. d.id) (select (λ d. is_approved d.state) rows);
      total_deliverables = length rows;
      manually_approved_milestone_ids = [];
      now = pos now;
    }

-- `milestonesOf`
abbrev pub milestones_of : Identifier → Tables → List MilestoneInput
milestones_of deal db =
    map (λ m. m.milestone) (select (λ m. m.deal_id == deal && m.in_force) db.milestones)

abbrev pub with_member : Identifier → List Identifier → List Identifier
with_member i ids = if has ids i then ids else i ∷ ids

-- What `assertMayApprove` does with the answer of `hasMoneyAuthority`.
abbrev pub granted_only : MoneyAuthorityCheck → Result ReviewError (Unit {0})
granted_only (MoneyAuthorityCheck.granted limit) = ok tt
granted_only (MoneyAuthorityCheck.denied limit reason) = err not_authorised

abbrev pub org_scope : Identifier → PermissionScope
org_scope org = record { organization_id = org; workspace_id = none }

-- `assertMayApprove`
unfoldable pub assert_may_approve :
    Tables → Identifier → Identifier → Bool → ℤ → Result ReviewError (Unit {0})
assert_may_approve db actor org moves_money amount =
    throw_if (not (can db.rights actor (codes "deliverable:review") (org_scope org))) not_found
    >> (if moves_money
        then granted_only (
            has_money_authority db.rights actor (codes "deliverable:release") (org_scope org)
              (some amount))
        else ok tt)

-- The transaction of `approve`: the partial unique index, and the guard on the version that was read.
abbrev pub is_live_approval : Identifier → Review → Bool
is_live_approval deliverable r =
    r.deliverable_id == deliverable && (is_approval r.decision && not (is_some r.voided_at))

abbrev pub as_read : Deliverable → Deliverable → Bool
as_read read d = d.id == read.id && d.version == read.version

abbrev pub approved_row : Bool → ℕ → Deliverable → Deliverable
approved_row false now d = d
approved_row true now d = record d {
  state = approved;
  approved_at = some now;
  version = suc d.version;
}

abbrev pub approve_row : Deliverable → ℕ → Deliverable → Deliverable
approve_row read now d = approved_row (as_read read d) now d

abbrev pub set_approved : Deliverable → ℕ → List Deliverable → List Deliverable
set_approved read now ds = map (approve_row read now) ds

unfoldable pub write_approval : Deliverable → Review → ℕ → Tables → Result ReviewError Tables
write_approval read review now db =
    throw_if (any (is_live_approval read.id) db.reviews) already_approved
    >> (throw_if (not (any (as_read read) db.deliverables)) acted_on
        >> ok (record db {
          reviews = review ∷ db.reviews;
          deliverables = set_approved read now db.deliverables;
        }))

abbrev pub author_of : ActorKind → Identifier → Option Identifier
author_of human actor = some actor
author_of system_auto actor = none

abbrev pub new_review :
    Identifier → Identifier → Identifier → Decision → ActorKind → Identifier → ℕ → Review
new_review id submission deliverable decision kind actor now = record {
  id = id;
  submission_id = submission;
  deliverable_id = deliverable;
  decision = decision;
  actor_kind = kind;
  actor_user_id = author_of kind actor;
  created_at = now;
  voided_at = none;
  voided_by = none;
}

-- `undoApproval`
abbrev pub voided_row : Bool → Identifier → ℕ → Review → Review
voided_row false actor now r = r
voided_row true actor now r = record r { voided_at = some now; voided_by = some actor }

abbrev pub unvoided : Identifier → Review → Bool
unvoided review r = r.id == review && not (is_some r.voided_at)

abbrev pub void_review : Identifier → Identifier → ℕ → Review → Review
void_review review actor now r = voided_row (unvoided review r) actor now r

abbrev pub reopened_row : Bool → Deliverable → Deliverable
reopened_row false d = d
reopened_row true d = record d { state = in_review; approved_at = none; version = suc d.version }

abbrev pub back_in_review : Identifier → Deliverable → Deliverable
back_in_review deliverable d = reopened_row (d.id == deliverable) d

unfoldable pub write_undo : Review → Identifier → ℕ → Tables → Result ReviewError Tables
write_undo review actor now db =
    throw_if (not (any (unvoided review.id) db.reviews)) already_undone
    >> ok (record db {
      reviews = map (void_review review.id actor now) db.reviews;
      deliverables = map (back_in_review review.deliverable_id) db.deliverables;
    })

abbrev pub review_org : Identifier → Tables → Review → Bool
review_org org db r = is_some (in_org org db (find (λ d. d.id == r.deliverable_id) db.deliverables))

abbrev pub found_or : {A : Type 0} → Option A → ReviewError → Result ReviewError A
found_or none e = err e
found_or (some a) e = ok a

unfoldable pub undo_approval :
    (Tables → Tables)
    → Identifier
    → Identifier
    → Identifier
    → ℕ
    → Tables
    → Result ReviewError Tables
undo_approval meanwhile review org actor now db =
    found_or
      (find
        (λ r.
          r.id == review
          && ((is_approval r.decision && not (is_some r.voided_at)) && review_org org db r))
        db.reviews)
      no_approval
    >>= λ r.
        throw_if (ltb undo_window_ms (now - r.created_at)) too_late
        >> write_undo r actor now (meanwhile db)

-- `requestChanges`; a row that is approved keeps `approvedAt`, which the constraint forbids.
abbrev pub changed_row : Bool → Deliverable → Deliverable
changed_row false d = d
changed_row true d = record d { state = changes_requested; version = suc d.version }

abbrev pub change_row : Deliverable → Deliverable → Deliverable
change_row read d = changed_row (as_read read d) d

abbrev pub set_changes : Deliverable → List Deliverable → List Deliverable
set_changes read ds = map (change_row read) ds

unfoldable pub write_changes : Deliverable → Review → Tables → Result ReviewError Tables
write_changes read review db =
    throw_if (any (λ d. as_read read d && is_some d.approved_at) db.deliverables) check_violation
    >> ok (record db {
      reviews = review ∷ db.reviews;
      deliverables = set_changes read db.deliverables;
    })

unfoldable pub request_changes :
    (Tables → Tables)
    → Identifier
    → Identifier
    → Identifier
    → Identifier
    → ℕ
    → Tables
    → Result ReviewError Tables
request_changes meanwhile id submission org actor now db =
    found_or (load_submission submission org db) no_submission >>= λ d.
    throw_if (not (can db.rights actor (codes "deliverable:review") (org_scope org))) not_found
    >> write_changes d (new_review id submission d.id changes human actor now) (meanwhile db)

module _ (parse_date : Text → Option ℤ) where
  -- `wouldSatisfyMilestones`: what the approval of a deliverable makes due.
  unfoldable pub would_satisfy : Identifier → Identifier → ℕ → Tables → List MilestoneVerdict
  would_satisfy deal deliverable now db =
      let before = deal_facts deal now db in
      let milestones = milestones_of deal db in
      let after = record before {
        approved_deliverable_ids = with_member deliverable before.approved_deliverable_ids;
      } in
      let due = map (λ v. v.milestone_id) (evaluate_deal parse_date milestones before).to_release in
      select (λ v. not (has due v.milestone_id))
        (evaluate_deal parse_date milestones after).to_release

  unfoldable pub total_of : List MilestoneVerdict → ℤ
  total_of vs = add_up (pos 0) (map (λ v. v.amount_minor) vs)

  abbrev pub is_nil : List MilestoneVerdict → Bool
  is_nil [] = true
  is_nil (v ∷ vs) = false

  abbrev pub check_actor :
      ActorKind
      → Tables
      → Identifier
      → Identifier
      → List MilestoneVerdict
      → Result ReviewError (Unit {0})
  check_actor human db actor org due =
      assert_may_approve db actor org (not (is_nil due)) (total_of due)
  check_actor system_auto db actor org due = ok tt

  -- `approve`; the answer is what it makes due, and the tables after it.
  unfoldable pub approve :
      (Tables → Tables)
      → Identifier
      → Identifier
      → Identifier
      → Identifier
      → ActorKind
      → ℕ
      → Tables
      → Result ReviewError (List MilestoneVerdict × Tables)
  unfolding total_of
  approve meanwhile id submission org actor kind now db =
      found_or (load_submission submission org db) no_submission >>= λ d.
      throw_if (is_approved d.state) already_approved
      >> (throw_if (is_withdrawn d.state) was_cancelled
          >> (check_actor kind db actor org (would_satisfy d.deal_id d.id now db)
              >> (write_approval d (new_review id submission d.id approval kind actor now) now
                    (meanwhile db)
                  >>= λ after. ok (would_satisfy d.deal_id d.id now db, after))))
