-- ===== src/Deals/View.antt =====
-- `get` of apps/backend/src/api/deals/deals.service.ts: a deal as the brand's screen and the operations
-- read it. How a host reads a date string is the parameter of Deal/Conditions.
use rayi.Prelude.{
  Bool, ◌&&◌, Option, none, some, List, [], ◌∷◌, ◌++◌, map, ℕ, Identifier, Text, codes, is_some,
  ◌==◌, if◌then◌else◌, length, select, find, ℤ, pos, ◌+ℤ◌,
}
use rayi.Money.Decimal.{bigint_to_text}
use rayi.Deal.Conditions.{MilestoneCondition, Reason, evaluate_condition, is_satisfiable_at_start}
use rayi.Deals.{
  Deal, DealState, Deliverable, DeliverableState, Milestone, Agreement, is_approved, milestones,
}

pub record MilestoneView : Type 0 where
  pub milestone_id : Identifier
  pub title : Text
  pub amount_minor : ℤ
  pub percentage_bps : Option ℤ
  pub condition : MilestoneCondition
  pub satisfied : Bool
  pub reason : Reason
  pub released_at : Option ℕ
  pub satisfiable_at_start : Bool

pub record DeliverableView : Type 0 where
  pub deliverable_id : Identifier
  pub slot : Text
  pub brief : Option Text
  pub state : DeliverableState
  pub latest_version : ℕ
  pub due_at : Option ℕ

pub record AgreementView : Type 0 where
  pub version : ℕ
  pub created_at : ℕ
  pub accepted_at : Option ℕ
  pub total_minor : ℤ

pub record DealView : Type 0 where
  pub deal_id : Identifier
  pub campaign_id : Identifier
  pub campaign_name : Text
  pub workspace_id : Identifier
  pub creator_id : Identifier
  pub creator_handle : Text
  pub state : DealState
  pub total_minor : ℤ
  pub currency : Text
  pub released_minor : ℤ
  pub deliverables_total : ℕ
  pub deliverables_approved : ℕ
  pub created_at : ℕ
  pub accepted_at : Option ℕ
  pub milestones : List MilestoneView
  pub deliverables : List DeliverableView
  pub agreement_versions : List AgreementView

-- The `reduce` of `releasedMinor`.
unfoldable pub released_of : ℤ → List MilestoneView → ℤ
released_of sum [] = sum
released_of sum (m ∷ ms) =
    released_of (if is_some m.released_at then sum +ℤ m.amount_minor else sum) ms

abbrev pub deliverable_view : ℕ → Deliverable → DeliverableView
deliverable_view total d = record {
  deliverable_id = d.id;
  slot =
      codes "Video "
      ++ bigint_to_text (pos d.sequence)
      ++ codes " of "
      ++ bigint_to_text (pos total);
  brief = d.brief;
  state = d.state;
  latest_version = d.version;
  due_at = d.due_at;
}

abbrev pub agreement_view : Agreement → AgreementView
agreement_view a = record {
  version = a.version;
  created_at = a.created_at;
  accepted_at = a.creator_accepted_at;
  total_minor = a.total_amount_minor;
}

-- `approvedIds`; the identifiers of rows are distinct.
abbrev pub approved_ids : List Deliverable → List Identifier
approved_ids ds = map (λ d. d.id) (select (λ d. is_approved d.state) ds)

-- `findFirst({ where: { id, organizationId } })`
abbrev pub find_deal : Identifier → Identifier → List Deal → Option Deal
find_deal org deal deals = find (λ d. d.id == deal && d.organization_id == org) deals

module _ (parse_date : Text → Option ℤ) (disclosure : Identifier) where
  unfoldable pub milestone_view : List Deliverable → ℕ → Milestone → MilestoneView
  milestone_view deliverables now m =
      let verdict = evaluate_condition parse_date m.condition m.id (record {
        approved_deliverable_ids = approved_ids deliverables;
        total_deliverables = length deliverables;
        manually_approved_milestone_ids = [];
        now = pos now;
      }) in
      record {
        milestone_id = m.id;
        title = m.title;
        amount_minor = m.amount_minor;
        percentage_bps = m.authored_basis_points;
        condition = m.condition;
        satisfied = verdict.satisfied;
        reason = verdict.reason;
        released_at = m.released_at;
        satisfiable_at_start = is_satisfiable_at_start parse_date disclosure m.condition (pos now);
      }

  unfoldable pub deal_view : Deal → ℕ → DealView
  unfolding released_of milestone_view
  deal_view deal now =
      let views = map (milestone_view deal.deliverables now) (milestones deal) in
      record {
        deal_id = deal.id;
        campaign_id = deal.campaign_id;
        campaign_name = deal.campaign_name;
        workspace_id = deal.workspace_id;
        creator_id = deal.creator_user_id;
        creator_handle = b'@' ∷ deal.creator_username;
        state = deal.state;
        total_minor = deal.total_amount_minor;
        currency = deal.currency;
        released_minor = released_of (pos 0) views;
        deliverables_total = length deal.deliverables;
        deliverables_approved = length (approved_ids deal.deliverables);
        created_at = deal.created_at;
        accepted_at = deal.accepted_at;
        milestones = views;
        deliverables = map (deliverable_view (length deal.deliverables)) deal.deliverables;
        agreement_versions = map agreement_view deal.agreements;
      }

  abbrev view_at : ℕ → Option Deal → Option DealView
  view_at now none = none
  view_at now (some deal) = some (deal_view deal now)

  -- `get`; none is `NotFoundException`.
  unfoldable pub get : Identifier → Identifier → ℕ → List Deal → Option DealView
  unfolding deal_view
  get org deal now deals = view_at now (find_deal org deal deals)
