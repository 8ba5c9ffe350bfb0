-- ===== src/Deals.antt =====
-- apps/backend/src/api/deals/deals.service.ts: deals, from the brand's side. A row stands with the rows
-- that the queries select through its relations; `findMany` sorts, and a list here is in that order.
pub mod View
pub mod Preview
pub mod Balance
pub mod Offering
pub mod Advance
pub mod Failing
pub mod Ending
pub mod Creating
pub mod World
pub mod Create
pub mod Offer
mod Tests
use rayi.Prelude.{
  Bool, true, false, not, ◌&&◌, ◌||◌, Option, none, some, List, [], ◌∷◌, ◌++◌, map, ℕ, suc,
  Identifier, Text, codes, text_eq, is_some, ◌==◌, if◌then◌else◌, length, select, find, ℤ, pos,
  ◌+ℤ◌, add_up, Result, ok, err,
}
use rayi.Money.Decimal.{bigint_to_text}
use rayi.Deal.Conditions.{
  MilestoneCondition, DealFacts, Reason, evaluate_condition, is_satisfiable_at_start,
}

-- The states of a deal and of a deliverable, which CHECK constraints close.
pub data DealState : Type 0 where
  draft offered accepted active completed cancelled terminated : DealState

pub data DeliverableState : Type 0 where
  pending submitted in_review changes_requested approved withdrawn : DeliverableState

pub record Deliverable : Type 0 where
  pub id : Identifier
  pub sequence : ℕ
  pub brief : Option Text
  pub state : DeliverableState
  pub version : ℕ
  pub due_at : Option ℕ

pub record Milestone : Type 0 where
  pub id : Identifier
  pub sequence : ℕ
  pub title : Text
  pub amount_minor : ℤ
  pub authored_basis_points : Option ℤ
  pub condition : MilestoneCondition
  pub released_at : Option ℕ

pub record Agreement : Type 0 where
  pub version : ℕ
  pub total_amount_minor : ℤ
  pub created_at : ℕ
  pub creator_accepted_at : Option ℕ
  pub superseded_at : Option ℕ
  pub milestones : List Milestone

-- A row of `deal`, with its campaign, its creator, its deliverables by sequence and its agreements, the
-- latest version first.
pub record Deal : Type 0 where
  pub id : Identifier
  pub organization_id : Identifier
  pub campaign_id : Identifier
  pub creator_user_id : Identifier
  pub total_amount_minor : ℤ
  pub currency : Text
  pub state : DealState
  pub accepted_at : Option ℕ
  pub cancelled_at : Option ℕ
  pub created_at : ℕ
  pub campaign_name : Text
  pub workspace_id : Identifier
  pub creator_username : Text
  pub deliverables : List Deliverable
  pub agreements : List Agreement

abbrev pub state_eq : DealState → DealState → Bool
state_eq draft draft = true
state_eq offered offered = true
state_eq accepted accepted = true
state_eq active active = true
state_eq completed completed = true
state_eq cancelled cancelled = true
state_eq terminated terminated = true
state_eq a b = false

-- `COMMITTED_STATES.includes(state)`
abbrev pub is_committed : DealState → Bool
is_committed draft = false
is_committed offered = true
is_committed accepted = true
is_committed active = true
is_committed completed = false
is_committed cancelled = false
is_committed terminated = false

abbrev pub is_approved : DeliverableState → Bool
is_approved pending = false
is_approved submitted = false
is_approved in_review = false
is_approved changes_requested = false
is_approved approved = true
is_approved withdrawn = false

-- The agreement that is not superseded, and its milestones; none, no milestones.
abbrev pub live_of : List Agreement → Option Agreement
live_of agreements = find (λ a. not (is_some a.superseded_at)) agreements

abbrev pub milestones_of : Option Agreement → List Milestone
milestones_of none = []
milestones_of (some a) = a.milestones

abbrev pub milestones : Deal → List Milestone
milestones deal = milestones_of (live_of deal.agreements)

-- The `reduce` of `releasedMinor`.
unfoldable pub released_minor_of : ℤ → List Milestone → ℤ
released_minor_of sum [] = sum
released_minor_of sum (m ∷ ms) =
    released_minor_of (if is_some m.released_at then sum +ℤ m.amount_minor else sum) ms

-- `list`
pub record Filters : Type 0 where
  pub campaign_id : Option Identifier
  pub state : Option DealState
  pub creator_id : Option Identifier

abbrev pub any_or : Option Identifier → Identifier → Bool
any_or none i = true
any_or (some j) i = i == j

abbrev pub any_state_or : Option DealState → DealState → Bool
any_state_or none s = true
any_state_or (some t) s = state_eq s t

abbrev pub listed : Identifier → Filters → Deal → Bool
listed org filters deal =
    deal.organization_id == org
    && (any_or filters.campaign_id deal.campaign_id
        && (any_state_or filters.state deal.state
            && any_or filters.creator_id deal.creator_user_id))

pub record DealRow : Type 0 where
  pub deal_id : Identifier
  pub campaign_id : Identifier
  pub campaign_name : Text
  pub creator_id : Identifier
  pub creator_handle : Text
  pub state : DealState
  pub total_minor : ℤ
  pub currency : Text
  pub released_minor : ℤ
  pub deliverables_total : ℕ
  pub deliverables_approved : ℕ
  pub created_at : ℕ
  pub accepted_at : Option ℕ

unfoldable pub deal_row : Deal → DealRow
unfolding released_minor_of
deal_row deal = record {
  deal_id = deal.id;
  campaign_id = deal.campaign_id;
  campaign_name = deal.campaign_name;
  creator_id = deal.creator_user_id;
  creator_handle = b'@' ∷ deal.creator_username;
  state = deal.state;
  total_minor = deal.total_amount_minor;
  currency = deal.currency;
  released_minor = released_minor_of (pos 0) (milestones deal);
  deliverables_total = length deal.deliverables;
  deliverables_approved = length (select (λ d. is_approved d.state) deal.deliverables);
  created_at = deal.created_at;
  accepted_at = deal.accepted_at;
}

pub record DealList : Type 0 where
  pub deals : List DealRow
  pub currency : Text
  pub committed_minor : ℤ
  pub released_minor : ℤ

-- `rows[0]?.currency ?? 'USD'`
abbrev pub first_currency : List DealRow → Text
first_currency [] = codes "USD"
first_currency (r ∷ rows) = r.currency

-- The `reduce` of `committedMinor`.
unfoldable pub committed_minor_of : ℤ → List DealRow → ℤ
committed_minor_of sum [] = sum
committed_minor_of sum (r ∷ rows) =
    committed_minor_of (if is_committed r.state then sum +ℤ r.total_minor else sum) rows

unfoldable pub list : Identifier → Filters → List Deal → DealList
unfolding deal_row committed_minor_of
list org filters deals =
    let rows = map deal_row (select (listed org filters) deals) in
    record {
      deals = rows;
      currency = first_currency rows;
      committed_minor = committed_minor_of (pos 0) rows;
      released_minor = add_up (pos 0) (map (λ r. r.released_minor) rows);
    }
