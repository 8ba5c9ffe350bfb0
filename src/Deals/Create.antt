-- ===== src/Deals/Create.antt =====
-- `create` of apps/backend/src/api/deals/deals.service.ts, but for the record in the audit log.
use rayi.Prelude.{
  Bool, true, not, ◌&&◌, Option, none, some, List, [], ◌∷◌, ℕ, suc, Identifier, Text, text_eq, ◌==◌,
  if◌then◌else◌, find, any, ℤ, pos, ltb_ℤ, Result, ok, err,
}
use rayi.Money.Currency.{currency_code}
use rayi.Money.Amount.{MoneyError}
use rayi.Deals.{Deal, draft, Deliverable, pending, Milestone}
use rayi.Deals.View.{DealView, get}
use rayi.Deals.Preview.{
  DeliverableDraft, DealDraft, MilestonePreview, DealPreview, Problem, preview,
}
use rayi.Deals.World.{
  Campaign, Creator, World, Violation, total_positive, amount_positive, one_deal_per_creator,
  DealsError, not_found, no_creator, already_has_deal, bad_request, thrown, violation, Outcome,
}

-- The identifiers that the database gives to the new rows.
pub record NewIds : Type 0 where
  pub deal : Identifier
  pub milestone : ℕ → Identifier
  pub deliverable : ℕ → Identifier

-- `handle.replace(/^@/, '')`
abbrev pub without_at : Text → Text
without_at [] = []
without_at (c ∷ s) = if c == b'@' then s else c ∷ s

-- The rows of `milestone.createMany`, numbered from `index` on.
abbrev pub milestone_rows : (ℕ → Identifier) → ℕ → List MilestonePreview → List Milestone
milestone_rows ids index [] = []
milestone_rows ids index (m ∷ ms) =
    (record {
      id = ids index;
      sequence = index;
      title = m.title;
      amount_minor = m.amount_minor;
      authored_basis_points = m.percentage_bps;
      condition = m.condition;
      released_at = none;
    })
    ∷ milestone_rows ids (suc index) ms

-- The rows of `deliverable.createMany`, which count from 1.
abbrev pub deliverable_rows : (ℕ → Identifier) → ℕ → List DeliverableDraft → List Deliverable
deliverable_rows ids index [] = []
deliverable_rows ids index (d ∷ ds) =
    (record {
      id = ids index;
      sequence = suc index;
      brief = d.brief;
      state = pending;
      version = 0;
      due_at = d.due_at;
    })
    ∷ deliverable_rows ids (suc index) ds

-- The rows that the transaction inserts.
unfoldable pub new_deal :
    Identifier → NewIds → Campaign → Creator → DealDraft → DealPreview → ℕ → Deal
new_deal org ids campaign creator input p now = record {
  id = ids.deal;
  organization_id = org;
  campaign_id = input.campaign_id;
  creator_user_id = creator.id;
  total_amount_minor = input.total_minor;
  currency = currency_code p.currency;
  state = draft;
  accepted_at = none;
  cancelled_at = none;
  created_at = now;
  campaign_name = campaign.name;
  workspace_id = campaign.workspace_id;
  creator_username = creator.username;
  deliverables = deliverable_rows ids.deliverable 0 input.deliverables;
  agreements =
      (record {
        version = 1;
        total_amount_minor = input.total_minor;
        created_at = now;
        creator_accepted_at = none;
        superseded_at = none;
        milestones = milestone_rows ids.milestone 0 p.milestones;
      })
      ∷ [];
}

abbrev pub all_positive : List MilestonePreview → Bool
all_positive [] = true
all_positive (m ∷ ms) = ltb_ℤ (pos 0) m.amount_minor && all_positive ms

-- `UNIQUE("campaignId", "creatorUserId")`, and the test of `existing`.
abbrev pub in_campaign : Identifier → Identifier → Deal → Bool
in_campaign campaign creator d = d.campaign_id == campaign && d.creator_user_id == creator

-- The constraints in the order in which the inserts meet them.
unfoldable pub insert_deal : Deal → List MilestonePreview → List Deal → Result Violation (List Deal)
insert_deal deal ms deals =
    if not (ltb_ℤ (pos 0) deal.total_amount_minor)
    then err total_positive
    else if any (in_campaign deal.campaign_id deal.creator_user_id) deals
    then err one_deal_per_creator
    else if not (all_positive ms)
    then err amount_positive
    else ok (deal ∷ deals)

abbrev pub found_or : Option DealView → DealsError → Result DealsError DealView
found_or none e = err e
found_or (some view) e = ok view

module _ (parse_date : Text → Option ℤ) (disclosure : Identifier)
    (preview_id : ℕ → Identifier) where
  abbrev pub inserted :
      Identifier → Identifier → ℕ → World → Result Violation (List Deal) → Outcome DealView
  inserted org deal now w (err v) = (err (violation v), w)
  inserted org deal now w (ok deals) = (
    found_or (get parse_date disclosure org deal now deals) not_found,
    record w { deals = deals },
  )

  -- From the creator on. `meanwhile` is what other requests do before the transaction.
  abbrev pub create_for :
      (World → World)
      → Identifier
      → NewIds
      → Campaign
      → DealDraft
      → DealPreview
      → ℕ
      → World
      → Option Creator
      → Outcome DealView
  create_for meanwhile org ids campaign input p now w none = (err no_creator, w)
  create_for meanwhile org ids campaign input p now w (some creator) =
      let later = meanwhile w in
      let row = new_deal org ids campaign creator input p now in
      if any (in_campaign input.campaign_id creator.id) w.deals
      then (err already_has_deal, w)
      else inserted org ids.deal now later (insert_deal row p.milestones later.deals)

  abbrev pub create_from :
      (World → World)
      → Identifier
      → NewIds
      → Campaign
      → DealDraft
      → ℕ
      → World
      → Result MoneyError DealPreview
      → List Problem
      → Outcome DealView
  create_from meanwhile org ids campaign input now w (err e) problems = (err (thrown e), w)
  create_from meanwhile org ids campaign input now w (ok p) (problem ∷ problems) =
      (err (bad_request (problem ∷ problems)), w)
  create_from meanwhile org ids campaign input now w (ok p) [] =
      create_for meanwhile org ids campaign input p now w
        (find (λ u. text_eq u.username (without_at input.creator_handle)) w.users)

  abbrev pub problems_of : Result MoneyError DealPreview → List Problem
  problems_of (err e) = []
  problems_of (ok p) = p.problems

  abbrev pub create_in :
      (World → World)
      → Identifier
      → NewIds
      → DealDraft
      → ℕ
      → World
      → Option Campaign
      → Outcome DealView
  create_in meanwhile org ids input now w none = (err not_found, w)
  create_in meanwhile org ids input now w (some campaign) =
      let p = preview parse_date disclosure preview_id input now in
      create_from meanwhile org ids campaign input now w p (problems_of p)

  -- `create`
  unfoldable pub create :
      (World → World) → Identifier → NewIds → DealDraft → ℕ → World → Outcome DealView
  unfolding preview get insert_deal new_deal
  create meanwhile org ids input now w =
      create_in meanwhile org ids input now w
        (find (λ c. c.id == input.campaign_id && c.organization_id == org) w.campaigns)
