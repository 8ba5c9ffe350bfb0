-- ===== src/Deals/Ending.antt =====
-- What `terminate` of apps/backend/src/api/deals/deals.service.ts promises, and that the reads agree.
use rayi.Prelude.{
  true, Option, List, [], ◌∷◌, map, ℕ, ◌≡◌, refl, sym, Identifier, Text, if◌then◌else◌, any,
  is_some, ℤ, pos, ◌+ℤ◌, ◌-ℤ◌, ok, length-map,
}
use rayi.StepUp as StepUp
use rayi.StepUp.{Attempt}
use rayi.Workspaces.{release}
use rayi.Deals.{Deal, Milestone, Deliverable, milestones, released_minor_of, deal_row}
use rayi.Deals.View.{DealView, milestone_view, released_of, deal_view}
use rayi.Deals.World.{World}
use rayi.Deals.Offer.{Meanwhile, running, set_terminated}

-- What is left after a deal was ended: it is terminated, if it was running when it was written, and what
-- had not been released of it is given back to its workspace.
abbrev pub IsEnded : Meanwhile → Identifier → DealView → ℕ → World → World → Type 0
IsEnded others org view now later after =
    (any (running org view.deal_id) later.deals ≡ true)
    × ((ended : World) × (ended
          ≡ others.after_commit
              (record later { deals = set_terminated org view.deal_id now later.deals }))
        × (release org view.workspace_id (view.total_minor -ℤ view.released_minor) ended.envelopes
            ≡ ok after.envelopes)
        × (after.deals ≡ ended.deals))

module _ (parse_date : Text → Option ℤ) (disclosure : Identifier) where
  released_of-views :
      (sum : ℤ) (ds : List Deliverable) (now : ℕ) (ms : List Milestone)
      → released_of sum (map (milestone_view parse_date disclosure ds now) ms)
        ≡ released_minor_of sum ms
  unfolding released_of released_minor_of milestone_view
  released_of-views sum ds now [] = refl
  released_of-views sum ds now (m ∷ ms) =
      released_of-views (if is_some m.released_at then sum +ℤ m.amount_minor else sum) ds now ms

  -- The list of deals and the page of a deal show the same released amount and the same progress, at
  -- whatever times they are read.
  pub deal_row-deal_view :
      (deal : Deal) (now : ℕ)
      → ((deal_row deal).released_minor ≡ (deal_view parse_date disclosure deal now).released_minor)
        × ((deal_row deal).deliverables_approved
            ≡ (deal_view parse_date disclosure deal now).deliverables_approved)
        × ((deal_row deal).deliverables_total
            ≡ (deal_view parse_date disclosure deal now).deliverables_total)
  unfolding deal_row deal_view
  deal_row-deal_view deal now = (
    sym (released_of-views (pos 0) deal.deliverables now (milestones deal)),
    sym (length-map _ _),
    refl,
  )
