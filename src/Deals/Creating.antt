-- ===== src/Deals/Creating.antt =====
-- What `create` of apps/backend/src/api/deals/deals.service.ts promises.
use rayi.Prelude.{true, false, Option, ◌∷◌, map, ℕ, ◌≡◌, Identifier, Text, any, ℤ, sum_ℤ, ok}
use rayi.Deals.{milestones}
use rayi.Deals.Preview.{DealDraft, DealPreview, preview}
use rayi.Deals.World.{Campaign, Creator, World}
use rayi.Deals.Create.{NewIds, new_deal, all_positive, in_campaign}

module _ (parse_date : Text → Option ℤ) (disclosure : Identifier)
    (preview_id : ℕ → Identifier) where
  -- What was created: rows of a preview without problems, whose milestones have positive amounts that sum
  -- to the total, beside the deals that are there when they are written, none of which is one with this
  -- creator in this campaign.
  abbrev pub IsCreated :
      (World → World) → Identifier → NewIds → DealDraft → ℕ → World → World → Type 0
  IsCreated meanwhile org ids input now w after =
      (p : DealPreview) × (campaign : Campaign) × (creator : Creator) × (preview parse_date
          disclosure preview_id input now
        ≡ ok p)
      × (after.deals ≡ new_deal org ids campaign creator input p now ∷ (meanwhile w).deals)
      × (any (in_campaign input.campaign_id creator.id) (meanwhile w).deals ≡ false)
      × (all_positive p.milestones ≡ true)
      × (sum_ℤ
            (map (λ m. m.amount_minor) (milestones (new_deal org ids campaign creator input p now)))
          ≡ input.total_minor)
