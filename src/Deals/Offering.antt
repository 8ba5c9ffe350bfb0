-- ===== src/Deals/Offering.antt =====
-- What `offer` of apps/backend/src/api/deals/deals.service.ts promises.
use rayi.Prelude.{true, some, ℕ, ◌≡◌, Identifier, Text, any, pos, ltb_ℤ, ok}
use rayi.StepUp as StepUp
use rayi.StepUp.Totp.{Hmac}
use rayi.StepUp.{offer_deal, Attempt}
use rayi.StepUp.Grants.{IsVerified}
use rayi.Workspaces.{Envelopes, try_commit}
use rayi.Deals.{draft, state_eq}
use rayi.Deals.View.{DealView}
use rayi.Deals.World.{World}
use rayi.Deals.Offer.{
  Actor, Meanwhile, OfferInput, advance_minor, offerable, set_offered, attempt, offer_parts,
}

-- The budget is committed for the whole total, and the deal becomes offered.
abbrev pub IsOffered : Meanwhile → Identifier → DealView → ℕ → World → World → Type 0
IsOffered others org view now later after =
    (es : Envelopes) × (try_commit org view.workspace_id view.total_minor now later.envelopes
      ≡ ok (true, es))
    × (any (offerable org view.deal_id)
          (others.after_commit (record later { envelopes = es })).deals
        ≡ true)
    × (after ≡ record (others.after_commit (record later { envelopes = es })) {
      deals =
          set_offered org view.deal_id
            (others.after_commit (record later { envelopes = es })).deals;
    })

-- What has been checked before an offer is committed: the deal is a draft, the client acknowledged the
-- advance that the deal has, and a positive one was confirmed by a right code for just this amount.
abbrev pub IsAgreed :
    Hmac
    → (Text → Text)
    → (Identifier → Text)
    → Identifier
    → DealView
    → OfferInput
    → Actor
    → ℕ
    → World
    → Type 0
IsAgreed hmac sha256_hex id_text org view input actor now w =
    (state_eq view.state draft ≡ true)
    × (input.acknowledged_advance_minor ≡ advance_minor (pos 0) view.milestones)
    × (ltb_ℤ (pos 0) (advance_minor (pos 0) view.milestones) ≡ true
        → (code : Text) × (input.code ≡ some code)
          × IsVerified hmac
              (attempt sha256_hex offer_deal
                (offer_parts id_text org view.deal_id (advance_minor (pos 0) view.milestones)) actor
                code)
              now w.step_up)
