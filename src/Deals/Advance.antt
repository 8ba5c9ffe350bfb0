-- ===== src/Deals/Advance.antt =====
-- The advance that a draft discloses is the advance that its offer asks to be acknowledged.
use rayi.Prelude.{
  Option, List, [], ◌∷◌, map, ℕ, suc, ◌≡◌, refl, inl, inr, Identifier, Text, Bool-cases, ℤ, pos,
  ◌+ℤ◌, sym, length, ok, >>=-eq-ok,
}
use rayi.Money.Amount.{string, assert_currency}
use rayi.Money.Allocate.Count.{ok-injective}
use rayi.Deal.Amounts.{AmountMap}
use rayi.Deal.Conditions.{is_satisfiable_at_start}
use rayi.Deals.{Deliverable}
use rayi.Deals.View.{milestone_view, deal_view}
use rayi.Deals.Preview.{
  MilestoneDraft, DealDraft, DealPreview, milestone_preview, previews_from, or_authored, amount_at,
  authored_of, resolve_draft, preview_of, advance_of, preview,
}
use rayi.Deals.World.{Campaign, Creator}
use rayi.Deals.Create.{NewIds, milestone_rows, deliverable_rows, new_deal}
use rayi.Deals.Offer.{advance_minor}

module _ (parse_date : Text → Option ℤ) (disclosure : Identifier)
    (preview_id : ℕ → Identifier) where
  rows-advance :
      (ids : ℕ → Identifier) (ds : List Deliverable) (count now : ℕ) (resolved : AmountMap)
      (sum : ℤ) (i j : ℕ) (ms : List MilestoneDraft)
      → advance_minor sum (
          map (milestone_view parse_date disclosure ds now) (
            milestone_rows ids j
              (previews_from parse_date disclosure preview_id count now resolved i ms)))
        ≡ advance_of sum (previews_from parse_date disclosure preview_id count now resolved i ms)
  unfolding advance_minor advance_of milestone_view milestone_preview
  rows-advance ids ds count now resolved sum i j [] = refl
  rows-advance ids ds count now resolved sum i j (m ∷ ms) =
      elim (Bool-cases (is_satisfiable_at_start parse_date disclosure m.condition (pos now))) [
        | inl at_start ↦ rw at_start (
            rows-advance ids ds count now resolved
              (sum +ℤ or_authored (amount_at i resolved) m.amount_minor) (suc i) (suc j) ms)
        | inr later ↦ rw later (rows-advance ids ds count now resolved sum (suc i) (suc j) ms)
      ]

  -- The advance that `preview` shows is the advance that `offer` derives from the deal that `create` stores
  -- of this preview, at the same moment: what the brand acknowledges is what it was shown.
  pub preview-new_deal-advance :
      (org : Identifier) (ids : NewIds) (campaign : Campaign) (creator : Creator)
      (draft : DealDraft) (created now : ℕ) (p : DealPreview)
      → preview parse_date disclosure preview_id draft now ≡ ok p
      → advance_minor
          (pos 0)
          (deal_view parse_date disclosure
            (new_deal org ids campaign creator draft p created)
            now).milestones
        ≡ p.advance_total_minor
  unfolding preview deal_view new_deal
  preview-new_deal-advance org ids campaign creator draft created now p h =
      let (currency, known, h1) = >>=-eq-ok (assert_currency (string draft.currency)) _ h in
      let authored = authored_of draft.total_minor draft.milestones in
      let ((m, problems), resolved, h2) = >>=-eq-ok (resolve_draft draft currency authored) _ h1 in
      let whole : p ≡ preview_of parse_date disclosure preview_id draft now currency (m, problems) =
        sym (ok-injective h2) in
      rw whole (
        rows-advance ids.milestone (deliverable_rows ids.deliverable 0 draft.deliverables)
          (length draft.deliverables) now m (pos 0) 0 0 authored)
