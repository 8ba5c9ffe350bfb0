-- ===== src/Deals/Tests.antt =====
-- Runs of the service of deals at concrete inputs.
use rayi.Prelude.{
  true, false, Option, none, some, [], ◌∷◌, ℕ, ◌+◌, ◌≡◌, refl, Identifier, Text, codes, ok, ℤ, pos,
  ◌+ℤ◌, ◌-ℤ◌,
}
use rayi.Prelude.Sorting.{sort, insert}
use rayi.Money.Currency.{find_currency, usd}
use rayi.Money.Decimal.{bigint_to_text}
use rayi.Money.Amount.{assert_currency}
use rayi.Money.Allocate.{allocate}
use rayi.Deal.Conditions.{
  advance, some_waiting, all_deliverables_approved, evaluate_condition, is_satisfiable_at_start,
}
use rayi.Deal.Amounts.{
  fixed_total, percentage_entries, set_fixed, resolve_mixed, resolve_milestone_amounts,
}
use rayi.StepUp.Totp.{Hmac}
use rayi.StepUp.{Attempt, confirm, offer_deal, terminate_deal}
use rayi.Workspaces.{BudgetEnvelope}
use rayi.Deals.{Deal, offered, terminated}
use rayi.Deals.View.{DealView, deal_view}
use rayi.Deals.Preview.{
  DealDraft, DealPreview, before_any_work, verdict_reason, total_of, milestone_preview, advance_of,
  preview,
}
use rayi.Deals.World.{World}
use rayi.Deals.Create.{NewIds, new_deal}
use rayi.Deals.Advance.{preview-new_deal-advance}
use rayi.Deals.Offer.{
  Actor, Meanwhile, OfferInput, advance_minor, attempt, offer_parts, terminate_parts,
}

abbrev parse_date : Text → Option ℤ
parse_date s = none

abbrev preview_id : ℕ → Identifier
preview_id i = 1_000 + i

abbrev input : DealDraft
input = record {
  campaign_id = 4;
  creator_handle = codes "@ada";
  total_minor = pos 1_001;
  currency = codes "USD";
  deliverables = (record { slot = codes "one"; brief = none; due_at = none }) ∷ [];
  milestones =
      (record {
        title = codes "start";
        amount_minor = some (pos 100);
        percentage_bps = none;
        condition = advance;
      })
      ∷ (record {
        title = codes "half";
        amount_minor = none;
        percentage_bps = some (pos 5_000);
        condition = all_deliverables_approved;
      })
      ∷ (record {
        title = codes "rest";
        amount_minor = none;
        percentage_bps = some (pos 5_000);
        condition = all_deliverables_approved;
      })
      ∷ [];
}

abbrev ids : NewIds
ids = record { deal = 50; milestone = λ i. 60 + i; deliverable = λ i. 80 + i }

abbrev envelope : ℤ → ℤ → BudgetEnvelope
envelope ceiling committed = record {
  workspace_id = 3;
  organization_id = 9;
  ceiling_minor = ceiling;
  committed_minor = committed;
  currency = codes "USD";
  expires_at = none;
  approved_by_member_id = none;
  approved_at = 10;
}

abbrev world : World
world = record {
  deals = [];
  campaigns =
      (record { id = 4; organization_id = 9; workspace_id = 3; name = codes "Spring" }) ∷ [];
  users = (record { id = 77; username = codes "ada" }) ∷ [];
  envelopes = envelope (pos 2_000) (pos 500) ∷ [];
  step_up = record {
    grants = [];
    factors =
        (record { user_id = 70; deleted_at = none; secret = some (codes "JBSWY3DPEHPK3PXP") }) ∷ [];
    events = [];
  };
}

abbrev quiet : World → World
quiet w = w

abbrev result_of : DealPreview → Deal
result_of p =
    new_deal 9 ids (record { id = 4; organization_id = 9; workspace_id = 3; name = codes "Spring" })
      (record { id = 77; username = codes "ada" }) input p 90_000

abbrev shown : DealPreview
shown = record {
  milestones =
      (record {
        title = codes "start";
        amount_minor = pos 100;
        percentage_bps = none;
        condition = advance;
        satisfiable_at_start = true;
        reason = before_any_work;
      })
      ∷ (record {
        title = codes "half";
        amount_minor = pos 451;
        percentage_bps = some (pos 5_000);
        condition = all_deliverables_approved;
        satisfiable_at_start = false;
        reason = verdict_reason (some_waiting (pos 1) 1);
      })
      ∷ (record {
        title = codes "rest";
        amount_minor = pos 450;
        percentage_bps = some (pos 5_000);
        condition = all_deliverables_approved;
        satisfiable_at_start = false;
        reason = verdict_reason (some_waiting (pos 1) 1);
      })
      ∷ [];
  milestone_total_minor = pos 1_001;
  total_minor = pos 1_001;
  currency = usd;
  balances = true;
  advance_total_minor = pos 100;
  problems = [];
}

previewed : preview parse_date 0 preview_id input 90_000 ≡ ok shown
unfolding preview assert_currency find_currency resolve_milestone_amounts fixed_total
    percentage_entries resolve_mixed set_fixed allocate sort insert milestone_preview
    evaluate_condition is_satisfiable_at_start total_of advance_of ◌+ℤ◌ ◌-ℤ◌
previewed = refl

abbrev row : Deal
row = result_of shown

abbrev page : DealView
page = deal_view parse_date 0 row 90_000

abbrev with_deal : World
with_deal = record world { deals = row ∷ [] }

preview-new_deal-advance_example : advance_minor (pos 0) page.milestones ≡ pos 100
preview-new_deal-advance_example =
    preview-new_deal-advance parse_date 0 preview_id 9 ids
      (record { id = 4; organization_id = 9; workspace_id = 3; name = codes "Spring" })
      (record { id = 77; username = codes "ada" }) input 90_000 90_000 shown previewed

abbrev hmac : Hmac
hmac algorithm key message = 0 ∷ 0 ∷ 0 ∷ 0 ∷ []

abbrev digest : Text → Text
digest s = s

abbrev id_text : Identifier → Text
id_text i = bigint_to_text (pos i)

abbrev actor : Actor
actor = record { user_id = 70; grant_id = 5; recorded = true }

abbrev alone : Meanwhile
alone = record { after_read = quiet; after_commit = quiet; update_fails = false }

abbrev acknowledged : OfferInput
acknowledged = record { acknowledged_advance_minor = pos 100; code = some (codes "000000") }

abbrev offer_attempt : Attempt
offer_attempt =
    attempt digest offer_deal (offer_parts id_text 9 50 (pos 100)) actor (codes "000000")

abbrev offered_row : Deal
offered_row = record row { state = offered }

abbrev with_offer : World
with_offer = record with_deal {
  deals = offered_row ∷ [];
  envelopes = envelope (pos 2_000) (pos 1_501) ∷ [];
  step_up = (confirm hmac offer_attempt 90_000 world.step_up).1;
}

-- The connection breaks after the budget was committed.
abbrev broken : Meanwhile
broken = record alone { update_fails = true }

abbrev with_nothing : World
with_nothing = record with_deal { step_up = (confirm hmac offer_attempt 90_000 world.step_up).1 }

abbrev end_attempt : Attempt
end_attempt = attempt digest terminate_deal (terminate_parts id_text 9 50) actor (codes "000000")

abbrev with_end : World
with_end = record with_offer {
  deals = (record offered_row { state = terminated; cancelled_at = some 95_000 }) ∷ [];
  envelopes = envelope (pos 2_000) (pos 500) ∷ [];
  step_up = (confirm hmac end_attempt 95_000 with_offer.step_up).1;
}
