-- ===== src/Deals/Offer.antt =====
-- `offer` and `terminate` of apps/backend/src/api/deals/deals.service.ts, but for the records in the audit
-- log. The hashes of node:crypto and the text of an identifier are parameters.
use rayi.Prelude.{
  Bool, true, false, not, ◌&&◌, Option, none, some, List, [], ◌∷◌, map, ℕ, Identifier, Text, codes,
  is_empty, is_some, ◌==◌, if◌then◌else◌, any, ℤ, pos, ◌+ℤ◌, ◌-ℤ◌, ltb_ℤ, ◌==ℤ◌, Result, ok, err,
}
use rayi.Money.Decimal.{bigint_to_text}
use rayi.StepUp as StepUp
use rayi.StepUp.Totp.{Hmac}
use rayi.StepUp.{
  StepUpPurpose, offer_deal, terminate_deal, Attempt, Part, resource_hash_of, confirm,
}
use rayi.Workspaces.{Envelopes, Check, try_commit, release}
use rayi.Deals.{Deal, draft, offered, terminated, state_eq, is_committed}
use rayi.Deals.View.{MilestoneView, DealView, get}
use rayi.Deals.World.{
  World, DealsError, not_found, not_draft, code_required, budget_used, not_running, connection_lost,
  advance_differs, unconfirmed, budget_violation, Outcome,
}

-- The actor of a request, the row that `mint` may create, and whether the audit log can be written.
pub record Actor : Type 0 where
  pub user_id : Identifier
  pub grant_id : Identifier
  pub recorded : Bool

-- What happens besides a request: what other requests do after it read the deal and after it committed
-- the budget, and whether its own update of the deal fails, as when the connection is lost.
pub record Meanwhile : Type 0 where
  pub after_read : World → World
  pub after_commit : World → World
  pub update_fails : Bool

pub record OfferInput : Type 0 where
  pub acknowledged_advance_minor : ℤ
  pub code : Option Text

pub record Offered : Type 0 where
  pub deal_id : Identifier
  pub offered_at : ℕ

pub record Terminated : Type 0 where
  pub deal_id : Identifier
  pub returned_minor : ℤ
  pub currency : Text

-- The `reduce` of `advanceMinor`.
unfoldable pub advance_minor : ℤ → List MilestoneView → ℤ
advance_minor sum [] = sum
advance_minor sum (m ∷ ms) =
    advance_minor
      (if m.satisfiable_at_start && not (is_some m.released_at) then sum +ℤ m.amount_minor else sum)
      ms

abbrev pub in_org : Identifier → Identifier → Deal → Bool
in_org org deal d = d.id == deal && d.organization_id == org

-- The rows that the update of `offer` finds, and that of `terminate`.
abbrev pub offerable : Identifier → Identifier → Deal → Bool
offerable org deal d = in_org org deal d && state_eq d.state draft

abbrev pub running : Identifier → Identifier → Deal → Bool
running org deal d = in_org org deal d && is_committed d.state

abbrev pub set_offered : Identifier → Identifier → List Deal → List Deal
set_offered org deal deals =
    map (λ d. if offerable org deal d then record d { state = offered } else d) deals

abbrev pub set_terminated : Identifier → Identifier → ℕ → List Deal → List Deal
set_terminated org deal now deals =
    map
      (λ d.
        if running org deal d then record d { state = terminated; cancelled_at = some now } else d)
      deals

-- After `release`, the exception at hand; one of `release` itself comes in its place.
abbrev pub released_then :
    {A : Type 0} → Result DealsError A → World → Result Check Envelopes → Outcome A
released_then answer w (err c) = (err (budget_violation c), w)
released_then answer w (ok es) = (answer, record w { envelopes = es })

-- The compare-and-set of `offer`, with its `catch`.
unfoldable pub transition : Identifier → DealView → ℕ → Bool → World → Outcome Offered
transition org view now fails w =
    let undo = release org view.workspace_id view.total_minor w.envelopes in
    if fails
    then released_then (err connection_lost) w undo
    else if any (offerable org view.deal_id) w.deals
    then (
      ok (record { deal_id = view.deal_id; offered_at = now }),
      record w { deals = set_offered org view.deal_id w.deals },
    )
    else released_then (err not_draft) w undo

abbrev pub with_budget :
    Meanwhile
    → Identifier
    → DealView
    → ℕ
    → World
    → Result Check (Bool × Envelopes)
    → Outcome Offered
with_budget others org view now w (err c) = (err (budget_violation c), w)
with_budget others org view now w (ok (false, es)) = (err budget_used, record w { envelopes = es })
with_budget others org view now w (ok (true, es)) =
    transition org view now others.update_fails (others.after_commit (record w { envelopes = es }))

-- From the answer of the confirmation on.
abbrev pub commit_budget :
    Meanwhile → Identifier → DealView → ℕ → World → StepUp.Outcome (Unit {0}) → Outcome Offered
commit_budget others org view now w (err e, step_up) =
    (err (unconfirmed e), record w { step_up = step_up })
commit_budget others org view now w (ok done, step_up) =
    let later = others.after_read (record w { step_up = step_up }) in
    with_budget others org view now later
      (try_commit org view.workspace_id view.total_minor now later.envelopes)

-- `mint` and `consume` for an action of the actor.
abbrev pub attempt : (Text → Text) → StepUpPurpose → List Part → Actor → Text → Attempt
attempt sha256_hex purpose parts actor code = record {
  confirmation = record {
    user_id = actor.user_id;
    purpose = purpose;
    resource_hash = some (resource_hash_of sha256_hex parts);
  };
  code = code;
  grant_id = actor.grant_id;
  recorded = actor.recorded;
}

-- What an offer and a termination are bound to.
abbrev pub offer_parts : (Identifier → Text) → Identifier → Identifier → ℤ → List Part
offer_parts id_text org deal advance =
    (codes "dealId", id_text deal)
    ∷ (codes "organizationId", id_text org)
    ∷ (codes "advanceMinor", bigint_to_text advance)
    ∷ []

abbrev pub terminate_parts : (Identifier → Text) → Identifier → Identifier → List Part
terminate_parts id_text org deal =
    (codes "dealId", id_text deal) ∷ (codes "organizationId", id_text org) ∷ []

module _ (parse_date : Text → Option ℤ) (disclosure : Identifier) (hmac : Hmac)
    (sha256_hex : Text → Text) (id_text : Identifier → Text) where
  -- The confirmation of an advance; `!input.code` holds of no code and of an empty one.
  abbrev pub confirmed_offer :
      Meanwhile → Identifier → DealView → ℤ → Option Text → Actor → ℕ → World → Outcome Offered
  confirmed_offer others org view advance none actor now w = (err code_required, w)
  confirmed_offer others org view advance (some code) actor now w =
      if is_empty code
      then (err code_required, w)
      else commit_budget others org view now w (
          confirm hmac
            (attempt sha256_hex offer_deal (offer_parts id_text org view.deal_id advance) actor
              code)
            now w.step_up)

  abbrev pub offer_view :
      Meanwhile → Identifier → OfferInput → Actor → ℕ → World → Option DealView → Outcome Offered
  offer_view others org input actor now w none = (err not_found, w)
  offer_view others org input actor now w (some view) =
      let advance = advance_minor (pos 0) view.milestones in
      if not (state_eq view.state draft)
      then (err not_draft, w)
      else if not (input.acknowledged_advance_minor ==ℤ advance)
      then (err (advance_differs advance input.acknowledged_advance_minor), w)
      else if ltb_ℤ (pos 0) advance
      then confirmed_offer others org view advance input.code actor now w
      else commit_budget others org view now w (ok tt, w.step_up)

  -- `offer`
  unfoldable pub offer :
      Meanwhile → Identifier → Identifier → OfferInput → Actor → ℕ → World → Outcome Offered
  unfolding get advance_minor transition
  offer others org deal input actor now w =
      offer_view others org input actor now w (get parse_date disclosure org deal now w.deals)

  abbrev pub end_deal :
      Meanwhile → Identifier → DealView → ℕ → World → StepUp.Outcome (Unit {0}) → Outcome Terminated
  end_deal others org view now w (err e, step_up) =
      (err (unconfirmed e), record w { step_up = step_up })
  end_deal others org view now w (ok done, step_up) =
      let returned = view.total_minor -ℤ view.released_minor in
      let later = others.after_read (record w { step_up = step_up }) in
      if any (running org view.deal_id) later.deals
      then (let ended =
            others.after_commit
              (record later { deals = set_terminated org view.deal_id now later.deals }) in
          released_then
            (ok (record {
              deal_id = view.deal_id;
              returned_minor = returned;
              currency = view.currency;
            }))
            ended (release org view.workspace_id returned ended.envelopes))
      else (err not_running, later)

  abbrev pub terminate_view :
      Meanwhile → Identifier → Text → Actor → ℕ → World → Option DealView → Outcome Terminated
  terminate_view others org code actor now w none = (err not_found, w)
  terminate_view others org code actor now w (some view) =
      if not (is_committed view.state)
      then (err not_running, w)
      else end_deal others org view now w (
          confirm hmac
            (attempt sha256_hex terminate_deal (terminate_parts id_text org view.deal_id) actor
              code)
            now w.step_up)

  -- `terminate`; other requests come in after the deal was read and after it was ended.
  unfoldable pub terminate :
      Meanwhile → Identifier → Identifier → Text → Actor → ℕ → World → Outcome Terminated
  unfolding get
  terminate others org deal code actor now w =
      terminate_view others org code actor now w (get parse_date disclosure org deal now w.deals)
