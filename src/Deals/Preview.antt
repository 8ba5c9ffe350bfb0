-- ===== src/Deals/Preview.antt =====
-- `preview` of apps/backend/src/api/deals/deals.service.ts: a draft, resolved without creating anything.
use rayi.Prelude.{
  Bool, true, false, Option, none, some, List, [], ◌∷◌, ◌++◌, ℕ, suc, Identifier, Text, codes, ◌==◌,
  if◌then◌else◌, length, ℤ, pos, ◌+ℤ◌, ltb_ℤ, leb_ℤ, ◌==ℤ◌, Result, ok, err, ◌>>=◌,
}
use rayi.Money.Currency.{Currency}
use rayi.Money.Amount.{MoneyError, string, assert_currency}
use rayi.Deal.Conditions.{
  MilestoneCondition, all_deliverables_approved, Reason, evaluate_condition,
  is_satisfiable_at_start,
}
use rayi.Deal.Amounts.{
  Share, fixed, percentage, Authored, AmountsError, money_error, AmountMap,
  resolve_milestone_amounts,
}

pub record MilestoneDraft : Type 0 where
  pub title : Text
  pub amount_minor : Option ℤ
  pub percentage_bps : Option ℤ
  pub condition : MilestoneCondition

pub record DeliverableDraft : Type 0 where
  pub slot : Text
  pub brief : Option Text
  pub due_at : Option ℕ

pub record DealDraft : Type 0 where
  pub campaign_id : Identifier
  pub creator_handle : Text
  pub total_minor : ℤ
  pub currency : Text
  pub deliverables : List DeliverableDraft
  pub milestones : List MilestoneDraft

-- "The deal total must be more than zero.", "A deal needs at least one deliverable.", and the message of
-- a `MilestoneAmountsError`.
pub data Problem : Type 0 where
  total_not_positive no_deliverables : Problem
  amounts : AmountsError → Problem

-- "Releases as soon as the creator accepts — before any work exists.", or the reason of the verdict.
pub data PreviewReason : Type 0 where
  before_any_work : PreviewReason
  verdict_reason : Reason → PreviewReason

pub record MilestonePreview : Type 0 where
  pub title : Text
  pub amount_minor : ℤ
  pub percentage_bps : Option ℤ
  pub condition : MilestoneCondition
  pub satisfiable_at_start : Bool
  pub reason : PreviewReason

pub record DealPreview : Type 0 where
  pub milestones : List MilestonePreview
  pub milestone_total_minor : ℤ
  pub total_minor : ℤ
  pub currency : Currency
  pub balances : Bool
  pub advance_total_minor : ℤ
  pub problems : List Problem

-- `authored`: without milestones, one that pays the total.
abbrev pub authored_of : ℤ → List MilestoneDraft → List MilestoneDraft
authored_of total [] =
    (record {
      title = codes "On completion";
      amount_minor = some total;
      percentage_bps = none;
      condition = all_deliverables_approved;
    })
    ∷ []
authored_of total (m ∷ ms) = m ∷ ms

-- `milestone.amountMinor ?? 0n`
abbrev pub or_zero : Option ℤ → ℤ
or_zero none = pos 0
or_zero (some amount) = amount

abbrev pub share_of : MilestoneDraft → Option ℤ → Share
share_of m none = fixed (or_zero m.amount_minor)
share_of m (some bps) = percentage bps

-- The entries for `resolveMilestoneAmounts`, numbered from `index` on.
abbrev pub entries_from : ℕ → List MilestoneDraft → List Authored
entries_from index [] = []
entries_from index (m ∷ ms) =
    (record { sequence = index; share = share_of m m.percentage_bps }) ∷ entries_from (suc index) ms

-- `resolved.get(index)`
abbrev pub amount_at : ℕ → AmountMap → Option ℤ
amount_at index [] = none
amount_at index ((key, amount) ∷ entries) =
    if key == index then some amount else amount_at index entries

-- The `try` around `resolveMilestoneAmounts`: a `MilestoneAmountsError` is a problem, and any other is
-- thrown.
abbrev pub resolved_or :
    Result AmountsError AmountMap → Result MoneyError (AmountMap × List Problem)
resolved_or (ok m) = ok (m, [])
resolved_or (err (money_error e)) = err e
resolved_or (err e) = ok ([], amounts e ∷ [])

abbrev pub resolve_draft :
    DealDraft → Currency → List MilestoneDraft → Result MoneyError (AmountMap × List Problem)
resolve_draft draft currency authored =
    if ltb_ℤ (pos 0) draft.total_minor
    then resolved_or (
        resolve_milestone_amounts (entries_from 0 authored)
          (record { amount_minor = draft.total_minor; currency = currency }))
    else ok ([], [])

-- `resolved.get(index) ?? milestone.amountMinor ?? 0n`
abbrev pub or_authored : Option ℤ → Option ℤ → ℤ
or_authored none authored = or_zero authored
or_authored (some amount) authored = amount

abbrev pub problem_if : Bool → Problem → List Problem
problem_if true p = p ∷ []
problem_if false p = []

abbrev pub is_nil {ℓ} : {A : Type ℓ} → List A → Bool
is_nil [] = true
is_nil (x ∷ xs) = false

-- The `reduce`s of `milestoneTotalMinor` and `advanceTotalMinor`.
unfoldable pub total_of : ℤ → List MilestonePreview → ℤ
total_of sum [] = sum
total_of sum (m ∷ ms) = total_of (sum +ℤ m.amount_minor) ms

unfoldable pub advance_of : ℤ → List MilestonePreview → ℤ
advance_of sum [] = sum
advance_of sum (m ∷ ms) =
    advance_of (if m.satisfiable_at_start then sum +ℤ m.amount_minor else sum) ms

-- The identifier `preview-<index>` is that of no milestone, like `__disclosure__`: they are looked up in
-- the empty set only.
module _ (parse_date : Text → Option ℤ) (disclosure : Identifier)
    (preview_id : ℕ → Identifier) where
  unfoldable pub milestone_preview : ℕ → ℕ → AmountMap → ℕ → MilestoneDraft → MilestonePreview
  milestone_preview deliverables now resolved index m =
      let at_start = is_satisfiable_at_start parse_date disclosure m.condition (pos now) in
      let verdict = evaluate_condition parse_date m.condition (preview_id index) (record {
        approved_deliverable_ids = [];
        total_deliverables = deliverables;
        manually_approved_milestone_ids = [];
        now = pos now;
      }) in
      record {
        title = m.title;
        amount_minor = or_authored (amount_at index resolved) m.amount_minor;
        percentage_bps = m.percentage_bps;
        condition = m.condition;
        satisfiable_at_start = at_start;
        reason = if at_start then before_any_work else verdict_reason verdict.reason;
      }

  abbrev pub previews_from : ℕ → ℕ → AmountMap → ℕ → List MilestoneDraft → List MilestonePreview
  previews_from deliverables now resolved index [] = []
  previews_from deliverables now resolved index (m ∷ ms) =
      milestone_preview deliverables now resolved index m
      ∷ previews_from deliverables now resolved (suc index) ms

  abbrev pub preview_of : DealDraft → ℕ → Currency → AmountMap × List Problem → DealPreview
  preview_of draft now currency (resolved, unresolved) =
      let authored = authored_of draft.total_minor draft.milestones in
      let views = previews_from (length draft.deliverables) now resolved 0 authored in
      record {
        milestones = views;
        milestone_total_minor = total_of (pos 0) views;
        total_minor = draft.total_minor;
        currency = currency;
        balances = total_of (pos 0) views ==ℤ draft.total_minor;
        advance_total_minor = advance_of (pos 0) views;
        problems =
            problem_if (leb_ℤ draft.total_minor (pos 0)) total_not_positive
            ++ (problem_if (is_nil draft.deliverables) no_deliverables ++ unresolved);
      }

  unfoldable pub preview : DealDraft → ℕ → Result MoneyError DealPreview
  unfolding milestone_preview total_of advance_of
  preview draft now = assert_currency (string draft.currency) >>= λ currency.
      resolve_draft draft currency (authored_of draft.total_minor draft.milestones) >>= λ resolved.
      ok (preview_of draft now currency resolved)
