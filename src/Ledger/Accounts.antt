-- ===== src/Ledger/Accounts.antt =====
-- The derivation of accounts: `accountForCampaign` and `orgLotToSpend` of
-- apps/backend/src/ledger/infrastructure/ledger.repository.ts, with the functions of
-- apps/backend/prisma/migrations/20260918140000_ledger_account_derivation that they call.
use rayi.Prelude.{
  Bool, true, false, ◌&&◌, Option, none, some, List, [], ◌∷◌, suc, Identifier, Text, text_eq,
  select, find, ◌==◌, pos, Result, ok, err, ◌≡◌, refl, ap, sym, arith, text_eq_refl, Option-cases,
  inl, inr,
}
use rayi.Ledger.SqlState.{Error, sql_error}
use rayi.Ledger.{
  Account, AccountRole, org_lot_available, campaign_allocated, other_role, Tables, debit,
}

pub record Campaign : Type 0 where
  pub id : Identifier
  pub organization_id : Identifier
  pub workspace_id : Identifier
  pub currency : Text
  pub state : Text

abbrev pub same_role : AccountRole → AccountRole → Bool
same_role org_lot_available org_lot_available = true
same_role campaign_allocated campaign_allocated = true
same_role (other_role r) (other_role s) = text_eq r s
same_role _ _ = false

abbrev pub same_id : Option Identifier → Identifier → Bool
same_id none i = false
same_id (some j) i = j == i

-- `ledger.create_account` for a campaign: the account and its balance row.
abbrev pub create_campaign_account : Tables → Campaign → AccountRole → Text → Identifier × Tables
create_campaign_account db c role currency = (
  db.next_id,
  record db {
    accounts =
        record {
          id = db.next_id;
          role = role;
          currency = currency;
          normal_balance = debit;
          org_id = some c.organization_id;
          campaign_id = some c.id;
        }
        ∷ db.accounts;
    balances =
        record { account_id = db.next_id; allow_negative = false; balance_minor = pos 0 }
        ∷ db.balances;
    next_id = suc db.next_id;
  },
)

abbrev pub found_or_created :
    Tables → Campaign → AccountRole → Text → Option Account → Identifier × Tables
found_or_created db c role currency (some a) = (a.id, db)
found_or_created db c role currency none = create_campaign_account db c role currency

abbrev pub account_of :
    Tables → AccountRole → Text → Option Campaign → Result Error (Identifier × Tables)
account_of db role currency none = err (sql_error "P0002")
account_of db role currency (some c) = ok (
    found_or_created db c role currency (
      find
        (λ a. same_id a.campaign_id c.id && (same_role a.role role && text_eq a.currency currency))
        db.accounts))

-- `accountForCampaign`: the campaign's account of a role, made on first use.
unfoldable pub account_for_campaign :
    List Campaign → Tables → Identifier → AccountRole → Text → Result Error (Identifier × Tables)
account_for_campaign campaigns db campaign role currency =
    account_of db role currency (find (λ c. c.id == campaign) campaigns)

abbrev pub only_lot : List Account → Result Error Identifier
only_lot [] = err (sql_error "23503")
only_lot (a ∷ []) = ok a.id
only_lot (a ∷ b ∷ more) = err (sql_error "0A000")

-- `orgLotToSpend`: the organization's funding lot; it refuses to choose among several.
unfoldable pub org_lot_to_spend : Tables → Identifier → Text → Result Error Identifier
org_lot_to_spend db org_id currency = only_lot (
    select
      (λ a.
        same_id a.org_id org_id
        && (same_role a.role org_lot_available && text_eq a.currency currency))
      db.accounts)

same_role_refl : (r : AccountRole) → same_role r r ≡ true
same_role_refl org_lot_available = refl
same_role_refl campaign_allocated = refl
same_role_refl (other_role t) = text_eq_refl t

abbrev campaign_account : Campaign → AccountRole → Text → Account → Bool
campaign_account c role currency a =
    same_id a.campaign_id c.id && (same_role a.role role && text_eq a.currency currency)

found-stable :
    (db : Tables) (c : Campaign) (role : AccountRole) (currency : Text) (a : Identifier)
    (after : Tables)
    → found_or_created db c role currency (find (campaign_account c role currency) db.accounts)
      ≡ (a, after)
    → (found_or_created after c role currency
          (find (campaign_account c role currency) after.accounts)
        ≡ (a, after))
      × (after.entries ≡ db.entries)
found-stable db c role currency a after h =
    elim (Option-cases (find (campaign_account c role currency) db.accounts)) [
      | inl new ↦
          let made : create_campaign_account db c role currency ≡ (a, after) = rw new at h in
          rw (sym (ap (λ p. p.1) made), sym (ap (λ p. p.0) made))
            (ground (arith, same_role_refl role, text_eq_refl currency), refl)
      | inr (old, e) ↦
          let kept : (old.id, db) ≡ (a, after) = rw e at h in
          rw (sym (ap (λ p. p.1) kept), sym (ap (λ p. p.0) kept)) (ground arith, refl)
    ]

-- Deriving a campaign's account writes no entry; when it made the account, the next derivation
-- finds that one.
pub account_for_campaign-stable :
    (campaigns : List Campaign) (db : Tables) (campaign : Identifier) (role : AccountRole)
    (currency : Text) (a : Identifier) (after : Tables)
    → account_for_campaign campaigns db campaign role currency ≡ ok (a, after)
    → (account_for_campaign campaigns after campaign role currency ≡ ok (a, after))
      × (after.entries ≡ db.entries)
unfolding account_for_campaign
account_for_campaign-stable campaigns db campaign role currency a after h =
    elim (Option-cases (find (λ c. c.id == campaign) campaigns)) [
      | inl absent ↦ ground arith
      | inr (c, e) ↦
          let t : account_of db role currency (some c) ≡ ok (a, after) = rw e at h in
          let (same, entries) = found-stable db c role currency a after cc in
          rw (e, same) (refl, entries)
    ]
