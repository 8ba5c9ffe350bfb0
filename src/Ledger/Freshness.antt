-- ===== src/Ledger/Freshness.antt =====
-- Rows refer to accounts below the next identifier, so an account made on first use has no lines yet,
-- and its opening balance of 0 is right.
use rayi.Prelude.{
  Bool, Option, none, some, List, [], ◌∷◌, ℕ, suc, ◌≤◌, Identifier, Text, text_eq, ◌&&◌, ◌==◌, ltb,
  length, find, pos, int_laws, Result, ok, err, throw_if-ok, ◌≡◌, refl, sym, ap, arith, inl, inr,
  Bool-cases, ==_iff, Option-cases, All,
}
use rayi.Ledger.SqlState.{Error}
use rayi.Ledger.{
  Account, AccountRole, Tables, Entry, EntryLine, EntryLineInput, Session, PostEntryCommand,
  natural_total, same_source, join_accounts, existing_or_new, insert_entry, sql_post_entry,
  post_entry,
}
use rayi.Ledger.Accounts.{
  Campaign, same_id, same_role, create_campaign_account, found_or_created, account_of,
  account_for_campaign,
}
use rayi.Ledger.Books.{IsSound, posted, new_lines, insert_entry-booked}
use rayi.Ledger.Posting.{IsOutcome, post_entry_all_or_nothing}

abbrev pub IsBelow : ℕ → List EntryLine → Type 0
IsBelow n ls = All (λ l. suc l.account_id ≤ n) ls

abbrev pub IsFresh : Tables → Type 0
IsFresh db =
    All (λ a. suc a.id ≤ db.next_id) db.accounts × All (λ e. IsBelow db.next_id e.lines) db.entries

find-All :
    (P : Account → Type 0) (p : Account → Bool) (rows : List Account) (a : Account)
    → All P rows
    → find p rows ≡ some a
    → P a
find-All P p [] a h found = cc
find-All P p (b ∷ rows) a h found = elim (Bool-cases (p b)) [
  | inl here ↦
      let t : ◌≡◌ {A = Option Account} (some b) (some a) = rw here at found in
      let same : b ≡ a = cc in rw (sym same) (h.0)
  | inr later ↦ find-All P p rows a h.1 (rw later at found)
]

join_accounts-IsBelow :
    (n : ℕ) (rows : List Account) (ls : List EntryLineInput)
    → All (λ a. suc a.id ≤ n) rows
    → IsBelow n (join_accounts rows ls)
unfolding join_accounts
join_accounts-IsBelow n rows [] h = tt
join_accounts-IsBelow n rows (l ∷ ls) h =
    elim (Option-cases (find (λ a. a.id == l.account_id) rows)) [
      | inl unknown ↦ rw unknown (join_accounts-IsBelow n rows ls h)
      | inr (a, e) ↦ rw e (
        find-All (λ b. suc b.id ≤ n) (λ b. b.id == l.account_id) rows a h e,
        join_accounts-IsBelow n rows ls h,
      )
    ]

IsBelow-suc : (n : ℕ) (ls : List EntryLine) → IsBelow n ls → IsBelow (suc n) ls
IsBelow-suc n [] h = tt
IsBelow-suc n (l ∷ ls) h = (omega (arith, h.0), IsBelow-suc n ls h.1)

entries-suc :
    (n : ℕ) (es : List Entry)
    → All (λ e. IsBelow n e.lines) es
    → All (λ e. IsBelow (suc n) e.lines) es
entries-suc n [] h = tt
entries-suc n (e ∷ es) h = (IsBelow-suc n e.lines h.0, entries-suc n es h.1)

accounts-suc :
    (n : ℕ) (rows : List Account) → All (λ a. suc a.id ≤ n) rows → All (λ a. suc a.id ≤ suc n) rows
accounts-suc n [] h = tt
accounts-suc n (a ∷ rows) h = (omega (arith, h.0), accounts-suc n rows h.1)

sql_post_entry-IsFresh :
    (db : Tables) (cmd : PostEntryCommand) (n : Identifier) (after : Tables)
    → sql_post_entry db cmd ≡ ok (n, after)
    → IsFresh db
    → IsFresh after
unfolding sql_post_entry
sql_post_entry-IsFresh db cmd n after h (accounts, entries) =
    let (two, found) = throw_if-ok (ltb (length cmd.lines) 2) _ _ h in
    elim (Option-cases (find (same_source cmd.source_type cmd.source_id) db.entries)) [
      | inl absent ↦
          let t : insert_entry db cmd ≡ ok (n, after) = rw absent at found in
          let (moved, q, even, _, e) = insert_entry-booked db cmd n after t in
          rw e (
            accounts-suc db.next_id db.accounts accounts,
            (
              IsBelow-suc db.next_id (new_lines db cmd)
                  (join_accounts-IsBelow db.next_id db.accounts cmd.lines accounts),
              entries-suc db.next_id db.entries entries,
            ),
          )
      | inr (old, e) ↦
          let t : existing_or_new db cmd (some old) ≡ ok (n, after) = rw e at found in
          let same : db ≡ after = cc in rw (sym same) (accounts, entries)
    ]

outcome-IsFresh :
    (cmd : PostEntryCommand) (s after : Session) (out : Result (Option Error) Identifier)
    → IsOutcome cmd s after out
    → IsFresh s.db
    → IsFresh after.db
outcome-IsFresh cmd s after (ok n) h fresh = sql_post_entry-IsFresh s.db cmd n after.db h fresh
outcome-IsFresh cmd s after (err e) h fresh = rw h fresh

pub post_entry-IsFresh :
    (cmd : PostEntryCommand) (s : Session) → IsFresh s.db → IsFresh ((post_entry cmd s).1).db
post_entry-IsFresh cmd s fresh =
    outcome-IsFresh cmd s ((post_entry cmd s).1) _ (post_entry_all_or_nothing cmd s) fresh

natural_total-below : (n : ℕ) (ls : List EntryLine) → IsBelow n ls → natural_total n ls ≡ pos 0
natural_total-below n [] h = refl
natural_total-below n (l ∷ ls) h = ground (arith, h.0, natural_total-below n ls h.1)

posted-below : (n : ℕ) (es : List Entry) → All (λ e. IsBelow n e.lines) es → posted n es ≡ pos 0
posted-below n [] h = refl
posted-below n (e ∷ es) h =
    rw (natural_total-below n e.lines h.0, posted-below n es h.1) (omega int_laws)

created-IsSound :
    (db : Tables) (c : Campaign) (role : AccountRole) (currency : Text)
    → IsFresh db
    → IsSound db
    → let (a, after) = create_campaign_account db c role currency in IsSound after × IsFresh after
created-IsSound db c role currency (accounts, entries) (balanced, spend, agree) = (
  (
    balanced,
    (refl, spend),
    λ i. elim (Bool-cases (db.next_id == i)) [
      | inl new ↦
          let same : db.next_id ≡ i = (==_iff db.next_id i).0 new in
          rw new (rw same at (sym (posted-below db.next_id db.entries entries)))
      | inr other ↦ rw other (agree i)
    ],
  ),
  (
    (omega arith, accounts-suc db.next_id db.accounts accounts),
    entries-suc db.next_id db.entries entries,
  ),
)

found-IsSound :
    (db : Tables) (c : Campaign) (role : AccountRole) (currency : Text) (o : Option Account)
    (a : Identifier) (after : Tables)
    → found_or_created db c role currency o ≡ (a, after)
    → IsSound db
    → IsFresh db
    → IsSound after × IsFresh after
found-IsSound db c role currency (some old) a after h sound fresh =
    let same : db ≡ after = cc in rw (sym same) (sound, fresh)
found-IsSound db c role currency none a after h sound fresh =
    let made : (create_campaign_account db c role currency).1 ≡ after = ap (λ p. p.1) h in
    rw (sym made) (created-IsSound db c role currency fresh sound)

-- Deriving a campaign's account keeps the books sound: an account that it makes has no lines yet, and
-- its balance is 0.
pub account_for_campaign-IsSound :
    (campaigns : List Campaign) (db : Tables) (campaign : Identifier) (role : AccountRole)
    (currency : Text) (a : Identifier) (after : Tables)
    → account_for_campaign campaigns db campaign role currency ≡ ok (a, after)
    → IsSound db
    → IsFresh db
    → IsSound after × IsFresh after
unfolding account_for_campaign
account_for_campaign-IsSound campaigns db campaign role currency a after h sound fresh =
    elim (Option-cases (find (λ c. c.id == campaign) campaigns)) [
      | inl absent ↦ ground arith
      | inr (c, e) ↦
          let t : account_of db role currency (some c) ≡ ok (a, after) = rw e at h in
          let row =
            find
              (λ b.
                same_id b.campaign_id c.id
                && (same_role b.role role && text_eq b.currency currency))
              db.accounts in
          found-IsSound db c role currency row a after (cc) sound fresh
    ]
