-- ===== src/Ledger/Books.antt =====
-- The books that `ledger.post_entry` keeps: what holds of the tables after every posting.
use rayi.Prelude.{
  false, not, ◌||◌, Option, none, some, List, [], ◌∷◌, map, suc, ◌≤◌, Identifier, ◌==◌, ltb, length,
  ℤ, pos, ◌+ℤ◌, ◌==ℤ◌, leb_ℤ, sum_ℤ, ok, throw_if-ok, >>=-eq-ok, find, any, select, ◌≡◌, refl, ap,
  sym, ◌∙◌, arith, int_laws, Bool-cases, Option-cases, inl, inr, All, ==ℤ_iff, text_eq_refl,
}
use rayi.Ledger.{
  Tables, Entry, EntryLine, AccountBalance, PostEntryCommand, natural_total, signed_minor,
  same_source, existing_or_new, move_balances, accounts_of, join_accounts, insert_entry,
  sql_post_entry, balance_of, balance_row, find_unbalanced_entries,
}
use rayi.Ledger.Balances.{amount_at, shift, MaySpend, move_balances-MaySpend, moved-amount}

-- What an account has moved by in all entries.
abbrev pub posted : Identifier → List Entry → ℤ
posted c es = sum_ℤ (map (λ e. natural_total c e.lines) es)

-- Double entry: at least two lines, each of a positive amount, debits equal to credits.
abbrev pub IsBalanced : Entry → Type 0
IsBalanced e =
    (2 ≤ length e.lines)
    × (sum_ℤ (map signed_minor e.lines) ≡ pos 0)
    × (any (λ l. leb_ℤ l.amount_minor (pos 0)) e.lines ≡ false)

abbrev pub Agrees : Option ℤ → ℤ → Type 0
Agrees none total = Unit
Agrees (some balance) total = balance ≡ total

-- Sound books: every entry balances, no account that must not is overdrawn, and every balance is the
-- sum of the account's lines.
abbrev pub IsSound : Tables → Type 0
IsSound db =
    All IsBalanced db.entries
    × All MaySpend db.balances
    × ((c : Identifier) → Agrees (amount_at c db.balances) (posted c db.entries))

Agrees-shift : (o : Option ℤ) (d total : ℤ) → Agrees o total → Agrees (shift d o) (d +ℤ total)
Agrees-shift none d total h = tt
Agrees-shift (some x) d total h = rw h (omega int_laws)

abbrev pub new_lines : Tables → PostEntryCommand → List EntryLine
new_lines db cmd = join_accounts db.accounts cmd.lines

abbrev pub new_entry : Tables → PostEntryCommand → Entry
new_entry db cmd = record {
  id = db.next_id;
  transition = cmd.transition;
  source_type = cmd.source_type;
  source_id = cmd.source_id;
  lines = new_lines db cmd;
}

-- The tables after a posting that moved the balances.
abbrev pub booked : Tables → PostEntryCommand → List AccountBalance → Tables
booked db cmd moved = record db {
  balances = moved;
  entries = new_entry db cmd ∷ db.entries;
  next_id = suc db.next_id;
}

even-IsBalanced :
    (ls : List EntryLine)
    → (ltb (length ls) 2 || not (sum_ℤ (map signed_minor ls) ==ℤ pos 0)) ≡ false
    → (2 ≤ length ls) × (sum_ℤ (map signed_minor ls) ≡ pos 0)
even-IsBalanced ls h =
    (ground arith, (==ℤ_iff (sum_ℤ (map signed_minor ls)) (pos 0)).0 (ground arith))

pub insert_entry-booked :
    (db : Tables) (cmd : PostEntryCommand) (n : Identifier) (after : Tables)
    → insert_entry db cmd ≡ ok (n, after)
    → (moved : List AccountBalance) × (move_balances
          (new_lines db cmd)
          (accounts_of (new_lines db cmd))
          db.balances
        ≡ ok moved)
      × IsBalanced (new_entry db cmd)
      × (n ≡ db.next_id)
      × (after ≡ booked db cmd moved)
unfolding insert_entry
insert_entry-booked db cmd n after h =
    let ls = new_lines db cmd in
    let (positive, h1) = throw_if-ok (any (λ l. leb_ℤ l.amount_minor (pos 0)) ls) _ _ h in
    let (known, h2) = throw_if-ok (not (length ls == length cmd.lines)) _ _ h1 in
    let (moved, q, h3) = >>=-eq-ok (move_balances ls (accounts_of ls) db.balances) _ h2 in
    let (even, h4) =
      throw_if-ok (ltb (length ls) 2 || not (sum_ℤ (map signed_minor ls) ==ℤ pos 0)) _ _ h3 in
    let (two, zero_sum) = even-IsBalanced ls even in (moved, q, (two, zero_sum, positive), cc, cc)

booked-IsSound :
    (db : Tables) (cmd : PostEntryCommand) (moved : List AccountBalance)
    → move_balances (new_lines db cmd) (accounts_of (new_lines db cmd)) db.balances ≡ ok moved
    → IsBalanced (new_entry db cmd)
    → IsSound db
    → IsSound (booked db cmd moved)
booked-IsSound db cmd moved q even (balanced, spend, agree) = (
  (even, balanced),
  move_balances-MaySpend (new_lines db cmd) _ db.balances moved q spend,
  λ c. rw (moved-amount (new_lines db cmd) db.balances moved c q) (
      Agrees-shift (amount_at c db.balances) (natural_total c (new_lines db cmd))
        (posted c db.entries) (agree c)),
)

-- A posting that the database accepts keeps the books sound: every stored entry balances, no account
-- that must not is overdrawn, and every balance is the sum of the lines of its account.
pub sql_post_entry-IsSound :
    (db : Tables) (cmd : PostEntryCommand) (n : Identifier) (after : Tables)
    → sql_post_entry db cmd ≡ ok (n, after)
    → IsSound db
    → IsSound after
unfolding sql_post_entry
sql_post_entry-IsSound db cmd n after h sound =
    let (two, found) = throw_if-ok (ltb (length cmd.lines) 2) _ _ h in
    elim (Option-cases (find (same_source cmd.source_type cmd.source_id) db.entries)) [
      | inl new ↦
          let t : insert_entry db cmd ≡ ok (n, after) = rw new at found in
          let (moved, q, even, _, e) = insert_entry-booked db cmd n after t in
          rw e (booked-IsSound db cmd moved q even sound)
      | inr (old, e) ↦
          let t : existing_or_new db cmd (some old) ≡ ok (n, after) = rw e at found in
          let same : db ≡ after = cc in rw (sym same) sound
    ]

source_found :
    (db : Tables) (cmd : PostEntryCommand) (n : Identifier) (after : Tables)
    → sql_post_entry db cmd ≡ ok (n, after)
    → (e : Entry) × (find (same_source cmd.source_type cmd.source_id) after.entries ≡ some e)
      × (e.id ≡ n)
unfolding sql_post_entry
source_found db cmd n after h =
    let (two, found) = throw_if-ok (ltb (length cmd.lines) 2) _ _ h in
    elim (Option-cases (find (same_source cmd.source_type cmd.source_id) db.entries)) [
      | inl new ↦
          let t : insert_entry db cmd ≡ ok (n, after) = rw new at found in
          let (moved, q, even, same_id, e) = insert_entry-booked db cmd n after t in
          rw e (new_entry db cmd, ground (arith, text_eq_refl cmd.source_type), sym same_id)
      | inr (old, e) ↦
          let t : existing_or_new db cmd (some old) ≡ ok (n, after) = rw e at found in
          let same : db ≡ after = cc in rw (sym same) (old, e, cc)
    ]

-- A posting that was accepted is not repeated: any command with the same source is answered with the
-- same entry and changes nothing, whatever its lines, if it has two.
pub sql_post_entry-idempotent :
    (db : Tables) (cmd : PostEntryCommand) (n : Identifier) (after : Tables)
    → sql_post_entry db cmd ≡ ok (n, after)
    → (repeat : PostEntryCommand) → 2 ≤ length repeat.lines
    → repeat.source_type ≡ cmd.source_type
    → repeat.source_id ≡ cmd.source_id
    → sql_post_entry after repeat ≡ ok (n, after)
unfolding sql_post_entry
sql_post_entry-idempotent db cmd n after h repeat lines kind source =
    let (e, found, same_id) = source_found db cmd n after h in
    rw (kind, source, found, same_id) (ground arith)

none_unbalanced :
    (es : List Entry)
    → All IsBalanced es
    → select (λ e. not (sum_ℤ (map signed_minor e.lines) ==ℤ pos 0)) es ≡ []
none_unbalanced [] h = refl
none_unbalanced (e ∷ es) (b, h) = rw b.1 (none_unbalanced es h)

find-amount :
    (bs : List AccountBalance) (c : Identifier) (total balance : ℤ)
    → balance_row (find (λ b. b.account_id == c) bs) ≡ ok balance
    → Agrees (amount_at c bs) total
    → balance ≡ total
find-amount [] c total balance h a = cc
find-amount (b ∷ bs) c total balance h a = elim (Bool-cases (b.account_id == c)) [
  | inl here ↦
      let read : balance_row (some b) ≡ ok balance = rw here at h in
      let total_is : b.balance_minor ≡ total = rw here at a in
      let same : b.balance_minor ≡ balance = cc in sym same ∙ total_is
  | inr later ↦ find-amount bs c total balance (rw later at h) (rw later at a)
]

-- In sound books no entry is unbalanced, as `findUnbalancedEntries` looks for.
pub find_unbalanced_entries-IsSound : (db : Tables) → IsSound db → find_unbalanced_entries db ≡ []
unfolding find_unbalanced_entries
find_unbalanced_entries-IsSound db sound = ap (map (λ e. e.id)) (none_unbalanced db.entries sound.0)

-- In sound books the balance that `balanceOf` reads is the sum of the account's lines.
pub balance_of-IsSound :
    (db : Tables) (c : Identifier) (balance : ℤ)
    → IsSound db
    → balance_of db c ≡ ok balance
    → balance ≡ posted c db.entries
unfolding balance_of
balance_of-IsSound db c balance sound h =
    find-amount db.balances c (posted c db.entries) balance h (sound.2 c)
