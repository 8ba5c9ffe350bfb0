-- ===== src/Ledger/Sources.antt =====
-- The unique index `entry_source_key`: a source has at most one entry.
use rayi.Prelude.{
  Bool, Option, none, some, List, [], ◌∷◌, ◌≤◌, Identifier, Text, text_eq→eq, ==_iff, ltb, length,
  select, find, Result, ok, err, throw_if-ok, ◌≡◌, refl, sym, arith, inl, inr, Bool-cases,
  Option-cases,
}
use rayi.Ledger.SqlState.{Error}
use rayi.Ledger.{
  Tables, Entry, Session, PostEntryCommand, same_source, existing_or_new, insert_entry,
  sql_post_entry, post_entry,
}
use rayi.Ledger.Books.{insert_entry-booked, new_entry}
use rayi.Ledger.Posting.{IsOutcome, post_entry_all_or_nothing}

abbrev pub entries_of : Text → Identifier → Tables → List Entry
entries_of kind source db = select (same_source kind source) db.entries

-- Every source has at most one entry.
abbrev pub IsOnce : Tables → Type 0
IsOnce db = (kind : Text) (source : Identifier) → length (entries_of kind source db) ≤ 1

select-none : (p : Entry → Bool) (es : List Entry) → find p es ≡ none → length (select p es) ≡ 0
select-none p [] h = refl
select-none p (e ∷ es) h = ground (arith, select-none p es)

insert-IsOnce :
    (db : Tables) (e : Entry)
    → find (same_source e.source_type e.source_id) db.entries ≡ none
    → IsOnce db
    → (kind : Text) (source : Identifier)
    → length (select (same_source kind source) (e ∷ db.entries)) ≤ 1
insert-IsOnce db e absent h kind source = elim (Bool-cases (same_source kind source e)) [
  | inr other ↦ rw other (h kind source)
  | inl same ↦
      let kinds : e.source_type ≡ kind = text_eq→eq e.source_type kind (ground arith) in
      let sources : e.source_id ≡ source = (==_iff e.source_id source).0 (ground arith) in
      let none_yet =
        select-none (same_source kind source) db.entries (rw (kinds, sources) at absent) in
      rw same (omega (arith, none_yet))
]

-- A posting that the database accepts leaves every source with at most one entry.
pub sql_post_entry-IsOnce :
    (db : Tables) (cmd : PostEntryCommand) (n : Identifier) (after : Tables)
    → sql_post_entry db cmd ≡ ok (n, after)
    → IsOnce db
    → IsOnce after
unfolding sql_post_entry
sql_post_entry-IsOnce db cmd n after h once =
    let (two, found) = throw_if-ok (ltb (length cmd.lines) 2) _ _ h in
    elim (Option-cases (find (same_source cmd.source_type cmd.source_id) db.entries)) [
      | inl absent ↦
          let t : insert_entry db cmd ≡ ok (n, after) = rw absent at found in
          let (moved, q, even, _, e) = insert_entry-booked db cmd n after t in
          rw e (insert-IsOnce db (new_entry db cmd) absent once)
      | inr (old, e) ↦
          let t : existing_or_new db cmd (some old) ≡ ok (n, after) = rw e at found in
          let same : db ≡ after = cc in rw (sym same) once
    ]

outcome-IsOnce :
    (cmd : PostEntryCommand) (s after : Session) (out : Result (Option Error) Identifier)
    → IsOutcome cmd s after out
    → IsOnce s.db
    → IsOnce after.db
outcome-IsOnce cmd s after (ok n) h once = sql_post_entry-IsOnce s.db cmd n after.db h once
outcome-IsOnce cmd s after (err e) h once = rw h once

pub post_entry-IsOnce :
    (cmd : PostEntryCommand) (s : Session) → IsOnce s.db → IsOnce ((post_entry cmd s).1).db
post_entry-IsOnce cmd s once =
    outcome-IsOnce cmd s ((post_entry cmd s).1) _ (post_entry_all_or_nothing cmd s) once
