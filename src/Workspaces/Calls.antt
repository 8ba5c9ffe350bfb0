-- ===== src/Workspaces/Calls.antt =====
-- A call of `tryCommit` or `release` among others, and what it promises and gives back.
use rayi.Prelude.{
  Bool, true, false, ◌&&◌, Option, none, some, List, [], ◌∷◌, ℕ, ◌≡◌, refl, sym, arith, inl, inr,
  Identifier, ◌==◌, if◌then◌else◌, Bool-cases, ℤ, pos, ◌+ℤ◌, ltb_ℤ, leb_ℤ, Result, ok, err,
}
use rayi.Workspaces.{BudgetEnvelope, Envelopes, Check, increment, decrement, try_commit, release}
use rayi.Workspaces.Commit.{
  has_room, is_held, try_commit_exact, release_exact, KeepsKey, with_row-IsTable, row_of-IsSolvent,
  increment-IsSolvent, decrement-IsSolvent,
}
use rayi.Workspaces.Rows.{IsTable, row_of}

-- A call, at a time.
pub data Call : Type 0 where
  committing releasing : Identifier → Identifier → ℤ → ℕ → Call

abbrev pub committed_rows : Envelopes → Result Check (Bool × Envelopes) → Envelopes
committed_rows es (err c) = es
committed_rows es (ok (found, after)) = after

abbrev pub released_rows : Envelopes → Result Check Envelopes → Envelopes
released_rows es (err c) = es
released_rows es (ok after) = after

abbrev pub step : Call → Envelopes → Envelopes
step (committing org workspace amount now) es =
    committed_rows es (try_commit org workspace amount now es)
step (releasing org workspace amount now) es = released_rows es (release org workspace amount es)

abbrev is_promised : Result Check (Bool × Envelopes) → Bool
is_promised (err c) = false
is_promised (ok (found, after)) = found

abbrev pub positive_part : ℤ → ℤ
positive_part amount = if leb_ℤ amount (pos 0) then pos 0 else amount

-- What a call promises of the budget of a workspace: its amount, when `tryCommit` answers true.
abbrev pub promised_by : Identifier → Identifier → Call → Envelopes → ℤ
promised_by org workspace (committing org' workspace' amount now) es =
    if (org' == org && workspace' == workspace)
      && is_promised (try_commit org' workspace' amount now es)
    then positive_part amount
    else pos 0
promised_by org workspace (releasing org' workspace' amount now) es = pos 0

-- What a call asks to give back.
abbrev pub returned_by : Identifier → Identifier → Call → ℤ
returned_by org workspace (committing org' workspace' amount now) = pos 0
returned_by org workspace (releasing org' workspace' amount now) =
    if org' == org && workspace' == workspace then positive_part amount else pos 0

abbrev pub promised : Identifier → Identifier → List Call → Envelopes → ℤ
promised org workspace [] es = pos 0
promised org workspace (call ∷ calls) es =
    promised_by org workspace call es +ℤ promised org workspace calls (step call es)

abbrev pub returned : Identifier → Identifier → List Call → ℤ
returned org workspace [] = pos 0
returned org workspace (call ∷ calls) =
    returned_by org workspace call +ℤ returned org workspace calls

pub increment-KeepsKey : (amount : ℤ) → KeepsKey (increment amount)
increment-KeepsKey amount e = (refl, refl)

pub decrement-KeepsKey : (amount : ℤ) → KeepsKey (decrement amount)
decrement-KeepsKey amount e = (refl, refl)

pub room-fits :
    (amount : ℤ) (now : ℕ) (o : Option BudgetEnvelope) (e : BudgetEnvelope)
    → o ≡ some e
    → has_room amount now o ≡ true
    → leb_ℤ (e.committed_minor +ℤ amount) e.ceiling_minor ≡ true
room-fits amount now none e h room = cc
room-fits amount now (some r) e h room = let same : r ≡ e = cc in rw (sym same) (ground arith)

held-fits :
    (amount : ℤ) (o : Option BudgetEnvelope) (e : BudgetEnvelope)
    → o ≡ some e
    → is_held amount o ≡ true
    → leb_ℤ amount e.committed_minor ≡ true
held-fits amount none e h held = cc
held-fits amount (some r) e h held = let same : r ≡ e = cc in rw (sym same) held

-- A call keeps the constraints and never runs into them.
pub step-IsTable : (call : Call) (es : Envelopes) → IsTable es → IsTable (step call es)
unfolding try_commit release
step-IsTable (committing org workspace amount now) es h = elim (Bool-cases (leb_ℤ amount (pos 0))) [
  | inl nothing ↦ rw nothing h
  | inr some_amount ↦
      let positive : ltb_ℤ (pos 0) amount ≡ true = ground arith in
      let exact = try_commit_exact org workspace amount now es h positive in
      elim (Bool-cases (has_room amount now (row_of org workspace es))) [
        | inl room ↦
            rw (exact, room)
              (with_row-IsTable org workspace (increment amount) (increment-KeepsKey amount) es h
                (λ e found.
                  increment-IsSolvent amount e (row_of-IsSolvent org workspace es e h.1 found)
                    positive (room-fits amount now (row_of org workspace es) e found room)))
        | inr full ↦ rw (exact, full) h
      ]
]
step-IsTable (releasing org workspace amount now) es h = elim (Bool-cases (leb_ℤ amount (pos 0))) [
  | inl nothing ↦ rw nothing h
  | inr some_amount ↦
      let positive : ltb_ℤ (pos 0) amount ≡ true = ground arith in
      let exact = release_exact org workspace amount es h positive in
      elim (Bool-cases (is_held amount (row_of org workspace es))) [
        | inl held ↦
            rw (exact, held)
              (with_row-IsTable org workspace (decrement amount) (decrement-KeepsKey amount) es h
                (λ e found.
                  decrement-IsSolvent amount e (row_of-IsSolvent org workspace es e h.1 found)
                    positive (held-fits amount (row_of org workspace es) e found held)))
        | inr short ↦ rw (exact, short) h
      ]
]
