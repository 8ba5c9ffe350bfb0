-- ===== src/Workspaces/History.antt =====
-- Any sequence of `tryCommit` and `release`, by whatever deals: each is one statement, so that concurrent
-- calls happen in some order.
use rayi.Prelude.{
  true, false, Option, some, [], ◌∷◌, ℕ, ◌≡◌, refl, sym, arith, inl, inr, Identifier, Text,
  Bool-cases, Option-cases, ℤ, pos, ◌+ℤ◌, ◌-ℤ◌, ltb_ℤ, leb_ℤ, ◌≤ℤ◌, int_laws, +ℤ_parts, -ℤ_parts,
  ok,
}
use rayi.Workspaces.{
  BudgetEnvelope, Envelopes, is_of, unexpired, increment, decrement, try_commit, release,
  to_envelope_view,
}
use rayi.Workspaces.Commit.{
  has_room, try_commit_exact, release_exact, row_of-with_row, with_row-IsTable, row_of-IsSolvent,
  increment-IsSolvent,
}
use rayi.Workspaces.Rows.{IsTable, row_of, with_row}
use rayi.Workspaces.Calls.{positive_part, increment-KeepsKey, room-fits}

-- What a call leaves of a row: its ceiling, and what it adds and takes accounted for.
abbrev Accounts : Identifier → Identifier → BudgetEnvelope → ℤ → ℤ → Envelopes → Type 0
Accounts org workspace e grown shrunk after =
    (f : BudgetEnvelope) × (row_of org workspace after ≡ some f)
    × (f.ceiling_minor ≡ e.ceiling_minor)
    × (e.committed_minor +ℤ grown ≤ℤ f.committed_minor +ℤ shrunk)

positive-part : (amount : ℤ) → leb_ℤ (pos 0) (positive_part amount) ≡ true
positive-part amount = ground arith

unchanged-row : (amount : ℤ) (e : BudgetEnvelope) → decrement amount (increment amount e) ≡ e
unchanged-row amount e =
    let back : e.committed_minor +ℤ amount -ℤ amount ≡ e.committed_minor = omega int_laws in
    rw back refl

with_row-back :
    (org workspace : Identifier) (amount : ℤ) (es : Envelopes)
    → with_row org workspace (decrement amount) (with_row org workspace (increment amount) es) ≡ es
with_row-back org workspace amount [] = refl
with_row-back org workspace amount (e ∷ es) = elim (Bool-cases (is_of org workspace e)) [
  | inl here ↦ rw (here, here, unchanged-row amount e, with_row-back org workspace amount es) refl
  | inr other ↦ rw (other, other, with_row-back org workspace amount es) refl
]

-- What `tryCommit` added, `release` takes back: a deal whose offer fails after its budget was committed
-- leaves the table as it was, whatever the amount.
pub release-try_commit :
    (org workspace : Identifier) (amount : ℤ) (now : ℕ) (es after : Envelopes)
    → IsTable es
    → try_commit org workspace amount now es ≡ ok (true, after)
    → release org workspace amount after ≡ ok es
unfolding try_commit release
release-try_commit org workspace amount now es after h answered =
    elim (Bool-cases (leb_ℤ amount (pos 0))) [
      | inl nothing ↦
          let t : ok (true, es) ≡ ok (true, after) = rw nothing at answered in rw nothing cc
      | inr some_amount ↦
          let positive : ltb_ℤ (pos 0) amount ≡ true = ground arith in
          let exact = try_commit_exact org workspace amount now es h positive in
          elim (Bool-cases (has_room amount now (row_of org workspace es))) [
            | inr full ↦
                let t : ok (false, es) ≡ ok (true, after) = rw (exact, full) at answered in cc
            | inl room ↦
                let t : ok (true, with_row org workspace (increment amount) es) ≡ ok (true, after) =
                  rw (exact, room) at answered in
                let is_after : with_row org workspace (increment amount) es ≡ after = cc in
                elim (Option-cases (row_of org workspace es)) [
                  | inl missing ↦ let none_room : false ≡ true = rw missing at room in cc
                  | inr (e, found) ↦
                      let v = row_of-IsSolvent org workspace es e h.1 found in
                      let fits = room-fits amount now (row_of org workspace es) e found room in
                      let there =
                        row_of-with_row org workspace (increment amount) (increment-KeepsKey amount)
                          es e found in
                      let table =
                        with_row-IsTable org workspace (increment amount)
                          (increment-KeepsKey amount) es h
                          (λ f here.
                            increment-IsSolvent amount f
                              (row_of-IsSolvent org workspace es f h.1 here) positive
                              (room-fits amount now (row_of org workspace es) f here room)) in
                      let back =
                        release_exact org workspace amount
                          (with_row org workspace (increment amount) es) table positive in
                      let parts = +ℤ_parts e.committed_minor amount in
                      let held : leb_ℤ amount (e.committed_minor +ℤ amount) ≡ true =
                        ground (arith, v.0) in
                      rw (sym is_after, back, there, held)
                        (rw (with_row-back org workspace amount es) refl)
                ]
          ]
    ]

-- What a view calls remaining is what can still be promised: on an envelope that has not expired
-- `tryCommit` accepts a positive amount if and only if it is at most the remaining one, which is never
-- negative, also not on a row whose ceiling is below what is committed.
pub remaining_exact :
    (amount : ℤ) (now : ℕ) (e : BudgetEnvelope) (email : Option Text)
    → unexpired e.expires_at now ≡ true
    → ltb_ℤ (pos 0) amount ≡ true
    → (has_room amount now (some e) ≡ leb_ℤ amount (to_envelope_view e email).remaining_minor)
      × (leb_ℤ (pos 0) (to_envelope_view e email).remaining_minor ≡ true)
unfolding to_envelope_view
remaining_exact amount now e email live positive =
    let sum = +ℤ_parts e.committed_minor amount in
    let difference = -ℤ_parts e.ceiling_minor e.committed_minor in (ground arith, ground arith)
