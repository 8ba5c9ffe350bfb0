-- ===== src/Workspaces/Commit.antt =====
-- What `tryCommit` and `release` do to a table that satisfies its constraints.
use rayi.Prelude.{
  Bool, true, false, ◌&&◌, Option, none, some, [], ◌∷◌, map, ℕ, ◌≡◌, refl, sym, arith, inl, inr,
  Identifier, has, IsDistinct, ◌==◌, if◌then◌else◌, any, All, Bool-cases, Option-cases, ℤ, pos,
  ◌+ℤ◌, ltb_ℤ, leb_ℤ, +ℤ_parts, -ℤ_parts, ok, err,
}
use rayi.Workspaces.{
  BudgetEnvelope, Envelopes, within_ceiling, check_row, is_of, unexpired, open_for, increment,
  decrement, try_commit, release,
}
use rayi.Workspaces.Rows.{
  IsSolvent, IsTable, no_other, with_row, with_row-none, row_of, row_of-none, update_missing,
  update_refused, update_accepted, update_violates,
}

pub row_of-IsSolvent :
    (org workspace : Identifier) (es : Envelopes) (e : BudgetEnvelope)
    → All IsSolvent es
    → row_of org workspace es ≡ some e
    → IsSolvent e
row_of-IsSolvent org workspace [] e h f = cc
row_of-IsSolvent org workspace (r ∷ es) e h f = elim (Bool-cases (is_of org workspace r)) [
  | inl here ↦ let t : some r ≡ some e = rw here at f in let same : r ≡ e = cc in rw (sym same) h.0
  | inr other ↦
      let t : row_of org workspace es ≡ some e = rw other at f in
      row_of-IsSolvent org workspace es e h.1 t
]

module _ (org workspace : Identifier) (now : ℕ) where
  any_none :
      (es : Envelopes)
      → All (λ e. is_of org workspace e ≡ false) es
      → any (open_for org workspace now) es ≡ false
  any_none [] h = refl
  any_none (r ∷ es) h = ground (arith, any_none es h.1)

  any_open :
      (es : Envelopes) (e : BudgetEnvelope)
      → IsDistinct (map (λ r. r.workspace_id) es)
      → row_of org workspace es ≡ some e
      → any (open_for org workspace now) es ≡ unexpired e.expires_at now
  any_open [] e d h = cc
  any_open (r ∷ es) e d h = elim (Bool-cases (is_of org workspace r)) [
    | inl here ↦
        let t : some r ≡ some e = rw here at h in
        let same : r ≡ e = cc in
        let owner : r.workspace_id ≡ workspace = ground arith in
        let key : has (map (λ q. q.workspace_id) es) workspace ≡ false = rw owner at d.0 in
        let rest = any_none es (no_other org workspace es key) in
        rw (here, rest, same) (ground arith)
    | inr other ↦
        let t : row_of org workspace es ≡ some e = rw other at h in rw other (any_open es e d.1 t)
  ]

-- Whether an envelope that has not expired has room for an amount; none is no room.
abbrev pub has_room : ℤ → ℕ → Option BudgetEnvelope → Bool
has_room amount now none = false
has_room amount now (some e) =
    unexpired e.expires_at now && leb_ℤ (e.committed_minor +ℤ amount) e.ceiling_minor

pub increment-IsSolvent :
    (amount : ℤ) (e : BudgetEnvelope)
    → IsSolvent e
    → ltb_ℤ (pos 0) amount ≡ true
    → leb_ℤ (e.committed_minor +ℤ amount) e.ceiling_minor ≡ true
    → IsSolvent (increment amount e)
increment-IsSolvent amount e v p h =
    let parts = +ℤ_parts e.committed_minor amount in (ground arith, h)

increment-violates :
    (amount : ℤ) (e : BudgetEnvelope)
    → IsSolvent e
    → ltb_ℤ (pos 0) amount ≡ true
    → leb_ℤ (e.committed_minor +ℤ amount) e.ceiling_minor ≡ false
    → check_row (increment amount e) ≡ err within_ceiling
increment-violates amount e v p h = let parts = +ℤ_parts e.committed_minor amount in ground arith

-- On a table that satisfies its constraints `tryCommit` of a positive amount never throws. It answers whether the workspace
-- has an envelope that has not expired and has room for the amount; then the amount is added to that
-- row, and otherwise nothing changes.
pub try_commit_exact :
    (org workspace : Identifier) (amount : ℤ) (now : ℕ) (es : Envelopes)
    → IsTable es
    → ltb_ℤ (pos 0) amount ≡ true
    → try_commit org workspace amount now es
      ≡ ok (
        has_room amount now (row_of org workspace es),
        if has_room amount now (row_of org workspace es)
            then with_row org workspace (increment amount) es
            else es,
      )
unfolding try_commit
try_commit_exact org workspace amount now es (d, valid) positive =
    let some_amount : leb_ℤ amount (pos 0) ≡ false = ground arith in
    elim (Option-cases (row_of org workspace es)) [
      | inl missing ↦
          let untouched =
            update_missing org workspace (λ e. unexpired e.expires_at now) (increment amount) es
              missing in
          let no_row = any_none org workspace now es (row_of-none org workspace es missing) in
          rw (some_amount, missing, no_row, untouched) refl
      | inr (e, found) ↦
          let v = row_of-IsSolvent org workspace es e valid found in
          let open_row = any_open org workspace now es e d found in
          elim (Bool-cases (unexpired e.expires_at now)) [
            | inr expired ↦
                let untouched =
                  update_refused org workspace (λ r. unexpired r.expires_at now) (increment amount)
                    es e d found expired in
                rw (some_amount, found, open_row, expired, untouched) refl
            | inl live ↦ elim (Bool-cases (leb_ℤ (e.committed_minor +ℤ amount) e.ceiling_minor)) [
              | inl room ↦
                  let changed =
                    update_accepted org workspace (λ r. unexpired r.expires_at now)
                      (increment amount) es e d found live
                      (increment-IsSolvent amount e v positive room) in
                  rw (some_amount, found, open_row, live, room, changed) refl
              | inr full ↦
                  let refused =
                    update_violates org workspace (λ r. unexpired r.expires_at now)
                      (increment amount) es e within_ceiling d found live
                      (increment-violates amount e v positive full) in
                  rw (some_amount, found, open_row, live, full, refused) refl
            ]
          ]
    ]

-- Whether `release` finds the amount in what is committed.
abbrev pub is_held : ℤ → Option BudgetEnvelope → Bool
is_held amount none = false
is_held amount (some e) = leb_ℤ amount e.committed_minor

pub decrement-IsSolvent :
    (amount : ℤ) (e : BudgetEnvelope)
    → IsSolvent e
    → ltb_ℤ (pos 0) amount ≡ true
    → leb_ℤ amount e.committed_minor ≡ true
    → IsSolvent (decrement amount e)
decrement-IsSolvent amount e v p h =
    let parts = -ℤ_parts e.committed_minor amount in (ground arith, ground arith)

-- On such a table `release` never throws: it takes the amount from what the workspace has committed, and
-- where that is less, changes nothing.
pub release_exact :
    (org workspace : Identifier) (amount : ℤ) (es : Envelopes)
    → IsTable es
    → ltb_ℤ (pos 0) amount ≡ true
    → release org workspace amount es
      ≡ ok (
          if is_held amount (row_of org workspace es)
          then with_row org workspace (decrement amount) es
          else es)
unfolding release
release_exact org workspace amount es (d, valid) positive =
    let some_amount : leb_ℤ amount (pos 0) ≡ false = ground arith in
    elim (Option-cases (row_of org workspace es)) [
      | inl missing ↦
          let untouched =
            update_missing org workspace (λ e. leb_ℤ amount e.committed_minor) (decrement amount) es
              missing in
          rw (some_amount, missing, untouched) refl
      | inr (e, found) ↦
          let v = row_of-IsSolvent org workspace es e valid found in
          elim (Bool-cases (leb_ℤ amount e.committed_minor)) [
            | inl held ↦
                let changed =
                  update_accepted org workspace (λ r. leb_ℤ amount r.committed_minor)
                    (decrement amount) es e d found held
                    (decrement-IsSolvent amount e v positive held) in
                rw (some_amount, found, held, changed) refl
            | inr short ↦
                let untouched =
                  update_refused org workspace (λ r. leb_ℤ amount r.committed_minor)
                    (decrement amount) es e d found short in
                rw (some_amount, found, short, untouched) refl
          ]
    ]

-- A change that leaves the key as it is.
abbrev pub KeepsKey : (BudgetEnvelope → BudgetEnvelope) → Type 0
KeepsKey change =
    (e : BudgetEnvelope)
    → ((change e).workspace_id ≡ e.workspace_id) × ((change e).organization_id ≡ e.organization_id)

module _ (org workspace : Identifier) (change : BudgetEnvelope → BudgetEnvelope)
    (keeps : KeepsKey change) where
  pub keys-with_row :
      (es : Envelopes)
      → map (λ e. e.workspace_id) (with_row org workspace change es) ≡ map (λ e. e.workspace_id) es
  keys-with_row [] = refl
  keys-with_row (e ∷ es) = elim (Bool-cases (is_of org workspace e)) [
    | inl here ↦ rw (here, (keeps e).0, keys-with_row es) refl
    | inr other ↦ rw (other, keys-with_row es) refl
  ]

  pub row_of-with_row :
      (es : Envelopes) (e : BudgetEnvelope)
      → row_of org workspace es ≡ some e
      → row_of org workspace (with_row org workspace change es) ≡ some (change e)
  row_of-with_row [] e h = cc
  row_of-with_row (r ∷ es) e h = elim (Bool-cases (is_of org workspace r)) [
    | inl here ↦
        let t : some r ≡ some e = rw here at h in
        let same : r ≡ e = cc in
        let still : is_of org workspace (change r) ≡ true = rw ((keeps r).0, (keeps r).1) here in
        rw (here, still, same) refl
    | inr other ↦
        let t : row_of org workspace es ≡ some e = rw other at h in
        rw (other, other) (row_of-with_row es e t)
  ]

  -- A row of another workspace is as it was.
  pub row_of-other :
      (org' workspace' : Identifier) (es : Envelopes)
      → (org == org' && workspace == workspace') ≡ false
      → row_of org' workspace' (with_row org workspace change es) ≡ row_of org' workspace' es
  row_of-other org' workspace' [] n = refl
  row_of-other org' workspace' (r ∷ es) n = elim (Bool-cases (is_of org workspace r)) [
    | inl here ↦
        let not_there : is_of org' workspace' r ≡ false = ground arith in
        let still : is_of org' workspace' (change r) ≡ false =
          rw ((keeps r).0, (keeps r).1) not_there in
        rw (here, not_there, still) (row_of-other org' workspace' es n)
    | inr other ↦ rw (other, row_of-other org' workspace' es n) refl
  ]

  All-with_row :
      (es : Envelopes)
      → All IsSolvent es
      → ((e : BudgetEnvelope) → row_of org workspace es ≡ some e → IsSolvent (change e))
      → IsDistinct (map (λ e. e.workspace_id) es)
      → All IsSolvent (with_row org workspace change es)
  All-with_row [] h v d = tt
  All-with_row (r ∷ es) h v d = elim (Bool-cases (is_of org workspace r)) [
    | inl here ↦
        let owner : r.workspace_id ≡ workspace = ground arith in
        let key : has (map (λ q. q.workspace_id) es) workspace ≡ false = rw owner at d.0 in
        rw (here, with_row-none org workspace change es (no_other org workspace es key))
          (v r (rw here refl), h.1)
    | inr other ↦ rw other (h.0, All-with_row es h.1 (λ e found. v e (rw other found)) d.1)
  ]

  pub with_row-IsTable :
      (es : Envelopes)
      → IsTable es
      → ((e : BudgetEnvelope) → row_of org workspace es ≡ some e → IsSolvent (change e))
      → IsTable (with_row org workspace change es)
  with_row-IsTable es (d, valid) v = (rw (keys-with_row es) d, All-with_row es valid v d)
