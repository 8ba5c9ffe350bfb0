-- ===== src/Workspaces/Rows.antt =====
-- A statement on the one row of `budget_envelope` that a workspace has.
use rayi.Prelude.{
  Bool, true, false, ◌&&◌, Option, none, some, [], ◌∷◌, map, ◌≡◌, refl, arith, inl, inr, Identifier,
  has, IsDistinct, if◌then◌else◌, find, All, Bool-cases, pos, ltb_ℤ, leb_ℤ, ok, err,
}
use rayi.Workspaces.{
  BudgetEnvelope, Envelopes, Check, non_negative, within_ceiling, check_row, update_many, is_of,
}

-- What the constraints of the table promise of a row.
abbrev pub IsSolvent : BudgetEnvelope → Type 0
IsSolvent e =
    (leb_ℤ (pos 0) e.committed_minor ≡ true) × (leb_ℤ e.committed_minor e.ceiling_minor ≡ true)

-- What they and the unique key promise of the table.
abbrev pub IsTable : Envelopes → Type 0
IsTable es = IsDistinct (map (λ e. e.workspace_id) es) × All IsSolvent es

check_row-solvent : (e : BudgetEnvelope) → IsSolvent e → check_row e ≡ ok e
check_row-solvent e h = ground arith

pub check_row-ok : (e f : BudgetEnvelope) → check_row e ≡ ok f → (e ≡ f) × IsSolvent e
check_row-ok e f h =
    elim (Bool-cases (leb_ℤ (pos 0) e.ceiling_minor && leb_ℤ (pos 0) e.committed_minor)) [
      | inl fine ↦ elim (Bool-cases (ltb_ℤ e.ceiling_minor e.committed_minor)) [
        | inl over ↦ let t : err within_ceiling ≡ ok f = rw (fine, over) at h in cc
        | inr under ↦ let t : ok e ≡ ok f = rw (fine, under) at h in (cc, ground arith)
      ]
      | inr negative ↦ let t : err non_negative ≡ ok f = rw negative at h in cc
    ]

-- A row of another workspace is no row of this one.
pub no_other :
    (org workspace : Identifier) (es : Envelopes)
    → has (map (λ e. e.workspace_id) es) workspace ≡ false
    → All (λ e. is_of org workspace e ≡ false) es
no_other org workspace [] h = tt
no_other org workspace (e ∷ es) h = (ground arith, no_other org workspace es (ground arith))

-- A statement that finds no row changes none.
update_many-none :
    (holds : BudgetEnvelope → Bool) (change : BudgetEnvelope → BudgetEnvelope) (es : Envelopes)
    → All (λ e. holds e ≡ false) es
    → update_many holds change es ≡ ok es
unfolding update_many
update_many-none holds change [] h = refl
update_many-none holds change (e ∷ es) h = rw (h.0, update_many-none holds change es h.1) refl

-- The row of a workspace, changed.
abbrev pub with_row :
    Identifier → Identifier → (BudgetEnvelope → BudgetEnvelope) → Envelopes → Envelopes
with_row org workspace change es = map (λ e. if is_of org workspace e then change e else e) es

pub with_row-none :
    (org workspace : Identifier) (change : BudgetEnvelope → BudgetEnvelope) (es : Envelopes)
    → All (λ e. is_of org workspace e ≡ false) es
    → with_row org workspace change es ≡ es
with_row-none org workspace change [] h = refl
with_row-none org workspace change (e ∷ es) h =
    rw (h.0, with_row-none org workspace change es h.1) refl

abbrev pub row_of : Identifier → Identifier → Envelopes → Option BudgetEnvelope
row_of org workspace es = find (is_of org workspace) es

pub row_of-none :
    (org workspace : Identifier) (es : Envelopes)
    → row_of org workspace es ≡ none
    → All (λ e. is_of org workspace e ≡ false) es
row_of-none org workspace [] h = tt
row_of-none org workspace (e ∷ es) h = elim (Bool-cases (is_of org workspace e)) [
  | inl here ↦ let t : some e ≡ none = rw here at h in cc
  | inr other ↦
      let t : row_of org workspace es ≡ none = rw other at h in
      (other, row_of-none org workspace es t)
]

module _ (org workspace : Identifier) (more : BudgetEnvelope → Bool)
    (change : BudgetEnvelope → BudgetEnvelope) where
  abbrev pub chosen : BudgetEnvelope → Bool
  chosen e = is_of org workspace e && more e

  unchosen :
      (es : Envelopes)
      → All (λ e. is_of org workspace e ≡ false) es
      → All (λ e. chosen e ≡ false) es
  unchosen [] h = tt
  unchosen (e ∷ es) h = (ground arith, unchosen es h.1)

  pub update_missing :
      (es : Envelopes) → row_of org workspace es ≡ none → update_many chosen change es ≡ ok es
  update_missing es h =
      update_many-none chosen change es (unchosen es (row_of-none org workspace es h))

  -- A statement on the one row of a workspace, whose condition fails.
  pub update_refused :
      (es : Envelopes) (e : BudgetEnvelope)
      → IsDistinct (map (λ r. r.workspace_id) es)
      → row_of org workspace es ≡ some e
      → more e ≡ false
      → update_many chosen change es ≡ ok es
  unfolding update_many
  update_refused [] e d h m = cc
  update_refused (r ∷ es) e d h m = elim (Bool-cases (is_of org workspace r)) [
    | inl here ↦
        let t : some r ≡ some e = rw here at h in
        let same : r ≡ e = cc in
        let owner : r.workspace_id ≡ workspace = ground arith in
        let key : has (map (λ q. q.workspace_id) es) workspace ≡ false = rw owner at d.0 in
        let rest =
          update_many-none chosen change es (unchosen es (no_other org workspace es key)) in
        let no : more r ≡ false = rw same m in rw (here, no, rest) refl
    | inr other ↦
        let t : row_of org workspace es ≡ some e = rw other at h in
        rw (other, update_refused es e d.1 t m) refl
  ]

  -- Whose condition holds, and whose new row satisfies the constraints.
  pub update_accepted :
      (es : Envelopes) (e : BudgetEnvelope)
      → IsDistinct (map (λ r. r.workspace_id) es)
      → row_of org workspace es ≡ some e
      → more e ≡ true
      → IsSolvent (change e)
      → update_many chosen change es ≡ ok (with_row org workspace change es)
  unfolding update_many
  update_accepted [] e d h m v = cc
  update_accepted (r ∷ es) e d h m v = elim (Bool-cases (is_of org workspace r)) [
    | inl here ↦
        let t : some r ≡ some e = rw here at h in
        let same : r ≡ e = cc in
        let owner : r.workspace_id ≡ workspace = ground arith in
        let key : has (map (λ q. q.workspace_id) es) workspace ≡ false = rw owner at d.0 in
        let others = no_other org workspace es key in
        let rest = update_many-none chosen change es (unchosen es others) in
        let yes_more : more r ≡ true = rw same m in
        let checked : check_row (change r) ≡ ok (change r) =
          rw same (check_row-solvent (change e) v) in
        rw (here, yes_more, rest, checked, with_row-none org workspace change es others) refl
    | inr other ↦
        let t : row_of org workspace es ≡ some e = rw other at h in
        rw (other, update_accepted es e d.1 t m v) refl
  ]

  -- And whose new row violates one.
  pub update_violates :
      (es : Envelopes) (e : BudgetEnvelope) (c : Check)
      → IsDistinct (map (λ r. r.workspace_id) es)
      → row_of org workspace es ≡ some e
      → more e ≡ true
      → check_row (change e) ≡ err c
      → update_many chosen change es ≡ err c
  unfolding update_many
  update_violates [] e c d h m v = cc
  update_violates (r ∷ es) e c d h m v = elim (Bool-cases (is_of org workspace r)) [
    | inl here ↦
        let t : some r ≡ some e = rw here at h in
        let same : r ≡ e = cc in
        let yes_more : more r ≡ true = rw same m in
        let checked : check_row (change r) ≡ err c = rw same v in rw (here, yes_more, checked) refl
    | inr other ↦
        let t : row_of org workspace es ≡ some e = rw other at h in
        rw (other, update_violates es e c d.1 t m v) refl
  ]
