-- ===== src/Reviews/Approvals.antt =====
-- One live approval for each approved deliverable, and none for any other.
use rayi.Prelude.{
  Bool, true, false, not, ◌&&◌, List, [], ◌∷◌, map, ℕ, suc, ◌≡◌, refl, sym, ◌∙◌, arith, inl, inr,
  Identifier, has, IsDistinct, is_some, ◌==◌, ==_refl, if◌then◌else◌, any, All, Bool-cases,
  not-false, ok, throw_if-ok,
}
use mathlib.Core.Path.{subst}
use rayi.Money.Allocate.Count.{ok-injective}
use rayi.Deals.{is_approved}
use rayi.Reviews.{
  Review, Deliverable, Tables, human, approval, changes, is_live_approval, as_read, approved_row,
  approve_row, changed_row, change_row, set_approved, write_approval, new_review, set_changes,
  write_changes, ActorKind,
}

-- The live approvals of a deliverable.
abbrev pub approvals : Identifier → List Review → ℕ
approvals deliverable [] = 0
approvals deliverable (r ∷ rs) =
    if is_live_approval deliverable r
    then suc (approvals deliverable rs)
    else approvals deliverable rs

-- A row agrees with its reviews, and with the constraint on its date.
abbrev pub Agrees : List Review → Deliverable → Type 0
Agrees rs d =
    (approvals d.id rs ≡ (if is_approved d.state then 1 else 0))
    × (is_some d.approved_at ≡ is_approved d.state)

abbrev pub IsConsistent : Tables → Type 0
IsConsistent db =
    IsDistinct (map (λ d. d.id) db.deliverables) × All (Agrees db.reviews) db.deliverables

no_approval_yet :
    (j : Identifier) (rs : List Review) → any (is_live_approval j) rs ≡ false → approvals j rs ≡ 0
no_approval_yet j [] h = refl
no_approval_yet j (r ∷ rs) h = ground (arith, no_approval_yet j rs)

pub ids-map :
    (f : Deliverable → Deliverable)
    → ((d : Deliverable) → (f d).id ≡ d.id)
    → (ds : List Deliverable) → map (λ d. d.id) (map f ds) ≡ map (λ d. d.id) ds
ids-map f keeps [] = refl
ids-map f keeps (d ∷ ds) = rw (keeps d, ids-map f keeps ds) refl

true_not_false : true ≡ false → ⊥
true_not_false h = cc

-- No row of a list without a key has it.
rest_differ :
    (read : Deliverable) (ds : List Deliverable)
    → has (map (λ d. d.id) ds) read.id ≡ false
    → All (λ d. as_read read d ≡ false → (d.id == read.id) ≡ false) ds
rest_differ read [] h = tt
rest_differ read (d ∷ ds) h =
    let k : (d.id == read.id) ≡ false = ground arith in (λ n. k, rest_differ read ds (ground arith))

key_differs :
    (d read : Deliverable) (ds : List Deliverable)
    → has (map (λ e. e.id) ds) d.id ≡ false
    → has (map (λ e. e.id) ds) read.id ≡ true
    → (d.id == read.id) ≡ false
key_differs d read ds gone there = elim (Bool-cases (d.id == read.id)) [
  | inr other ↦ other
  | inl same ↦
      let e : d.id ≡ read.id = ground arith in
      let t : has (map (λ q. q.id) ds) read.id ≡ false = rw e at gone in
      absurd (true_not_false (sym there ∙ t))
]

approved_row-id : (b : Bool) (now : ℕ) (d : Deliverable) → (approved_row b now d).id ≡ d.id
approved_row-id true now d = refl
approved_row-id false now d = refl

changed_row-id : (b : Bool) (d : Deliverable) → (changed_row b d).id ≡ d.id
changed_row-id true d = refl
changed_row-id false d = refl

found-has :
    (read : Deliverable) (ds : List Deliverable)
    → any (as_read read) ds ≡ true
    → has (map (λ d. d.id) ds) read.id ≡ true
found-has read [] h = cc
found-has read (d ∷ ds) h = ground (arith, found-has read ds)

-- The row that was read, if it is still there, is the only one with its key.
only_row :
    (read : Deliverable) (ds : List Deliverable)
    → IsDistinct (map (λ d. d.id) ds)
    → any (as_read read) ds ≡ true
    → All (λ d. as_read read d ≡ false → (d.id == read.id) ≡ false) ds
only_row read [] h a = tt
only_row read (d ∷ ds) h a = elim (Bool-cases (as_read read d)) [
  | inl here ↦
      let same : d.id ≡ read.id = ground arith in
      let gone : has (map (λ e. e.id) ds) read.id ≡ false = rw same at h.0 in
      (λ n. absurd (true_not_false (sym here ∙ n)), rest_differ read ds gone)
  | inr other ↦
      let later : any (as_read read) ds ≡ true = rw other at a in
      let there = found-has read ds later in
      (λ n. key_differs d read ds h.0 there, only_row read ds h.1 later)
]

approved_row-Agrees :
    (b : Bool) (review : Review) (now : ℕ) (rs : List Review) (d : Deliverable)
    → is_live_approval d.id review ≡ b
    → (b ≡ true → approvals d.id rs ≡ 0)
    → Agrees rs d
    → Agrees (review ∷ rs) (approved_row b now d)
approved_row-Agrees true review now rs d live free h = (rw (live, free refl) refl, refl)
approved_row-Agrees false review now rs d other free h = (rw other h.0, h.1)

approve-Agrees :
    (read : Deliverable) (review : Review) (now : ℕ) (rs : List Review) (ds : List Deliverable)
    → review.deliverable_id ≡ read.id
    → is_live_approval read.id review ≡ true
    → approvals read.id rs ≡ 0
    → All (λ d. as_read read d ≡ false → (d.id == read.id) ≡ false) ds
    → All (Agrees rs) ds
    → All (Agrees (review ∷ rs)) (set_approved read now ds)
approve-Agrees read review now rs [] of_read live free only h = tt
approve-Agrees read review now rs (d ∷ ds) of_read live free only h =
    let rest = approve-Agrees read review now rs ds of_read live free only.1 h.1 in
    let (his, none_yet) =
      elim (Bool-cases (as_read read d))
        as (λ x.
          (is_live_approval d.id review ≡ as_read read d)
          × (as_read read d ≡ true → approvals d.id rs ≡ 0)) [
            | inl here ↦
                let same : d.id ≡ read.id = ground arith in
                let live_here : is_live_approval d.id review ≡ true = rw same live in
                (live_here ∙ sym here, λ t. rw same free)
            | inr other ↦
                let differs = only.0 other in
                let not_his : is_live_approval d.id review ≡ false = rw of_read (ground arith) in
                (not_his ∙ sym other, λ t. absurd (true_not_false (sym t ∙ other)))
          ] in
    (approved_row-Agrees (as_read read d) review now rs d his none_yet h.0, rest)

-- An approval that is written keeps the tables consistent, where they were: each approved deliverable has
-- exactly one live approval and every other has none, and just the approved ones have a date of approval.
pub write_approval-IsConsistent :
    (read : Deliverable) (id submission actor : Identifier) (kind : ActorKind) (now : ℕ)
    (db after : Tables)
    → write_approval read (new_review id submission read.id approval kind actor now) now db
      ≡ ok after
    → IsConsistent db
    → IsConsistent after
unfolding write_approval
write_approval-IsConsistent read id submission actor kind now db after h (distinct, agree) =
    let review = new_review id submission read.id approval kind actor now in
    let (free, h1) = throw_if-ok (any (is_live_approval read.id) db.reviews) _ _ h in
    let (there, h2) = throw_if-ok (not (any (as_read read) db.deliverables)) _ _ h1 in
    let live : is_live_approval read.id review ≡ true = rw (==_refl read.id) refl in
    let rows =
      approve-Agrees read review now db.reviews db.deliverables refl live
        (no_approval_yet read.id db.reviews free)
        (only_row read db.deliverables distinct (not-false _ there)) agree in
    let keys =
      ids-map (approve_row read now) (λ d. approved_row-id (as_read read d) now d)
        db.deliverables in
    subst IsConsistent (ok-injective h2) (rw keys distinct, rows)

changed_row-Agrees :
    (b : Bool) (review : Review) (rs : List Review) (d : Deliverable)
    → is_live_approval d.id review ≡ false
    → (b ≡ true → is_some d.approved_at ≡ false)
    → Agrees rs d
    → Agrees (review ∷ rs) (changed_row b d)
changed_row-Agrees true review rs d other free h =
    let dated = free refl in
    let open_state : is_approved d.state ≡ false = sym h.1 ∙ dated in
    let none_yet : approvals d.id rs ≡ 0 = h.0 ∙ rw open_state refl in (rw other none_yet, dated)
changed_row-Agrees false review rs d other free h = (rw other h.0, h.1)

changes-Agrees :
    (read : Deliverable) (review : Review) (rs : List Review) (ds : List Deliverable)
    → ((i : Identifier) → is_live_approval i review ≡ false)
    → any (λ d. as_read read d && is_some d.approved_at) ds ≡ false
    → All (Agrees rs) ds
    → All (Agrees (review ∷ rs)) (set_changes read ds)
changes-Agrees read review rs [] other free h = tt
changes-Agrees read review rs (d ∷ ds) other free h = (
  changed_row-Agrees (as_read read d) review rs d (other d.id) (λ here. ground arith) h.0,
  changes-Agrees read review rs ds other (ground arith) h.1,
)

-- So does a request for changes, which cannot be written on a deliverable that is approved.
pub write_changes-IsConsistent :
    (read : Deliverable) (id submission actor : Identifier) (now : ℕ) (db after : Tables)
    → write_changes read (new_review id submission read.id changes human actor now) db ≡ ok after
    → IsConsistent db
    → IsConsistent after
unfolding write_changes
write_changes-IsConsistent read id submission actor now db after h (distinct, agree) =
    let review = new_review id submission read.id changes human actor now in
    let (free, h1) =
      throw_if-ok (any (λ d. as_read read d && is_some d.approved_at) db.deliverables) _ _ h in
    let rows =
      changes-Agrees read review db.reviews db.deliverables (λ i. ground arith) free agree in
    let keys = ids-map (change_row read) (λ d. changed_row-id (as_read read d) d) db.deliverables in
    subst IsConsistent (ok-injective h1) (rw keys distinct, rows)
