-- ===== src/Reviews/Undo.antt =====
-- What undoing an approval leaves.
use rayi.Prelude.{
  Bool, true, false, not, List, [], ◌∷◌, map, ℕ, suc, ◌≡◌, refl, sym, ◌∙◌, arith, inl, inr,
  Identifier, has, IsDistinct, ◌==◌, ==_refl, any, All, Bool-cases, not-false, ok, throw_if-ok,
}
use mathlib.Core.Path.{subst}
use rayi.Money.Allocate.Count.{ok-injective}
use rayi.Reviews.{
  Review, Deliverable, Tables, is_approval, is_live_approval, voided_row, unvoided, void_review,
  reopened_row, back_in_review, write_undo,
}
use rayi.Reviews.Approvals.{approvals, Agrees, IsConsistent, ids-map}

-- The row of a review is as it was read: a decision and what it is about never change.
abbrev pub Unchanged : Review → Review → Type 0
Unchanged review q =
    (q.id == review.id) ≡ true
    → (q.deliverable_id ≡ review.deliverable_id) × (is_approval q.decision ≡ true)

-- The tables keep the key of reviews, and the review as it was read.
abbrev pub HasReview : Review → List Review → Type 0
HasReview review rs = IsDistinct (map (λ r. r.id) rs) × All (Unchanged review) rs

voided-dead :
    (j actor : Identifier) (now : ℕ) (r : Review)
    → is_live_approval j (voided_row true actor now r) ≡ false
voided-dead j actor now r = ground arith

void-absent :
    (j i actor : Identifier) (now : ℕ) (rs : List Review)
    → has (map (λ r. r.id) rs) i ≡ false
    → approvals j (map (void_review i actor now) rs) ≡ approvals j rs
void-absent j i actor now [] h = refl
void-absent j i actor now (r ∷ rs) h =
    let other : unvoided i r ≡ false = ground arith in
    rw (other, void-absent j i actor now rs (ground arith)) refl

void_live :
    (b : Bool) (j actor : Identifier) (now : ℕ) (r : Review)
    → (b ≡ true → is_live_approval j r ≡ false)
    → is_live_approval j (voided_row b actor now r) ≡ is_live_approval j r
void_live true j actor now r h = voided-dead j actor now r ∙ sym (h refl)
void_live false j actor now r h = refl

-- Voiding a review changes nothing for the other deliverables.
void-other :
    (review : Review) (j actor : Identifier) (now : ℕ) (rs : List Review)
    → (review.deliverable_id == j) ≡ false
    → All (Unchanged review) rs
    → approvals j (map (void_review review.id actor now) rs) ≡ approvals j rs
void-other review j actor now [] n h = refl
void-other review j actor now (r ∷ rs) n h =
    let rest = void-other review j actor now rs n h.1 in
    let same = void_live (unvoided review.id r) j actor now r (λ u.
      let about = (h.0 (ground arith)).0 in
      let differs : (r.deliverable_id == j) ≡ false = rw about n in ground arith) in
    rw (same, rest) refl

-- And takes the one live approval from its own.
void-own :
    (review : Review) (actor : Identifier) (now : ℕ) (rs : List Review)
    → any (unvoided review.id) rs ≡ true
    → HasReview review rs
    → suc (approvals review.deliverable_id (map (void_review review.id actor now) rs))
      ≡ approvals review.deliverable_id rs
void-own review actor now [] a h = cc
void-own review actor now (r ∷ rs) a ((fresh, distinct), (unchanged, others)) =
    elim (Bool-cases (unvoided review.id r)) [
      | inl here ↦
          let key : r.id ≡ review.id = ground arith in
          let gone : has (map (λ q. q.id) rs) review.id ≡ false = rw key at fresh in
          let (about, approving) = unchanged (ground arith) in
          let live : is_live_approval review.deliverable_id r ≡ true =
            rw (about, approving, ==_refl review.deliverable_id) (ground arith) in
          let rest = void-absent review.deliverable_id review.id actor now rs gone in
          let dead = voided-dead review.deliverable_id actor now r in
          rw (here, live, rest) (ground (arith, dead))
      | inr other ↦
          let later : any (unvoided review.id) rs ≡ true = rw other at a in
          let rest = void-own review actor now rs later (distinct, others) in
          rw other (ground arith)
    ]

reopened_row-id : (b : Bool) (d : Deliverable) → (reopened_row b d).id ≡ d.id
reopened_row-id true d = refl
reopened_row-id false d = refl

reopened_row-Agrees :
    (b : Bool) (rs after : List Review) (d : Deliverable)
    → (b ≡ true → suc (approvals d.id after) ≡ approvals d.id rs)
    → (b ≡ false → approvals d.id after ≡ approvals d.id rs)
    → Agrees rs d
    → Agrees after (reopened_row b d)
reopened_row-Agrees true rs after d own other h =
    let fewer = own refl in (ground (arith, h.0), refl)
reopened_row-Agrees false rs after d own other h = (other refl ∙ h.0, h.1)

undo-Agrees :
    (review : Review) (actor : Identifier) (now : ℕ) (rs : List Review) (ds : List Deliverable)
    → any (unvoided review.id) rs ≡ true
    → HasReview review rs
    → All (Agrees rs) ds
    → All
        (Agrees (map (void_review review.id actor now) rs))
        (map (back_in_review review.deliverable_id) ds)
undo-Agrees review actor now rs [] a k h = tt
undo-Agrees review actor now rs (d ∷ ds) a k h = (
  reopened_row-Agrees (d.id == review.deliverable_id) rs (map (void_review review.id actor now) rs)
      d
      (λ own.
        let same : d.id ≡ review.deliverable_id = ground arith in
        rw same (void-own review actor now rs a k))
      (λ other. void-other review d.id actor now rs (ground arith) k.1) h.0,
  undo-Agrees review actor now rs ds a k h.1,
)

-- Undoing keeps the tables consistent too, where the review is as it was read.
pub write_undo-IsConsistent :
    (review : Review) (actor : Identifier) (now : ℕ) (db after : Tables)
    → write_undo review actor now db ≡ ok after
    → HasReview review db.reviews
    → IsConsistent db
    → IsConsistent after
unfolding write_undo
write_undo-IsConsistent review actor now db after h kept (distinct, agree) =
    let (there, h1) = throw_if-ok (not (any (unvoided review.id) db.reviews)) _ _ h in
    let rows =
      undo-Agrees review actor now db.reviews db.deliverables (not-false _ there) kept agree in
    let keys =
      ids-map (back_in_review review.deliverable_id)
        (λ d. reopened_row-id (d.id == review.deliverable_id) d) db.deliverables in
    subst IsConsistent (ok-injective h1) (rw keys distinct, rows)
