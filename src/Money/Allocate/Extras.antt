-- ===== src/Money/Allocate/Extras.antt =====
-- Which parts get one of the leftover units in packages/domain/src/money/money.ts: at most one each,
-- none where the remainder is 0, the larger remainder first and the earlier index first among equals.
use rayi.Prelude.{
  ℕ, zero, suc, ◌+◌, ◌*◌, ◌≤◌, ◌<◌, ◌≡◌, refl, true, false, List, [], ◌∷◌, map, arith, sum, length,
  take, All, ◌==◌, if◌then◌else◌, Bool-cases, inl, inr,
}
use rayi.Prelude.Sorting.{IsSorted}
use rayi.Money.Allocate.{Remainder, not_behind, increment, hand_out}
use rayi.Money.Allocate.Shares.{remainders_sum}

-- An entry of a list of shares, 0 out of range.
abbrev pub share_at : ℕ → List ℕ → ℕ
share_at i [] = 0
share_at zero (s ∷ ss) = s
share_at (suc i) (s ∷ ss) = share_at i ss

abbrev pub hits : ℕ → Remainder → ℕ
hits i r = if r.index == i then 1 else 0

-- A hit whose remainder is not 0.
abbrev pub live_hits : ℕ → Remainder → ℕ
live_hits i r = if r.index == i then (if r.remainder == 0 then 0 else 1) else 0

abbrev pub count_of : ℕ → List Remainder → ℕ
count_of i rs = sum (map (hits i) rs)

abbrev pub live_count : ℕ → List Remainder → ℕ
live_count i rs = sum (map (live_hits i) rs)

share_at-increment :
    (i j : ℕ) (ss : List ℕ)
    → i < length ss
    → share_at i (increment j ss) ≡ share_at i ss + (if j == i then 1 else 0)
share_at-increment i j [] h = absurd (omega arith)
share_at-increment zero zero (s ∷ ss) h = refl
share_at-increment zero (suc j) (s ∷ ss) h = ground arith
share_at-increment (suc i) zero (s ∷ ss) h = ground arith
share_at-increment (suc i) (suc j) (s ∷ ss) h = ground (arith, share_at-increment i j ss)

length-increment : (i : ℕ) (ss : List ℕ) → length (increment i ss) ≡ length ss
length-increment i [] = refl
length-increment zero (s ∷ ss) = refl
length-increment (suc i) (s ∷ ss) = omega (arith, length-increment i ss)

-- A part is its floor share and as many units as its index is among the first `k` remainders.
pub share_at-hand_out :
    (i k : ℕ) (rs : List Remainder) (ss : List ℕ)
    → i < length ss
    → share_at i (hand_out k rs ss) ≡ share_at i ss + count_of i (take k rs)
unfolding hand_out
share_at-hand_out i zero rs ss h = omega arith
share_at-hand_out i (suc k) [] ss h = omega arith
share_at-hand_out i (suc k) (r ∷ rs) ss h = omega (
  arith,
  share_at-hand_out i k rs (increment r.index ss) (omega (arith, length-increment r.index ss)),
  share_at-increment i r.index ss h,
)

-- A list that is sorted by the comparator, whose head has remainder 0, has remainders 0 only.
zero_tail :
    (r : Remainder) (rs : List Remainder)
    → r.remainder ≡ 0
    → All (λ s. not_behind r s ≡ true) rs
    → remainders_sum rs ≡ 0
unfolding not_behind
zero_tail r [] z h = refl
zero_tail r (s ∷ rs) z h = ground (arith, zero_tail r rs z h.1)

-- The first `k` remainders are not 0 where all sum to `k` times a bound on each.
pub taken_positive :
    (W k : ℕ) (rs : List Remainder)
    → IsSorted not_behind rs
    → All (λ r. r.remainder < W) rs
    → 0 < W
    → k * W ≤ remainders_sum rs
    → All (λ r. 0 < r.remainder) (take k rs)
taken_positive W zero rs s b p h = tt
taken_positive W (suc k) [] s b p h = tt
taken_positive W (suc k) (r ∷ rs) s b p h =
    (ground (arith, zero_tail r rs), taken_positive W k rs s.1 b.1 p (omega arith))

pub count_le_live :
    (i k : ℕ) (rs : List Remainder)
    → All (λ r. 0 < r.remainder) (take k rs)
    → count_of i (take k rs) ≤ live_count i rs
count_le_live i zero rs h = omega arith
count_le_live i (suc k) [] h = omega arith
count_le_live i (suc k) (r ∷ rs) h = ground (arith, count_le_live i k rs h.1)

count_take_le : (i k : ℕ) (rs : List Remainder) → count_of i (take k rs) ≤ count_of i rs
count_take_le i zero rs = omega arith
count_take_le i (suc k) [] = omega arith
count_take_le i (suc k) (r ∷ rs) = omega (arith, count_take_le i k rs)

-- The index `i` is on the list only with the remainder `v`.
abbrev pub Tagged : ℕ → ℕ → List Remainder → Type 0
Tagged i v = All (λ r. r.index ≡ i → r.remainder ≡ v)

absent_behind :
    (x : Remainder) (i v : ℕ) (rs : List Remainder)
    → not_behind x (record { index = i; remainder = v }) ≡ false
    → Tagged i v rs
    → All (λ s. not_behind x s ≡ true) rs
    → count_of i rs ≡ 0
unfolding not_behind
absent_behind x i v [] b t h = refl
absent_behind x i v (s ∷ rs) b t h = ground (arith, t.0, absent_behind x i v rs b t.1 h.1)

not_behind_same :
    (x y : Remainder) (j v : ℕ)
    → x.index ≡ j
    → x.remainder ≡ v
    → not_behind (record { index = j; remainder = v }) y ≡ false
    → not_behind x y ≡ false
unfolding not_behind
not_behind_same x y j v e f h = ground arith

-- Of two indices the one that the comparator puts first is among the first `k` if the other is.
pub count_order :
    (i j u v k : ℕ) (rs : List Remainder)
    → not_behind (record { index = j; remainder = v }) (record { index = i; remainder = u }) ≡ false
    → IsSorted not_behind rs
    → Tagged i u rs
    → Tagged j v rs
    → count_of i rs ≡ 1
    → count_of j rs ≡ 1
    → count_of j (take k rs) ≤ count_of i (take k rs)
count_order i j u v zero rs b s ti tj ci cj = omega arith
count_order i j u v (suc k) [] b s ti tj ci cj = omega arith
count_order i j u v (suc k) (r ∷ rs) b s ti tj ci cj = elim (Bool-cases (r.index == i)) [
  | inl first ↦ ground (arith, count_take_le j k rs)
  | inr other ↦ elim (Bool-cases (r.index == j)) [
    | inl last ↦ ground (
      arith,
      tj.0,
      not_behind_same r (record { index = i; remainder = u }) j v,
      absent_behind r i u rs,
      ti.1,
      s.0,
    )
    | inr neither ↦ ground (arith, count_order i j u v k rs b s.1 ti.1 tj.1)
  ]
]
