-- ===== src/Money/Allocate/Shares.antt =====
-- The floor shares of packages/domain/src/money/money.ts, and the sum of what `allocate` hands out.
use native.Mathlib.Nat.{div-add-mod}
use rayi.Prelude.{
  ℕ, zero, suc, ◌+◌, ◌-◌, ◌*◌, ◌≤◌, ◌<◌, ◌≡◌, refl, ap, List, [], ◌∷◌, map, arith, sum, length, All,
}
use rayi.Prelude.Sorting.{sort, sum-sort, All-sort}
use rayi.Money.Allocate.{
  Remainder, Floors, floor_shares, not_behind, increment, hand_out, split_shares,
}

abbrev pub remainders_sum : List Remainder → ℕ
remainders_sum rs = sum (map (λ r. r.remainder) rs)

pub length-floor_shares :
    (a W i : ℕ) (ws : List ℕ)
    → (length (floor_shares a W i ws).shares ≡ length ws)
      × (length (floor_shares a W i ws).remainders ≡ length ws)
      × (sum (floor_shares a W i ws).shares ≡ (floor_shares a W i ws).distributed)
unfolding floor_shares
length-floor_shares a W i [] = (refl, refl, refl)
length-floor_shares a W i (w ∷ ws) = omega (arith, length-floor_shares a W (i + 1) ws)

-- The floors and the remainders account for the whole amount times the weights.
pub floors_account :
    (a W i : ℕ) (ws : List ℕ)
    → (floor_shares a W i ws).distributed * W + remainders_sum (floor_shares a W i ws).remainders
      ≡ a * sum ws
unfolding floor_shares
floors_account a W i [] = omega arith
floors_account a W i (w ∷ ws) = omega (arith, floors_account a W (i + 1) ws, div-add-mod (a * w) W)

pub remainders_below :
    (a W i : ℕ) (ws : List ℕ)
    → 0 < W
    → All (λ r. r.remainder < W) (floor_shares a W i ws).remainders
unfolding floor_shares
remainders_below a W i [] h = tt
remainders_below a W i (w ∷ ws) h = (omega arith, remainders_below a W (i + 1) ws h)

pub indices_below :
    (a W i n : ℕ) (ws : List ℕ)
    → i + length ws ≤ n
    → All (λ r. r.index < n) (floor_shares a W i ws).remainders
unfolding floor_shares
indices_below a W i n [] h = tt
indices_below a W i n (w ∷ ws) h = (omega arith, indices_below a W (i + 1) n ws (omega arith))

length-increment : (i : ℕ) (ss : List ℕ) → length (increment i ss) ≡ length ss
length-increment i [] = refl
length-increment zero (s ∷ ss) = refl
length-increment (suc i) (s ∷ ss) = omega (arith, length-increment i ss)

sum-increment : (i : ℕ) (ss : List ℕ) → i < length ss → sum (increment i ss) ≡ sum ss + 1
sum-increment i [] h = absurd (omega arith)
sum-increment zero (s ∷ ss) h = omega arith
sum-increment (suc i) (s ∷ ss) h = omega (arith, sum-increment i ss)

pub length-hand_out :
    (k : ℕ) (rs : List Remainder) (ss : List ℕ) → length (hand_out k rs ss) ≡ length ss
unfolding hand_out
length-hand_out zero rs ss = refl
length-hand_out (suc k) [] ss = refl
length-hand_out (suc k) (r ∷ rs) ss =
    omega (arith, length-hand_out k rs (increment r.index ss), length-increment r.index ss)

sum-hand_out :
    (k n : ℕ) (rs : List Remainder) (ss : List ℕ)
    → k ≤ length rs
    → length ss ≡ n
    → All (λ r. r.index < n) rs
    → sum (hand_out k rs ss) ≡ sum ss + k
unfolding hand_out
sum-hand_out zero n rs ss h e v = omega arith
sum-hand_out (suc k) n [] ss h e v = absurd (omega arith)
sum-hand_out (suc k) n (r ∷ rs) ss h e v = omega (
  arith,
  sum-hand_out k n rs (increment r.index ss) (omega arith)
      (omega (arith, length-increment r.index ss)) v.1,
  sum-increment r.index ss,
)

-- Remainders below the total weight that sum to `k` times it are at least `k` in number.
leftover_le_length :
    (W k : ℕ) (rs : List Remainder)
    → 0 < W
    → All (λ r. r.remainder < W) rs
    → k * W ≤ remainders_sum rs
    → k ≤ length rs
leftover_le_length W zero rs p h e = omega arith
leftover_le_length W (suc k) [] p h e = absurd (omega arith)
leftover_le_length W (suc k) (r ∷ rs) p h e =
    omega (arith, leftover_le_length W k rs p h.1 (omega arith))

module _ (a : ℕ) (ws : List ℕ) (positive : 0 < sum ws) where
  abbrev pub floors : Floors
  floors = floor_shares a (sum ws) 0 ws

  abbrev pub ordered : List Remainder
  ordered = sort not_behind floors.remainders

  -- What is left over, times the total weight, is the sum of the remainders.
  pub leftover_account :
      (floors.distributed ≤ a) × ((a - floors.distributed) * sum ws ≡ remainders_sum ordered)
  leftover_account =
      let account = floors_account a (sum ws) 0 ws in
      let same = sum-sort not_behind (λ r. r.remainder) floors.remainders in
      let le : floors.distributed ≤ a = grind arith in
      let split : a ≡ floors.distributed + (a - floors.distributed) = omega arith in
      (le, omega (arith, ap (λ (t : ℕ). t * sum ws) split))

  pub sum-split_shares : sum (split_shares a (sum ws) ws) ≡ a
  unfolding split_shares
  sum-split_shares =
      let (le, account) = leftover_account in
      let (shares_length, rems_length, shares_sum) = length-floor_shares a (sum ws) 0 ws in
      let below = All-sort not_behind _ _ (remainders_below a (sum ws) 0 ws positive) in
      let enough =
        leftover_le_length (sum ws) (a - floors.distributed) ordered positive below (omega arith) in
      let valid =
        All-sort not_behind _ _ (indices_below a (sum ws) 0 (length ws) ws (omega arith)) in
      omega (
        arith,
        sum-hand_out (a - floors.distributed) (length ws) ordered floors.shares enough shares_length
            valid,
      )

  pub length-split_shares : length (split_shares a (sum ws) ws) ≡ length ws
  unfolding split_shares
  length-split_shares = omega (
    arith,
    length-hand_out (a - floors.distributed) ordered floors.shares,
    length-floor_shares a (sum ws) 0 ws,
  )
