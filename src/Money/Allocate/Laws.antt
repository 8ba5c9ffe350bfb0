-- ===== src/Money/Allocate/Laws.antt =====
-- What `allocate` of packages/domain/src/money/money.ts promises: when it accepts its arguments, that
-- the parts sum to the amount, and how the odd units fall.
use native.Mathlib.Nat.{div-add-mod}
use rayi.Prelude.{
  ℕ, ◌+◌, ◌-◌, ◌*◌, ◌/◌, ◌%◌, ◌≤◌, ◌<◌, ◌≡◌, refl, ap, ◌∙◌, pos_part, pos-+ℤ, length-map, true,
  false, ◌⊎◌, inl, inr, List, [], ◌∷◌, map, arith, sum, length, take, All, ◌==◌, if◌then◌else◌, ℤ,
  pos, negsuc, ok, Result-cases, sum_ℤ, Bool-cases,
}
use rayi.Prelude.Sorting.{All-sort, sum-sort, sort-IsSorted}
use rayi.Money.Currency.{Currency}
use rayi.Money.Amount.{Money}
use rayi.Money.Allocate.{Remainder, not_behind, split_shares, total_weight, allocate, of_shares}
use rayi.Money.Allocate.Shares.{
  floors, ordered, leftover_account, sum-split_shares, length-split_shares, remainders_below,
  length-floor_shares,
}
use rayi.Money.Allocate.Extras.{
  share_at, hits, live_hits, share_at-hand_out, taken_positive, count_le_live, count_order,
  count_of,
}
use rayi.Money.Allocate.Indices.{Tagged-floors, count-floors, share_at-floors}

not_behind_total : (r s : Remainder) → not_behind r s ≡ false → not_behind s r ≡ true
unfolding not_behind
not_behind_total r s h = ground arith

not_behind_trans :
    (r s t : Remainder) → not_behind r s ≡ true → not_behind s t ≡ true → not_behind r t ≡ true
unfolding not_behind
not_behind_trans r s t h k = ground arith

module _ (a : ℕ) (ws : List ℕ) (positive : 0 < sum ws) where
  abbrev W : ℕ
  W = sum ws

  -- The units handed out to index `i`.
  abbrev extra : ℕ → ℕ
  extra i = count_of i (take (a - (floors a ws positive).distributed) (ordered a ws positive))

  share-split :
      (i : ℕ) → i < length ws → share_at i (split_shares a W ws) ≡ a * share_at i ws / W + extra i
  unfolding split_shares
  share-split i h =
      let (shares_length, _, _) = length-floor_shares a W 0 ws in
      omega (
        arith,
        share_at-hand_out i (a - (floors a ws positive).distributed) (ordered a ws positive)
            (floors a ws positive).shares (omega arith),
        share_at-floors a W i 0 ws h,
      )

  extra_le : (i : ℕ) → i < length ws → extra i ≤ (if (a * share_at i ws % W) == 0 then 0 else 1)
  extra_le i h =
      let sorted =
        sort-IsSorted not_behind not_behind_total not_behind_trans
          (floors a ws positive).remainders in
      let below = All-sort not_behind _ _ (remainders_below a W 0 ws positive) in
      let (_, account) = leftover_account a ws positive in
      let taken =
        taken_positive W (a - (floors a ws positive).distributed) (ordered a ws positive) sorted
          below positive (omega arith) in
      omega (
        arith,
        count_le_live i (a - (floors a ws positive).distributed) (ordered a ws positive) taken,
        sum-sort not_behind (live_hits i) (floors a ws positive).remainders,
        (count-floors a W i i 0 ws (omega arith) h).1,
      )

  parts_near :
      (i : ℕ)
      → i < length ws
      → (share_at i (split_shares a W ws) * W < a * share_at i ws + W)
        × (a * share_at i ws < share_at i (split_shares a W ws) * W + W)
  parts_near i h =
      let exact = div-add-mod (a * share_at i ws) W in
      let below : a * share_at i ws % W < W = omega arith in
      let part : share_at i (split_shares a W ws) * W ≡ (a * share_at i ws / W + extra i) * W =
        ap (λ (t : ℕ). t * W) (share-split i h) in
      let few = extra_le i h in
      elim (Bool-cases ((a * share_at i ws % W) == 0)) [
        | inl whole ↦
            let none_extra : extra i ≡ 0 = ground arith in
            let gone : extra i * W ≡ 0 = rw none_extra (omega arith) in omega arith
        | inr broken ↦
            let some_left : 0 < a * share_at i ws % W = ground arith in
            let one_extra : extra i ≤ 1 = ground arith in
            let at_most : extra i * W ≤ W = grind arith in omega arith
      ]

  extra_order :
      (i j : ℕ)
      → i < length ws
      → j < length ws
      → not_behind
          (record { index = j; remainder = a * share_at j ws % W })
          (record { index = i; remainder = a * share_at i ws % W })
        ≡ false
      → extra j ≤ extra i
  extra_order i j hi hj order =
      let rems = (floors a ws positive).remainders in
      let sorted = sort-IsSorted not_behind not_behind_total not_behind_trans rems in
      count_order i j (a * share_at i ws % W) (a * share_at j ws % W)
        (a - (floors a ws positive).distributed) (ordered a ws positive) order sorted
        (All-sort not_behind _ _ (Tagged-floors a W i i 0 ws (omega arith)))
        (All-sort not_behind _ _ (Tagged-floors a W j j 0 ws (omega arith)))
        (omega (
          arith,
          sum-sort not_behind (hits i) rems,
          (count-floors a W i i 0 ws (omega arith) hi).0,
        ))
        (omega (
          arith,
          sum-sort not_behind (hits j) rems,
          (count-floors a W j j 0 ws (omega arith) hj).0,
        ))

total_weight-pos : (t : ℕ) (ws : List ℕ) → total_weight t (map pos ws) ≡ ok (t + sum ws)
unfolding total_weight
total_weight-pos t [] = ap ok (omega arith)
total_weight-pos t (w ∷ ws) = total_weight-pos (t + w) ws ∙ ap ok (omega arith)

naturals-pos : (ws : List ℕ) → map pos_part (map pos ws) ≡ ws
naturals-pos [] = refl
naturals-pos (w ∷ ws) = ap (◌∷◌ w) (naturals-pos ws)

allocate_runs :
    (c : Currency) (a : ℕ) (ws : List ℕ)
    → 0 < sum ws
    → allocate (record { amount_minor = pos a; currency = c }) (map pos ws)
      ≡ ok (of_shares c (split_shares a (sum ws) ws))
unfolding allocate
allocate_runs c a [] h = absurd (omega arith)
allocate_runs c a (w ∷ ws) h =
    let total : total_weight (0 + w) (map pos ws) ≡ ok (w + sum ws) =
      total_weight-pos (0 + w) ws ∙ ap ok (omega arith) in
    rw (total, naturals-pos ws, sum-split_shares a (w ∷ ws) h) (ground arith)

sum-of_shares :
    (c : Currency) (ss : List ℕ) → sum_ℤ (map (λ m. m.amount_minor) (of_shares c ss)) ≡ pos (sum ss)
sum-of_shares c [] = refl
sum-of_shares c (s ∷ ss) = rw (sum-of_shares c ss) (pos-+ℤ s (sum ss))

currency-of_shares : (c : Currency) (ss : List ℕ) → All (λ m. m.currency ≡ c) (of_shares c ss)
currency-of_shares c [] = tt
currency-of_shares c (s ∷ ss) = (refl, currency-of_shares c ss)

total_weight_needs :
    (t : ℕ) (ws : List ℤ) (total : ℕ)
    → total_weight t ws ≡ ok total
    → (ns : List ℕ) × (ws ≡ map pos ns) × (total ≡ t + sum ns)
unfolding total_weight
total_weight_needs t [] total h = ([], refl, ground arith)
total_weight_needs t (pos w ∷ ws) total h =
    let (ns, same, adds) = total_weight_needs (t + w) ws total h in (w ∷ ns, cc, omega arith)
total_weight_needs t (negsuc w ∷ ws) total h = cc

not_behind_first :
    (u v i j : ℕ)
    → (v < u) ⊎ ((v ≡ u) × (i < j))
    → not_behind (record { index = j; remainder = v }) (record { index = i; remainder = u }) ≡ false
unfolding not_behind
not_behind_first u v i j h = ground arith

-- On a non-negative amount and non-negative weights that do not all vanish `allocate` succeeds: it
-- returns one part for each weight, in the amount's currency, and the parts sum to the amount.
pub allocate_conserves :
    (c : Currency) (a : ℕ) (ws : List ℕ)
    → 0 < sum ws
    → (parts : List Money) × (allocate (record { amount_minor = pos a; currency = c }) (map pos ws)
        ≡ ok parts)
      × (length parts ≡ length ws)
      × (sum_ℤ (map (λ m. m.amount_minor) parts) ≡ pos a)
      × All (λ m. m.currency ≡ c) parts
allocate_conserves c a ws h =
    let shares = split_shares a (sum ws) ws in
    (
      of_shares c shares,
      allocate_runs c a ws h,
      length-map _ shares ∙ length-split_shares a ws h,
      sum-of_shares c shares ∙ ap pos (sum-split_shares a ws h),
      currency-of_shares c shares,
    )

-- `allocate` succeeds only on a non-negative amount, with non-negative weights that sum above zero.
pub allocate_needs :
    (m : Money) (ws : List ℤ) (parts : List Money)
    → allocate m ws ≡ ok parts
    → (a : ℕ) × (ns : List ℕ) × (m.amount_minor ≡ pos a) × (ws ≡ map pos ns) × (0 < sum ns)
unfolding allocate
allocate_needs m ws parts h = elim (Result-cases (total_weight 0 ws)) [
  | inl (e, refused) ↦ absurd (ground arith)
  | inr (t, e) ↦
      let (ns, same, adds) = total_weight_needs 0 ws t e in
      (pos_part m.amount_minor, ns, ground arith, same, ground arith)
]

-- No part is a whole unit away from the exact share: each is the share rounded down or up.
pub allocate_rounds :
    (c : Currency) (a : ℕ) (ws : List ℕ)
    → 0 < sum ws
    → (shares : List ℕ) × (allocate (record { amount_minor = pos a; currency = c }) (map pos ws)
        ≡ ok (of_shares c shares))
      × ((i : ℕ)
          → i < length ws
          → (share_at i shares * sum ws < a * share_at i ws + sum ws)
            × (a * share_at i ws < share_at i shares * sum ws + sum ws))
allocate_rounds c a ws h = (split_shares a (sum ws) ws, allocate_runs c a ws h, parts_near a ws h)

-- The leftover units go to the larger fractional remainders first, and among equal remainders to the
-- earlier index: of two parts the one that comes first in this order is rounded up if the other is.
pub allocate_ties_earliest :
    (c : Currency) (a : ℕ) (ws : List ℕ) (i j : ℕ)
    → 0 < sum ws
    → i < length ws
    → j < length ws
    → (a * share_at j ws % sum ws < a * share_at i ws % sum ws)
      ⊎ ((a * share_at j ws % sum ws ≡ a * share_at i ws % sum ws) × (i < j))
    → (shares : List ℕ) × (allocate (record { amount_minor = pos a; currency = c }) (map pos ws)
        ≡ ok (of_shares c shares))
      × (share_at j shares + a * share_at i ws / sum ws
          ≤ share_at i shares + a * share_at j ws / sum ws)
allocate_ties_earliest c a ws i j h hi hj first =
    let order =
      not_behind_first (a * share_at i ws % sum ws) (a * share_at j ws % sum ws) i j first in
    (
      split_shares a (sum ws) ws,
      allocate_runs c a ws h,
      omega (
        arith,
        share-split a ws h i hi,
        share-split a ws h j hj,
        extra_order a ws h i j hi hj order,
      ),
    )
