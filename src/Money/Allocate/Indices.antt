-- ===== src/Money/Allocate/Indices.antt =====
-- The list of remainders that the loop over the weights of packages/domain/src/money/money.ts makes:
-- one for each index, and it is the remainder of that weight's exact share.
use rayi.Prelude.{
  ℕ, zero, suc, ◌+◌, ◌*◌, ◌/◌, ◌%◌, ◌<◌, ◌≡◌, ◌≢◌, refl, List, [], ◌∷◌, arith, length, All, ◌==◌,
  if◌then◌else◌,
}
use rayi.Money.Allocate.{Remainder, floor_shares}
use rayi.Money.Allocate.Extras.{share_at, count_of, live_count, Tagged}

module _ (a W : ℕ) where
  past : (m o : ℕ) (ws : List ℕ) → m < o → All (λ r. r.index ≢ m) (floor_shares a W o ws).remainders
  unfolding floor_shares
  past m o [] h = tt
  past m o (w ∷ ws) h = (omega arith, past m (o + 1) ws (omega arith))

Tagged-absent : (m v : ℕ) (rs : List Remainder) → All (λ r. r.index ≢ m) rs → Tagged m v rs
Tagged-absent m v [] h = tt
Tagged-absent m v (r ∷ rs) h = (λ e. absurd (h.0 e), Tagged-absent m v rs h.1)

count_absent :
    (m : ℕ) (rs : List Remainder)
    → All (λ r. r.index ≢ m) rs
    → (count_of m rs ≡ 0) × (live_count m rs ≡ 0)
count_absent m [] h = omega arith
count_absent m (r ∷ rs) h = ground (arith, count_absent m rs h.1)

module _ (a W : ℕ) where
  pub Tagged-floors :
      (m i o : ℕ) (ws : List ℕ)
      → m ≡ o + i
      → Tagged m (a * share_at i ws % W) (floor_shares a W o ws).remainders
  unfolding floor_shares
  Tagged-floors m i o [] e = tt
  Tagged-floors m zero o (w ∷ ws) e =
      (λ h. refl, Tagged-absent m _ _ (past a W m (o + 1) ws (omega arith)))
  Tagged-floors m (suc i) o (w ∷ ws) e =
      (λ h. absurd (omega arith), Tagged-floors m i (o + 1) ws (omega arith))

  pub count-floors :
      (m i o : ℕ) (ws : List ℕ)
      → m ≡ o + i
      → i < length ws
      → (count_of m (floor_shares a W o ws).remainders ≡ 1)
        × (live_count m (floor_shares a W o ws).remainders
            ≡ (if (a * share_at i ws % W) == 0 then 0 else 1))
  unfolding floor_shares
  count-floors m i o [] e h = absurd (omega arith)
  count-floors m zero o (w ∷ ws) e h =
      ground (arith, count_absent m _ (past a W m (o + 1) ws (omega arith)))
  count-floors m (suc i) o (w ∷ ws) e h =
      ground (arith, count-floors m i (o + 1) ws (omega arith) (omega arith))

  pub share_at-floors :
      (i o : ℕ) (ws : List ℕ)
      → i < length ws
      → share_at i (floor_shares a W o ws).shares ≡ a * share_at i ws / W
  unfolding floor_shares
  share_at-floors i o [] h = absurd (omega arith)
  share_at-floors zero o (w ∷ ws) h = refl
  share_at-floors (suc i) o (w ∷ ws) h = share_at-floors i (o + 1) ws (omega arith)
