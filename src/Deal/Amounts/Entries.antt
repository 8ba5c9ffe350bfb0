-- ===== src/Deal/Amounts/Entries.antt =====
-- The map that `resolveMilestoneAmounts` of packages/domain/src/deal/evaluate.ts fills: its keys, and
-- the sum of its values.
use rayi.Prelude.{
  ℕ, suc, ◌≡◌, refl, ◌∙◌, false, ◌||◌, List, [], ◌∷◌, map, arith, length, All, ◌==◌, has,
  IsDistinct, ℤ, pos, ◌+ℤ◌, sum_ℤ, int_laws, Bool-cases, inl, inr,
}
use rayi.Money.Amount.{Money}
use rayi.Deal.Amounts.{
  Share, fixed, percentage, add_fixed, set_share, keep_percentage, Authored, AmountMap, set_amount,
  values, fixed_total, percentage_entries, set_fixed, set_percentages,
}

abbrev pub keys : AmountMap → List ℕ
keys m = map (λ e. e.0) m

abbrev pub sequences : List Authored → List ℕ
sequences es = map (λ e. e.sequence) es

abbrev pub amounts : List Money → List ℤ
amounts ss = map (λ s. s.amount_minor) ss

abbrev pub total_of : AmountMap → ℤ
total_of m = sum_ℤ (values m)

abbrev pub key_if_fixed : ℕ → Share → List ℕ → List ℕ
key_if_fixed s (fixed a) rest = s ∷ rest
key_if_fixed s (percentage b) rest = rest

abbrev pub fixed_keys : List Authored → List ℕ
fixed_keys [] = []
fixed_keys (e ∷ es) = key_if_fixed e.sequence e.share (fixed_keys es)

abbrev fixed_part : Share → ℤ
fixed_part (fixed a) = a
fixed_part (percentage b) = pos 0

abbrev pub fixed_sum : List Authored → ℤ
fixed_sum es = sum_ℤ (map (λ e. fixed_part e.share) es)

add_fixed_step :
    (t : ℤ) (s : Share) (rest : ℤ) → add_fixed t s +ℤ rest ≡ t +ℤ (fixed_part s +ℤ rest)
add_fixed_step t (fixed a) rest = omega int_laws
add_fixed_step t (percentage b) rest = omega int_laws

pub fixed_total-eq-sum : (t : ℤ) (es : List Authored) → fixed_total t es ≡ t +ℤ fixed_sum es
unfolding fixed_total
fixed_total-eq-sum t [] = omega int_laws
fixed_total-eq-sum t (e ∷ es) =
    fixed_total-eq-sum (add_fixed t e.share) es ∙ add_fixed_step t e.share (fixed_sum es)

-- Setting a new key adds its value to the sum, and the key to the keys.
pub set_amount_new :
    (k : ℕ) (v : ℤ) (m : AmountMap)
    → has (keys m) k ≡ false
    → total_of (set_amount k v m) ≡ total_of m +ℤ v
set_amount_new k v [] h = omega int_laws
set_amount_new k v ((j, w) ∷ m) h = elim (Bool-cases (j == k)) [
  | inl same ↦ cc (same, h)
  | inr other ↦ rw (other, set_amount_new k v m (rw other at h)) (omega int_laws)
]

pub keys-set_amount :
    (k j : ℕ) (v : ℤ) (m : AmountMap) → has (keys (set_amount k v m)) j ≡ (has (keys m) j || k == j)
keys-set_amount k j v [] = ground arith
keys-set_amount k j v ((i, w) ∷ m) = ground (arith, keys-set_amount k j v m)

pub length-set_amount_new :
    (k : ℕ) (v : ℤ) (m : AmountMap)
    → has (keys m) k ≡ false
    → length (set_amount k v m) ≡ suc (length m)
length-set_amount_new k v [] h = refl
length-set_amount_new k v ((j, w) ∷ m) h = ground (arith, length-set_amount_new k v m)

fixed_keys-sequences :
    (j : ℕ) (es : List Authored) → has (sequences es) j ≡ false → has (fixed_keys es) j ≡ false
fixed_keys-sequences j [] h = refl
fixed_keys-sequences j (e ∷ es) h = ground (arith, fixed_keys-sequences j es)

-- The keys at hand are new for the fixed entries of a list.
abbrev Fresh : AmountMap → List ℕ → Type 0
Fresh m ks = All (λ k. has (keys m) k ≡ false) ks

Fresh-set :
    (k : ℕ) (v : ℤ) (m : AmountMap) (ks : List ℕ)
    → has ks k ≡ false
    → Fresh m ks
    → Fresh (set_amount k v m) ks
Fresh-set k v m [] n h = tt
Fresh-set k v m (j ∷ ks) n h =
    (ground (arith, keys-set_amount k j v m), Fresh-set k v m ks (ground arith) h.1)

-- What the loop over the entries does to a map, as a sum and as keys.
abbrev pub Filled : AmountMap → AmountMap → ℤ → List ℕ → Type 0
Filled before after amount ks =
    (total_of after ≡ total_of before +ℤ amount)
    × ((j : ℕ) → has (keys after) j ≡ (has (keys before) j || has ks j))

set_share_step :
    (s : ℕ) (share : Share) (es : List Authored) (m : AmountMap)
    → has (sequences es) s ≡ false
    → Fresh m (key_if_fixed s share (fixed_keys es))
    → ((m' : AmountMap)
        → Fresh m' (fixed_keys es)
        → Filled m' (set_fixed es m') (fixed_sum es) (fixed_keys es))
    → Filled m
        (set_fixed es (set_share s share m))
        (fixed_part share +ℤ fixed_sum es)
        (key_if_fixed s share (fixed_keys es))
set_share_step s (percentage b) es m n h rec =
    let (total, ks) = rec m h in (total ∙ omega int_laws, ks)
set_share_step s (fixed a) es m n h rec =
    let m' : AmountMap = set_amount s a m in
    let fresh : Fresh m' (fixed_keys es) =
      Fresh-set s a m (fixed_keys es) (fixed_keys-sequences s es n) h.1 in
    let (total, ks) = rec m' fresh in
    (
      rw (total, set_amount_new s a m h.0) (omega int_laws),
      λ j. ground (arith, ks j, keys-set_amount s j a m),
    )

pub set_fixed-total :
    (es : List Authored) (m : AmountMap)
    → IsDistinct (sequences es)
    → Fresh m (fixed_keys es)
    → Filled m (set_fixed es m) (fixed_sum es) (fixed_keys es)
unfolding set_fixed
set_fixed-total [] m d h = (omega int_laws, λ j. ground arith)
set_fixed-total (e ∷ es) m d h =
    set_share_step e.sequence e.share es m d.0 h (λ m'. set_fixed-total es m' d.1)

pub set_percentages-total :
    (es : List (ℕ × ℤ)) (ss : List Money) (m : AmountMap)
    → length ss ≡ length es
    → IsDistinct (map (λ e. e.0) es)
    → Fresh m (map (λ e. e.0) es)
    → total_of (set_percentages es ss m) ≡ total_of m +ℤ sum_ℤ (amounts ss)
unfolding set_percentages
set_percentages-total [] [] m e d h = omega int_laws
set_percentages-total [] (s ∷ ss) m e d h = absurd (omega arith)
set_percentages-total (x ∷ es) [] m e d h = absurd (omega arith)
set_percentages-total (x ∷ es) (s ∷ ss) m e d h =
    set_percentages-total es ss (set_amount x.0 s.amount_minor m) (omega arith) d.1
      (Fresh-set x.0 s.amount_minor m _ d.0 h.1)
    ∙ rw (set_amount_new x.0 s.amount_minor m h.0) (omega int_laws)

abbrev entry_keys : List (ℕ × ℤ) → List ℕ
entry_keys xs = map (λ x. x.0) xs

-- Every key of the entries is another than `k`.
abbrev Avoids : ℕ → List (ℕ × ℤ) → Type 0
Avoids k xs = All (λ x. (k == x.0) ≡ false) xs

abbrev NotIn : List ℕ → List (ℕ × ℤ) → Type 0
NotIn ks xs = All (λ x. has ks x.0 ≡ false) xs

keep_percentage-Avoids :
    (k s : ℕ) (share : Share) (rest : List (ℕ × ℤ))
    → (s == k) ≡ false
    → Avoids k rest
    → Avoids k (keep_percentage s share rest)
keep_percentage-Avoids k s (fixed a) rest n h = h
keep_percentage-Avoids k s (percentage b) rest n h = (ground arith, h)

other_keys :
    (k : ℕ) (es : List Authored) → has (sequences es) k ≡ false → Avoids k (percentage_entries es)
unfolding percentage_entries
other_keys k [] h = tt
other_keys k (e ∷ es) h =
    keep_percentage-Avoids k e.sequence e.share (percentage_entries es) (ground arith)
      (other_keys k es (ground arith))

not_has_of_Avoids : (k : ℕ) (xs : List (ℕ × ℤ)) → Avoids k xs → has (entry_keys xs) k ≡ false
not_has_of_Avoids k [] h = refl
not_has_of_Avoids k (x ∷ xs) h = ground (arith, not_has_of_Avoids k xs h.1)

NotIn-cons :
    (k : ℕ) (ks : List ℕ) (xs : List (ℕ × ℤ)) → Avoids k xs → NotIn ks xs → NotIn (k ∷ ks) xs
NotIn-cons k ks [] a n = tt
NotIn-cons k ks (x ∷ xs) a n = (ground arith, NotIn-cons k ks xs a.1 n.1)

disjoint_step :
    (k : ℕ) (share : Share) (es : List Authored)
    → has (sequences es) k ≡ false
    → IsDistinct (entry_keys (percentage_entries es))
    → NotIn (fixed_keys es) (percentage_entries es)
    → IsDistinct (entry_keys (keep_percentage k share (percentage_entries es)))
      × NotIn
          (key_if_fixed k share (fixed_keys es))
          (keep_percentage k share (percentage_entries es))
disjoint_step k (fixed a) es h d n = (d, NotIn-cons k _ _ (other_keys k es h) n)
disjoint_step k (percentage b) es h d n =
    ((not_has_of_Avoids k _ (other_keys k es h), d), (fixed_keys-sequences k es h, n))

-- No percentage entry has the key of another or of a fixed one.
pub disjoint_keys :
    (es : List Authored)
    → IsDistinct (sequences es)
    → IsDistinct (map (λ x. x.0) (percentage_entries es))
      × All (λ x. has (fixed_keys es) x.0 ≡ false) (percentage_entries es)
unfolding percentage_entries
disjoint_keys [] d = (tt, tt)
disjoint_keys (e ∷ es) d =
    let (distinct, apart) = disjoint_keys es d.1 in
    disjoint_step e.sequence e.share es d.0 distinct apart
