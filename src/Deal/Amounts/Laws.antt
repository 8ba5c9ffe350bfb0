-- ===== src/Deal/Amounts/Laws.antt =====
-- What `resolveMilestoneAmounts` of packages/domain/src/deal/evaluate.ts promises: the frozen amounts
-- sum to the deal total, and its last check never fails.
use rayi.Prelude.{
  ℕ, ◌≡◌, refl, ◌∙◌, ap, sym, false, List, [], ◌∷◌, map, arith, length, length-map, All, has,
  IsDistinct, ℤ, pos, ◌+ℤ◌, ◌-ℤ◌, pos-+ℤ, sum, sum_ℤ, add_up, add_up_zero, int_laws, ==ℤ_refl,
  sub_of_add, ltb_ℤ-add, ok, ltb_ℤ,
}
use rayi.Money.Amount.{Money}
use rayi.Money.Allocate.Laws.{allocate_conserves}
use rayi.Deal.Amounts.{
  Authored, AmountMap, values, fixed_total, is_nil, percentage_entries, set_fixed, set_percentages,
  resolve_fixed, resolve_mixed, resolve_milestone_amounts,
}
use rayi.Deal.Amounts.Entries.{
  keys, sequences, amounts, total_of, fixed_keys, fixed_sum, fixed_total-eq-sum, set_fixed-total,
  set_percentages-total, disjoint_keys,
}

fresh_empty : (ks : List ℕ) → All (λ k. has (keys []) k ≡ false) ks
fresh_empty [] = tt
fresh_empty (k ∷ ks) = (refl, fresh_empty ks)

fixed_total-zero : (es : List Authored) → fixed_total (pos 0) es ≡ fixed_sum es
fixed_total-zero es = fixed_total-eq-sum (pos 0) es ∙ omega int_laws

set_fixed-sum :
    (es : List Authored)
    → IsDistinct (sequences es)
    → (total_of (set_fixed es []) ≡ fixed_sum es)
      × ((j : ℕ) → has (keys (set_fixed es [])) j ≡ has (fixed_keys es) j)
set_fixed-sum es d =
    let (total, ks) = set_fixed-total es [] d (fresh_empty (fixed_keys es)) in
    (total ∙ omega int_laws, ks)

fresh_percentages :
    (es : List Authored) (xs : List (ℕ × ℤ))
    → IsDistinct (sequences es)
    → All (λ x. has (fixed_keys es) x.0 ≡ false) xs
    → All (λ k. has (keys (set_fixed es [])) k ≡ false) (map (λ x. x.0) xs)
fresh_percentages es [] d h = tt
fresh_percentages es (x ∷ xs) d h =
    ((set_fixed-sum es d).1 x.0 ∙ h.0, fresh_percentages es xs d h.1)

-- The map that the percentages complete sums to the fixed amounts and the shares.
mixed_sum :
    (es : List Authored) (ss : List Money)
    → IsDistinct (sequences es)
    → length ss ≡ length (percentage_entries es)
    → sum_ℤ (values (set_percentages (percentage_entries es) ss (set_fixed es [])))
      ≡ fixed_sum es +ℤ sum_ℤ (amounts ss)
mixed_sum es ss d e =
    let (distinct, apart) = disjoint_keys es d in
    set_percentages-total (percentage_entries es) ss (set_fixed es []) e distinct
      (fresh_percentages es (percentage_entries es) d apart)
    ∙ ap (λ t. t +ℤ sum_ℤ (amounts ss)) (set_fixed-sum es d).0

sum_ℤ-pos : (ns : List ℕ) → sum_ℤ (map pos ns) ≡ pos (sum ns)
sum_ℤ-pos [] = refl
sum_ℤ-pos (n ∷ ns) = rw (sum_ℤ-pos ns) (pos-+ℤ n (sum ns))

module _ (es : List Authored) (total : Money) (bps : List ℕ) (rest : ℕ)
    (d : IsDistinct (sequences es)) (shape : map (λ x. x.1) (percentage_entries es) ≡ map pos bps)
    (full : sum bps ≡ 10_000) (covers : total.amount_minor ≡ fixed_sum es +ℤ pos rest) where
  resolve_mixed_ok :
      (m : AmountMap) × (resolve_mixed es (percentage_entries es) (fixed_sum es) total ≡ ok m)
      × (sum_ℤ (values m) ≡ total.amount_minor)
  unfolding resolve_mixed
  resolve_mixed_ok =
      let left : total.amount_minor -ℤ fixed_sum es ≡ pos rest =
        sub_of_add total.amount_minor (fixed_sum es) (pos rest) covers in
      let percent : add_up (pos 0) (map pos bps) ≡ pos 10_000 =
        add_up_zero (map pos bps) ∙ sum_ℤ-pos bps ∙ ap pos full in
      let (parts, runs, count, sums, _) =
        allocate_conserves total.currency rest bps (omega arith) in
      let one_each : length parts ≡ length (percentage_entries es) =
        count
        ∙ sym (length-map pos bps)
        ∙ ap length (sym shape)
        ∙ length-map _ (percentage_entries es) in
      let m : AmountMap = set_percentages (percentage_entries es) parts (set_fixed es []) in
      let reached : sum_ℤ (values m) ≡ total.amount_minor =
        mixed_sum es parts d one_each ∙ ap (λ t. fixed_sum es +ℤ t) sums ∙ sym covers in
      let checked : add_up (pos 0) (values m) ≡ total.amount_minor =
        add_up_zero (values m) ∙ reached in
      (m, rw (shape, percent, left, runs, checked, ==ℤ_refl total.amount_minor) refl, reached)

is_nil-entries :
    (xs : List (ℕ × ℤ)) (bps : List ℕ)
    → map (λ x. x.1) xs ≡ map pos bps
    → sum bps ≡ 10_000
    → is_nil xs ≡ false
is_nil-entries [] [] h s = absurd (omega arith)
is_nil-entries [] (b ∷ bps) h s = cc
is_nil-entries (x ∷ xs) bps h s = refl

resolve_mixed_sums :
    (es : List Authored) (xs : List (ℕ × ℤ)) (f : ℤ) (total : Money) (m : AmountMap)
    → resolve_mixed es xs f total ≡ ok m
    → sum_ℤ (values m) ≡ total.amount_minor
unfolding resolve_mixed
resolve_mixed_sums es xs f total m h = ground (arith, add_up_zero (values m))

resolve_fixed_sums :
    (es : List Authored) (total : Money) (m : AmountMap)
    → IsDistinct (sequences es)
    → resolve_fixed es (fixed_total (pos 0) es) total ≡ ok m
    → sum_ℤ (values m) ≡ total.amount_minor
unfolding resolve_fixed
resolve_fixed_sums es total m d h = ground (arith, fixed_total-zero es, (set_fixed-sum es d).0)

-- On distinct sequence numbers, with fixed amounts up to the total and basis points that are not
-- negative and come to 10000, resolving succeeds and the frozen amounts sum to the deal total.
pub resolve_mixed_total :
    (es : List Authored) (total : Money) (bps : List ℕ) (rest : ℕ)
    → IsDistinct (sequences es)
    → map (λ x. x.1) (percentage_entries es) ≡ map pos bps
    → sum bps ≡ 10_000
    → total.amount_minor ≡ fixed_sum es +ℤ pos rest
    → (m : AmountMap) × (resolve_milestone_amounts es total ≡ ok m)
      × (sum_ℤ (values m) ≡ total.amount_minor)
unfolding resolve_milestone_amounts percentage_entries
resolve_mixed_total [] total bps rest d shape full covers =
    cc (is_nil-entries (percentage_entries []) bps shape full)
resolve_mixed_total (e ∷ es) total bps rest d shape full covers =
    let (m, runs, sums) = resolve_mixed_ok (e ∷ es) total bps rest d shape full covers in
    let fits : ltb_ℤ total.amount_minor (fixed_sum (e ∷ es)) ≡ false =
      rw covers (ltb_ℤ-add (fixed_sum (e ∷ es)) rest) in
    (
      m,
      rw
          (
            fixed_total-zero (e ∷ es),
            fits,
            is_nil-entries (percentage_entries (e ∷ es)) bps shape full,
          )
          runs,
      sums,
    )

-- Whenever resolving returns a map, on distinct sequence numbers, its amounts sum to the deal total.
pub resolve_sums_to_total :
    (es : List Authored) (total : Money) (m : AmountMap)
    → IsDistinct (sequences es)
    → resolve_milestone_amounts es total ≡ ok m
    → sum_ℤ (values m) ≡ total.amount_minor
unfolding resolve_milestone_amounts
resolve_sums_to_total es total m d h = ground (
  arith,
  resolve_mixed_sums es (percentage_entries es) (fixed_total (pos 0) es) total m,
  resolve_fixed_sums es total m d,
)
