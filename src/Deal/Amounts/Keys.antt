-- ===== src/Deal/Amounts/Keys.antt =====
-- The map that `resolveMilestoneAmounts` of packages/domain/src/deal/evaluate.ts returns has one entry for
-- each authored milestone.
use rayi.Prelude.{
  ℕ, ◌≡◌, refl, sym, ◌∙◌, Bool, true, not, ◌||◌, List, [], ◌∷◌, map, arith, length, length-map,
  ◌==◌, has, IsDistinct, ℤ, pos, ltb_ℤ, ◌==ℤ◌, add_up, Bool-cases, inl, inr, Result, ok, err,
  throw_if-ok, >>=-eq-ok,
}
use rayi.Money.Amount.{Money, MoneyError}
use rayi.Money.Allocate.{allocate}
use rayi.Money.Allocate.Count.{length-allocate, ok-injective}
use rayi.Deal.Amounts.{
  Share, fixed, percentage, Authored, AmountMap, set_amount, values, fixed_total,
  percentage_entries, keep_percentage, set_share, set_fixed, set_percentages, is_nil, from_money,
  resolve_mixed, resolve_fixed, resolve_milestone_amounts,
}
use rayi.Deal.Amounts.Entries.{keys, sequences, fixed_keys, key_if_fixed, keys-set_amount}

abbrev entry_keys : List (ℕ × ℤ) → List ℕ
entry_keys xs = map (λ x. x.0) xs

set_amount-IsDistinct :
    (k : ℕ) (v : ℤ) (m : AmountMap) → IsDistinct (keys m) → IsDistinct (keys (set_amount k v m))
set_amount-IsDistinct k v [] d = (refl, tt)
set_amount-IsDistinct k v ((j, w) ∷ m) d = elim (Bool-cases (j == k)) [
  | inl same ↦ let key : j ≡ k = ground arith in rw (same, sym key) d
  | inr other ↦
      let kept = keys-set_amount k j v m in rw other (ground arith, set_amount-IsDistinct k v m d.1)
]

-- The loops write under the keys of their entries, and keep the keys distinct.
abbrev Writes : AmountMap → AmountMap → List ℕ → Type 0
Writes before after ks =
    (IsDistinct (keys before) → IsDistinct (keys after))
    × ((j : ℕ) → has (keys after) j ≡ (has (keys before) j || has ks j))

set_share-Writes :
    (s : ℕ) (share : Share) (m : AmountMap) (ks : List ℕ) (after : AmountMap)
    → Writes (set_share s share m) after ks
    → Writes m after (key_if_fixed s share ks)
set_share-Writes s (percentage b) m ks after h = h
set_share-Writes s (fixed a) m ks after h =
    (λ d. h.0 (set_amount-IsDistinct s a m d), λ j. ground (arith, h.1 j, keys-set_amount s j a m))

set_fixed-Writes : (es : List Authored) (m : AmountMap) → Writes m (set_fixed es m) (fixed_keys es)
unfolding set_fixed
set_fixed-Writes [] m = (λ d. d, λ j. ground arith)
set_fixed-Writes (e ∷ es) m =
    set_share-Writes e.sequence e.share m (fixed_keys es) _
      (set_fixed-Writes es (set_share e.sequence e.share m))

set_percentages-Writes :
    (xs : List (ℕ × ℤ)) (ss : List Money) (m : AmountMap)
    → length ss ≡ length xs
    → Writes m (set_percentages xs ss m) (entry_keys xs)
unfolding set_percentages
set_percentages-Writes [] ss m e = (λ d. d, λ j. ground arith)
set_percentages-Writes (x ∷ xs) [] m e = absurd (omega arith)
set_percentages-Writes (x ∷ xs) (s ∷ ss) m e =
    let rest = set_percentages-Writes xs ss (set_amount x.0 s.amount_minor m) (omega arith) in
    (
      λ d. rest.0 (set_amount-IsDistinct x.0 s.amount_minor m d),
      λ j. ground (arith, rest.1 j, keys-set_amount x.0 j s.amount_minor m),
    )

-- Every sequence number is that of a fixed or of a percentage entry.
split_step :
    (s j : ℕ) (share : Share) (ks : List ℕ) (xs : List (ℕ × ℤ)) (all : Bool)
    → all ≡ (has ks j || has (entry_keys xs) j)
    → (s == j || all)
      ≡ (has (key_if_fixed s share ks) j || has (entry_keys (keep_percentage s share xs)) j)
split_step s j (fixed a) ks xs all h = ground arith
split_step s j (percentage b) ks xs all h = ground arith

sequences-split :
    (es : List Authored) (j : ℕ)
    → has (sequences es) j ≡ (has (fixed_keys es) j || has (entry_keys (percentage_entries es)) j)
unfolding percentage_entries
sequences-split [] j = refl
sequences-split (e ∷ es) j =
    split_step e.sequence j e.share (fixed_keys es) (percentage_entries es) (has (sequences es) j)
      (sequences-split es j)

from_money-ok : {A : Type 0} (r : Result MoneyError A) (a : A) → from_money r ≡ ok a → r ≡ ok a
from_money-ok (ok b) a h = cc
from_money-ok (err e) a h = cc

resolve_mixed-map :
    (es : List Authored) (xs : List (ℕ × ℤ)) (f : ℤ) (total : Money) (m : AmountMap)
    → resolve_mixed es xs f total ≡ ok m
    → (parts : List Money) × (length parts ≡ length xs)
      × (m ≡ set_percentages xs parts (set_fixed es []))
unfolding resolve_mixed
resolve_mixed-map es xs f total m h =
    let bps = add_up (pos 0) (map (λ e. e.1) xs) in
    let (hundred, h1) = throw_if-ok (not (bps ==ℤ pos 10_000)) _ _ h in
    let (parts, split, h2) = >>=-eq-ok (from_money (allocate _ (map (λ e. e.1) xs))) _ h1 in
    let count = length-allocate _ (map (λ e. e.1) xs) parts (from_money-ok _ parts split) in
    let whole = set_percentages xs parts (set_fixed es []) in
    let (exact, h3) =
      throw_if-ok (not (add_up (pos 0) (values whole) ==ℤ total.amount_minor)) _ _ h2 in
    (parts, count ∙ length-map _ xs, sym (ok-injective h3))

resolve_fixed-map :
    (es : List Authored) (f : ℤ) (total : Money) (m : AmountMap)
    → resolve_fixed es f total ≡ ok m
    → m ≡ set_fixed es []
unfolding resolve_fixed
resolve_fixed-map es f total m h =
    let (exact, h1) = throw_if-ok (not (f ==ℤ total.amount_minor)) _ _ h in sym (ok-injective h1)

nil-entries : (xs : List (ℕ × ℤ)) → is_nil xs ≡ true → xs ≡ []
nil-entries [] h = refl
nil-entries (x ∷ xs) h = cc

-- Whenever resolving returns a map, its keys are the sequence numbers of the milestones, each once.
pub resolve_milestone_amounts-keys :
    (es : List Authored) (total : Money) (m : AmountMap)
    → resolve_milestone_amounts es total ≡ ok m
    → IsDistinct (keys m) × ((j : ℕ) → has (keys m) j ≡ has (sequences es) j)
unfolding resolve_milestone_amounts
resolve_milestone_amounts-keys es total m h =
    let (some_milestone, h1) = throw_if-ok (is_nil es) _ _ h in
    let sum = fixed_total (pos 0) es in
    let (fits, h2) = throw_if-ok (ltb_ℤ total.amount_minor sum) _ _ h1 in
    let entries = percentage_entries es in
    let fixed_writes = set_fixed-Writes es [] in
    elim (Bool-cases (is_nil entries)) [
      | inl none_of_them ↦
          let t : resolve_fixed es sum total ≡ ok m = rw none_of_them at h2 in
          let whole = resolve_fixed-map es sum total m t in
          let empty = nil-entries entries none_of_them in
          rw whole (
            fixed_writes.0 tt,
            λ j. fixed_writes.1 j ∙ sym (sequences-split es j ∙ rw empty (ground arith)),
          )
      | inr some_of_them ↦
          let t : resolve_mixed es entries sum total ≡ ok m = rw some_of_them at h2 in
          let (parts, count, whole) = resolve_mixed-map es entries sum total m t in
          let writes = set_percentages-Writes entries parts (set_fixed es []) count in
          rw whole (
            writes.0 (fixed_writes.0 tt),
            λ j. ground (arith, writes.1 j, fixed_writes.1 j, sequences-split es j),
          )
    ]
