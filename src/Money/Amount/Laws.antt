-- ===== src/Money/Amount/Laws.antt =====
-- Arithmetic of packages/domain/src/money/money.ts: currencies never mix, and `compare` is an order.
use rayi.Prelude.{
  ◌≡◌, ◌≢◌, ◌↔◌, true, false, List, [], ◌∷◌, map, All, arith, ℤ, pos, negsuc, ◌+ℤ◌, ◌-ℤ◌, ◌<ℤ◌,
  int_laws, sum_ℤ, +ℤ_assoc, sym, ok, err, Bool-cases, inl, inr,
}
use rayi.Money.Currency.{Currency, currency_eq, currency_eq→eq, currency_eq_refl}
use rayi.Money.Amount.{
  Money, currency_mismatch, add, subtract, compare, equals, sum_from, sum_money, zero_of,
}

currency_eq_ne : (a b : Currency) → a ≢ b → currency_eq a b ≡ false
currency_eq_ne a b ne = elim (Bool-cases (currency_eq a b)) [
  | inl same ↦ absurd (ne (currency_eq→eq a b same))
  | inr differs ↦ differs
]

currency_eq_of : {a b : Currency} → a ≡ b → currency_eq a b ≡ true
currency_eq_of {a} e = rw (← e) (currency_eq_refl a)

-- On one currency adding succeeds, keeps the currency, and subtracting undoes it.
pub add-subtract :
    (m n : Money)
    → m.currency ≡ n.currency
    → let s : Money = record m { amount_minor = m.amount_minor +ℤ n.amount_minor } in
      (add m n ≡ ok s) × (subtract s n ≡ ok m)
unfolding add subtract
add-subtract m n e =
    let t : currency_eq m.currency n.currency ≡ true = currency_eq_of e in
    let u : m.amount_minor +ℤ n.amount_minor -ℤ n.amount_minor ≡ m.amount_minor = omega int_laws in
    (rw t, rw (t, u))

-- On two currencies adding, subtracting and comparing all throw `CurrencyMismatchError`.
pub mismatch_throws :
    (m n : Money)
    → m.currency ≢ n.currency
    → (add m n ≡ err (currency_mismatch m.currency n.currency))
      × (subtract m n ≡ err (currency_mismatch m.currency n.currency))
      × (compare m n ≡ err (currency_mismatch m.currency n.currency))
unfolding add subtract compare
mismatch_throws m n ne = let t = currency_eq_ne m.currency n.currency ne in (rw t, rw t, rw t)

-- On one currency `compare` is antisymmetric, tells the order of the amounts, and is 0 exactly
-- where `equals` holds.
pub compare_order :
    (m n : Money)
    → m.currency ≡ n.currency
    → ((compare m n ≡ ok (negsuc 0)) ↔ (compare n m ≡ ok (pos 1)))
      × ((compare m n ≡ ok (negsuc 0)) ↔ (m.amount_minor <ℤ n.amount_minor))
      × ((compare m n ≡ ok (pos 0)) ↔ (equals m n ≡ true))
unfolding compare equals
compare_order m n e =
    let t : currency_eq m.currency n.currency ≡ true = currency_eq_of e in
    let u : currency_eq n.currency m.currency ≡ true = currency_eq_of (sym e) in
    (
      (λ h. ground arith, λ h. ground arith),
      (λ h. ground arith, λ h. ground arith),
      (λ h. ground arith, λ h. ground arith),
    )

abbrev total_of : List Money → ℤ
total_of ms = sum_ℤ (map (λ m. m.amount_minor) ms)

sum_from_lem :
    (acc : Money) (ms : List Money)
    → All (λ m. m.currency ≡ acc.currency) ms
    → sum_from acc ms ≡ ok (record acc { amount_minor = acc.amount_minor +ℤ total_of ms })
unfolding sum_from add
sum_from_lem acc [] h =
    let u : acc.amount_minor +ℤ pos 0 ≡ acc.amount_minor = omega int_laws in rw u
sum_from_lem acc (m ∷ ms) h =
    let t : currency_eq acc.currency m.currency ≡ true = currency_eq_of (sym h.0) in
    let next : Money = record acc { amount_minor = acc.amount_minor +ℤ m.amount_minor } in
    rw (t, sum_from_lem next ms h.1, +ℤ_assoc)

sum_from_same :
    (acc : Money) (ms : List Money) (s : Money)
    → sum_from acc ms ≡ ok s
    → All (λ m. m.currency ≡ acc.currency) ms
unfolding sum_from add
sum_from_same acc [] s h = tt
sum_from_same acc (m ∷ ms) s h = elim (Bool-cases (currency_eq acc.currency m.currency)) [
  | inl same ↦ (
    sym (currency_eq→eq acc.currency m.currency same),
    sum_from_same (record acc { amount_minor = acc.amount_minor +ℤ m.amount_minor }) ms s
        (rw same at h),
  )
  | inr differs ↦ cc (rw differs at h)
]

-- Summing succeeds exactly if every amount has the named currency, and then gives their sum.
pub sum_money_exact :
    (ms : List Money) (c : Currency) (s : Money)
    → (sum_money ms c ≡ ok s)
      ↔ (All (λ m. m.currency ≡ c) ms × (s ≡ record { amount_minor = total_of ms; currency = c }))
unfolding sum_money
sum_money_exact ms c s =
    let zero_add : pos 0 +ℤ total_of ms ≡ total_of ms = omega int_laws in
    (
      λ h.
          let same : All (λ m. m.currency ≡ c) ms = sum_from_same (zero_of c) ms s h in
          (same, cc (sum_from_lem (zero_of c) ms same, zero_add, h)),
      λ h. cc (sum_from_lem (zero_of c) ms h.0, zero_add, h.1),
    )
