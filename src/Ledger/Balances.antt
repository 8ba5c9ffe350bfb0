-- ===== src/Ledger/Balances.antt =====
-- What the loop of `ledger.post_entry` over the accounts of an entry does to the balances.
use rayi.Prelude.{
  true, false, ◌||◌, Option, none, some, List, [], ◌∷◌, map, Identifier, ◌==◌, leb, if◌then◌else◌,
  ℤ, pos, ◌+ℤ◌, leb_ℤ, sum_ℤ, ok, ◌>>=◌, set_of, has, has-set_of, ◌≡◌, refl, ap, sym, ◌∙◌, arith,
  int_laws, Bool-cases, inl, inr, All, >>=-eq-ok, +ℤ_assoc,
}
use rayi.Prelude.Sorting.{sort, sum_ℤ-sort}
use rayi.Ledger.{AccountBalance, EntryLine, natural_total, move_balance, move_balances, accounts_of}

-- The balance of an account, if it has one.
abbrev pub amount_at : Identifier → List AccountBalance → Option ℤ
amount_at c [] = none
amount_at c (b ∷ bs) = if b.account_id == c then some b.balance_minor else amount_at c bs

abbrev pub shift : ℤ → Option ℤ → Option ℤ
shift d none = none
shift d (some x) = some (x +ℤ d)

-- What a delta of account `a` is for account `c`.
abbrev pub for_account : Identifier → Identifier → ℤ → ℤ
for_account c a d = if a == c then d else pos 0

abbrev pub MaySpend : AccountBalance → Type 0
MaySpend b = (b.allow_negative || leb_ℤ (pos 0) b.balance_minor) ≡ true

shift_zero : (o : Option ℤ) → shift (pos 0) o ≡ o
shift_zero none = refl
shift_zero (some x) = ap some (omega int_laws)

shift-shift : (d e : ℤ) (o : Option ℤ) → shift e (shift d o) ≡ shift (d +ℤ e) o
shift-shift d e none = refl
shift-shift d e (some x) = ap some (+ℤ_assoc x d e)

-- The account of a moved balance has the delta added, every other account its old balance.
move_balance-amount :
    (a : Identifier) (d : ℤ) (bs moved : List AccountBalance) (c : Identifier)
    → move_balance a d bs ≡ ok moved
    → amount_at c moved ≡ shift (for_account c a d) (amount_at c bs)
unfolding move_balance
move_balance-amount a d [] moved c h = cc
move_balance-amount a d (b ∷ bs) moved c h = elim (Bool-cases (b.account_id == a)) [
  | inl here ↦ elim (Bool-cases (b.allow_negative || leb_ℤ (pos 0) (b.balance_minor +ℤ d))) [
    | inl allowed ↦ ground (arith, shift_zero (amount_at c bs), shift_zero (some b.balance_minor))
    | inr refused ↦ ground arith
  ]
  | inr later ↦
      let t : (move_balance a d bs >>= λ m. ok (b ∷ m)) ≡ ok moved = rw later at h in
      let (m, q, e) = >>=-eq-ok (move_balance a d bs) (λ m. ok (b ∷ m)) t in
      let ih = move_balance-amount a d bs m c q in
      ground (arith, ih, shift_zero (some b.balance_minor))
]

move_balance-MaySpend :
    (a : Identifier) (d : ℤ) (bs moved : List AccountBalance)
    → move_balance a d bs ≡ ok moved
    → All MaySpend bs
    → All MaySpend moved
unfolding move_balance
move_balance-MaySpend a d [] moved h s = cc
move_balance-MaySpend a d (b ∷ bs) moved h s = elim (Bool-cases (b.account_id == a)) [
  | inl here ↦ elim (Bool-cases (b.allow_negative || leb_ℤ (pos 0) (b.balance_minor +ℤ d))) [
    | inl allowed ↦ ground (arith, s)
    | inr refused ↦ ground arith
  ]
  | inr later ↦
      let t : (move_balance a d bs >>= λ m. ok (b ∷ m)) ≡ ok moved = rw later at h in
      let (m, q, e) = >>=-eq-ok (move_balance a d bs) (λ m. ok (b ∷ m)) t in
      let ih = move_balance-MaySpend a d bs m q s.1 in ground (arith, ih, s)
]

pub move_balances-MaySpend :
    (ls : List EntryLine) (ids : List Identifier) (bs moved : List AccountBalance)
    → move_balances ls ids bs ≡ ok moved
    → All MaySpend bs
    → All MaySpend moved
unfolding move_balances
move_balances-MaySpend ls [] bs moved h s = ground (arith, s)
move_balances-MaySpend ls (a ∷ ids) bs moved h s =
    let (m, q, e) = >>=-eq-ok (move_balance a (natural_total a ls) bs) (move_balances ls ids) h in
    move_balances-MaySpend ls ids m moved e (move_balance-MaySpend a (natural_total a ls) bs m q s)

abbrev delta_for : Identifier → List EntryLine → Identifier → ℤ
delta_for c ls a = for_account c a (natural_total a ls)

move_balances-amount :
    (ls : List EntryLine) (ids : List Identifier) (bs moved : List AccountBalance) (c : Identifier)
    → move_balances ls ids bs ≡ ok moved
    → amount_at c moved ≡ shift (sum_ℤ (map (delta_for c ls) ids)) (amount_at c bs)
unfolding move_balances
move_balances-amount ls [] bs moved c h = ground (arith, shift_zero (amount_at c bs))
move_balances-amount ls (a ∷ ids) bs moved c h =
    let (m, q, e) = >>=-eq-ok (move_balance a (natural_total a ls) bs) (move_balances ls ids) h in
    move_balances-amount ls ids m moved c e
    ∙ ap (shift (sum_ℤ (map (delta_for c ls) ids)))
        (move_balance-amount a (natural_total a ls) bs m c q)
    ∙ shift-shift (delta_for c ls a) (sum_ℤ (map (delta_for c ls) ids)) (amount_at c bs)

add_zero : (x : ℤ) → x +ℤ pos 0 ≡ x
add_zero x = omega int_laws

zero_add : (x : ℤ) → pos 0 +ℤ x ≡ x
zero_add x = omega int_laws

delta-set_of :
    (c : Identifier) (ls : List EntryLine) (xs : List Identifier)
    → sum_ℤ (map (delta_for c ls) (set_of xs)) ≡ (if has xs c then natural_total c ls else pos 0)
unfolding set_of
delta-set_of c ls [] = refl
delta-set_of c ls (x ∷ xs) = ground (
  arith,
  delta-set_of c ls xs,
  has-set_of xs x,
  add_zero (natural_total x ls),
  zero_add (sum_ℤ (map (delta_for c ls) (set_of xs))),
)

natural_total-absent :
    (c : Identifier) (ls : List EntryLine)
    → has (map (λ l. l.account_id) ls) c ≡ false
    → natural_total c ls ≡ pos 0
natural_total-absent c [] h = refl
natural_total-absent c (l ∷ ls) h = ground (arith, natural_total-absent c ls)

-- The loop adds to the balance of every account the movement of its lines.
pub moved-amount :
    (ls : List EntryLine) (bs moved : List AccountBalance) (c : Identifier)
    → move_balances ls (accounts_of ls) bs ≡ ok moved
    → amount_at c moved ≡ shift (natural_total c ls) (amount_at c bs)
unfolding accounts_of
moved-amount ls bs moved c h =
    let xs = map (λ l. l.account_id) ls in
    let total : sum_ℤ (map (delta_for c ls) (sort leb (set_of xs))) ≡ natural_total c ls =
      sum_ℤ-sort leb (delta_for c ls) (set_of xs)
      ∙ delta-set_of c ls xs
      ∙ elim (Bool-cases (has xs c)) [
        | inl there ↦ rw there
        | inr absent ↦ rw absent (sym (natural_total-absent c ls absent))
      ] in
    move_balances-amount ls (accounts_of ls) bs moved c h ∙ ap (λ d. shift d (amount_at c bs)) total
