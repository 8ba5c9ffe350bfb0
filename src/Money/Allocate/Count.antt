-- ===== src/Money/Allocate/Count.antt =====
-- `Money.allocate` gives one share for each weight.
use rayi.Prelude.{
  ℕ, ◌-◌, ◌≡◌, sym, ap, ◌∙◌, not, List, map, sum, length, length-map, ◌==◌, ℤ, pos, pos_part, ltb_ℤ,
  Result, ok, throw_if-ok, >>=-eq-ok,
}
use rayi.Prelude.Sorting.{sort}
use rayi.Money.Amount.{Money}
use rayi.Money.Allocate.{
  is_nil, total_weight, floor_shares, not_behind, split_shares, of_shares, allocate,
}
use rayi.Money.Allocate.Shares.{length-floor_shares, length-hand_out}

length-split : (amount total : ℕ) (ws : List ℕ) → length (split_shares amount total ws) ≡ length ws
unfolding split_shares
length-split amount total ws =
    let floors = floor_shares amount total 0 ws in
    length-hand_out (amount - floors.distributed) (sort not_behind floors.remainders) floors.shares
    ∙ (length-floor_shares amount total 0 ws).0

pub ok-injective : {E A : Type 0} {a b : A} → ◌≡◌ {A = Result E A} (ok a) (ok b) → a ≡ b
ok-injective h = cc

pub length-allocate :
    (m : Money) (ws : List ℤ) (parts : List Money)
    → allocate m ws ≡ ok parts
    → length parts ≡ length ws
unfolding allocate
length-allocate m ws parts h =
    let (filled, h1) = throw_if-ok (is_nil ws) _ _ h in
    let (positive, h2) = throw_if-ok (ltb_ℤ m.amount_minor (pos 0)) _ _ h1 in
    let (total, weighed, h3) = >>=-eq-ok (total_weight 0 ws) _ h2 in
    let (some_weight, h4) = throw_if-ok (total == 0) _ _ h3 in
    let shares = split_shares (pos_part m.amount_minor) total (map pos_part ws) in
    let (exact, h5) = throw_if-ok (not (sum shares == pos_part m.amount_minor)) _ _ h4 in
    let done : of_shares m.currency shares ≡ parts = ok-injective h5 in
    ap length (sym done)
    ∙ length-map _ shares
    ∙ length-split (pos_part m.amount_minor) total (map pos_part ws)
    ∙ length-map _ ws
