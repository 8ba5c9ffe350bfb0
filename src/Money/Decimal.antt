-- ===== src/Money/Decimal.antt =====
-- Minor units as text: `BigInt.prototype.toString`, `BigInt(s)`, and the pattern that
-- packages/domain/src/money/money.ts accepts before it calls the latter.
use rayi.Prelude.{
  ℕ, zero, suc, ◌+◌, ◌-◌, ◌*◌, ◌/◌, ◌%◌, ◌<◌, ◌≡◌, refl, Bool, true, false, ◌&&◌, [], ◌∷◌, ◌++◌,
  arith, ap, ◌∙◌, Text, ltb, leb, ◌==◌, if◌then◌else◌, is_empty, ℤ, pos, negsuc, Bool-cases, inl,
  inr,
}

-- The decimal digits of `n`, on fuel: one more than `n` is enough.
abbrev digits_on : ℕ → ℕ → Text
digits_on zero n = []
digits_on (suc f) n =
    let rest = digits_on f (n / 10) in
    if ltb n 10 then (48 + n) ∷ [] else rest ++ (48 + n % 10) ∷ []

to_decimal : ℕ → Text
to_decimal n = digits_on (suc n) n

-- `amountMinor.toString()`
unfoldable pub bigint_to_text : ℤ → Text
unfolding to_decimal
bigint_to_text (pos n) = to_decimal n
bigint_to_text (negsuc n) = b'-' ∷ to_decimal (suc n)

abbrev is_digit : ℕ → Bool
is_digit c = leb b'0' c && leb c b'9'

abbrev all_digits : Text → Bool
all_digits [] = true
all_digits (c ∷ s) = is_digit c && all_digits s

-- `(0|[1-9][0-9]*)`
abbrev natural_pattern : Text → Bool
natural_pattern [] = false
natural_pattern (c ∷ s) = if c == b'0' then is_empty s else is_digit c && all_digits s

-- `MINOR_UNITS_PATTERN`, /^-?(0|[1-9][0-9]*)$/
unfoldable pub minor_units_pattern : Text → Bool
minor_units_pattern [] = false
minor_units_pattern (c ∷ s) = if c == b'-' then natural_pattern s else natural_pattern (c ∷ s)

abbrev value_from : ℕ → Text → ℕ
value_from acc [] = acc
value_from acc (c ∷ s) = value_from (acc * 10 + (c - 48)) s

abbrev negate_ℕ : ℕ → ℤ
negate_ℕ zero = pos 0
negate_ℕ (suc n) = negsuc n

-- `BigInt(s)` on a text that fits the pattern.
unfoldable pub text_to_bigint : Text → ℤ
text_to_bigint [] = pos 0
text_to_bigint (c ∷ s) = if c == b'-' then negate_ℕ (value_from 0 s) else pos (value_from 0 (c ∷ s))

value_from-append :
    (acc : ℕ) (s t : Text) → value_from acc (s ++ t) ≡ value_from (value_from acc s) t
value_from-append acc [] t = refl
value_from-append acc (c ∷ s) t = value_from-append (acc * 10 + (c - 48)) s t

value-digits_on : (f n : ℕ) → n < f → value_from 0 (digits_on f n) ≡ n
value-digits_on zero n h = absurd (omega arith)
value-digits_on (suc f) n h = elim (Bool-cases (ltb n 10)) [
  | inl small ↦ rw small (omega arith)
  | inr large ↦
      rw (large, value_from-append 0 (digits_on f (n / 10)) ((48 + n % 10) ∷ []))
        (omega (arith, value-digits_on f (n / 10) (ground arith)))
]

-- A text that begins with a digit other than 0 and has digits only.
abbrev positive_pattern : Text → Bool
positive_pattern [] = false
positive_pattern (c ∷ s) = leb b'1' c && is_digit c && all_digits s

all_digits-append :
    (s : Text) (d : ℕ) → all_digits s ≡ true → is_digit d ≡ true → all_digits (s ++ d ∷ []) ≡ true
all_digits-append [] d h e = ground arith
all_digits-append (c ∷ s) d h e = ground (arith, all_digits-append s d)

positive_pattern-append :
    (s : Text) (d : ℕ)
    → positive_pattern s ≡ true
    → is_digit d ≡ true
    → positive_pattern (s ++ d ∷ []) ≡ true
positive_pattern-append [] d h e = cc
positive_pattern-append (c ∷ s) d h e = ground (arith, all_digits-append s d)

positive-digits_on : (f n : ℕ) → 0 < n → n < f → positive_pattern (digits_on f n) ≡ true
positive-digits_on zero n p h = absurd (omega arith)
positive-digits_on (suc f) n p h = elim (Bool-cases (ltb n 10)) [
  | inl small ↦ rw small (ground arith)
  | inr large ↦ rw large (
      positive_pattern-append (digits_on f (n / 10)) (48 + n % 10)
        (positive-digits_on f (n / 10) (ground arith) (ground arith)) (ground arith))
]

natural_of_positive : (s : Text) → positive_pattern s ≡ true → natural_pattern s ≡ true
natural_of_positive [] h = cc
natural_of_positive (c ∷ s) h = ground arith

minor_of_natural : (s : Text) → natural_pattern s ≡ true → minor_units_pattern s ≡ true
unfolding minor_units_pattern
minor_of_natural [] h = cc
minor_of_natural (c ∷ s) h = ground arith

natural-to_decimal : (n : ℕ) → natural_pattern (to_decimal (suc n)) ≡ true
unfolding to_decimal
natural-to_decimal n =
    natural_of_positive (digits_on (suc (suc n)) (suc n))
      (positive-digits_on (suc (suc n)) (suc n) (omega arith) (omega arith))

-- What is printed fits the pattern.
pub minor_units_pattern-print : (a : ℤ) → minor_units_pattern (bigint_to_text a) ≡ true
unfolding bigint_to_text minor_units_pattern
minor_units_pattern-print (pos zero) = refl
minor_units_pattern-print (pos (suc n)) =
    minor_of_natural (to_decimal (suc n)) (natural-to_decimal n)
minor_units_pattern-print (negsuc n) = natural-to_decimal n

read_natural : (s : Text) → natural_pattern s ≡ true → text_to_bigint s ≡ pos (value_from 0 s)
unfolding text_to_bigint
read_natural [] h = cc
read_natural (c ∷ s) h = ground arith

-- What is printed reads back as the same integer.
pub read-print : (a : ℤ) → text_to_bigint (bigint_to_text a) ≡ a
unfolding bigint_to_text text_to_bigint
read-print (pos zero) = refl
read-print (pos (suc n)) =
    read_natural (to_decimal (suc n)) (natural-to_decimal n)
    ∙ ap pos (value-digits_on (suc (suc n)) (suc n) (omega arith))
read-print (negsuc n) = ap negate_ℕ (value-digits_on (suc (suc n)) (suc n) (omega arith))
