-- ===== src/Money/Currency.antt =====
-- packages/domain/src/money/currency.ts: the closed table of currencies and their exponents.
use rayi.Prelude.{
  ℕ, Text, codes, text_eq, text_eq→eq, text_eq_refl, Bool, true, Option, some, List, [], ◌∷◌, find,
  find-holds, ◌≡◌, refl, ap,
}

pub data Currency : Type 0 where
  usd cad eur gbp aud inr jpy krw bhd kwd : Currency

-- `CURRENCY_EXPONENTS`, read by `exponentOf`.
unfoldable pub exponent_of : Currency → ℕ
exponent_of usd = 2
exponent_of cad = 2
exponent_of eur = 2
exponent_of gbp = 2
exponent_of aud = 2
exponent_of inr = 2
exponent_of jpy = 0
exponent_of krw = 0
exponent_of bhd = 3
exponent_of kwd = 3

-- The key of a currency in the table, which is how the program spells it.
abbrev pub currency_code : Currency → Text
currency_code usd = codes "USD"
currency_code cad = codes "CAD"
currency_code eur = codes "EUR"
currency_code gbp = codes "GBP"
currency_code aud = codes "AUD"
currency_code inr = codes "INR"
currency_code jpy = codes "JPY"
currency_code krw = codes "KRW"
currency_code bhd = codes "BHD"
currency_code kwd = codes "KWD"

-- The keys of the table.
abbrev currencies : List Currency
currencies = usd ∷ cad ∷ eur ∷ gbp ∷ aud ∷ inr ∷ jpy ∷ krw ∷ bhd ∷ kwd ∷ []

-- The own key of the table that a string is: `isCurrency` holds when there is one.
unfoldable pub find_currency : Text → Option Currency
find_currency s = find (λ c. text_eq s (currency_code c)) currencies

pub find_currency-currency_code : (c : Currency) → find_currency (currency_code c) ≡ some c
unfolding find_currency
find_currency-currency_code usd = refl
find_currency-currency_code _ = refl

-- `this.currency === other.currency`
unfoldable pub currency_eq : Currency → Currency → Bool
currency_eq a b = text_eq (currency_code a) (currency_code b)

pub currency_eq→eq : (a b : Currency) → currency_eq a b ≡ true → a ≡ b
unfolding currency_eq
currency_eq→eq a b h = cc (
  find_currency-currency_code a,
  find_currency-currency_code b,
  ap find_currency (text_eq→eq (currency_code a) (currency_code b) h),
)

pub currency_eq_refl : (a : Currency) → currency_eq a a ≡ true
unfolding currency_eq
currency_eq_refl a = text_eq_refl (currency_code a)

-- A string that is accepted is the code of the currency it stands for.
pub find_currency_sound : (s : Text) (c : Currency) → find_currency s ≡ some c → s ≡ currency_code c
unfolding find_currency
find_currency_sound s c h =
    text_eq→eq s (currency_code c) (find-holds (λ d. text_eq s (currency_code d)) currencies c h)
