-- ===== src/Ledger/SqlState.antt =====
-- apps/backend/src/database/sqlstate.ts: the SQLSTATE of an error, wherever the driver put it; and the
-- error classes of apps/backend/src/ledger/domain/ledger.types.ts. An error is what the reader of
-- SQLSTATEs sees of it: the codes of it and of its causes, and its message.
use Prim.Native.String.{String}
use rayi.Prelude.{
  Bool, true, false, ◌&&◌, ◌||◌, Option, none, some, List, [], ◌∷◌, ℕ, zero, suc, Text, codes,
  text_eq, ◌==◌, leb, if◌then◌else◌, length, take, ◌≡◌, arith, Bool-cases, inl, inr,
}

-- `code` and `meta.code` of an error of the `cause` chain.
pub record Cause : Type 0 where
  pub code : Option Text
  pub meta_code : Option Text

-- The error, its cause, the cause of that and so on.
pub record Error : Type 0 where
  pub causes : List Cause
  pub message : Text

abbrev all_of : (ℕ → Bool) → Text → Bool
all_of p [] = true
all_of p (c ∷ s) = p c && all_of p s

abbrev is_digit : ℕ → Bool
is_digit c = leb b'0' c && leb c b'9'

abbrev is_capital : ℕ → Bool
is_capital c = leb b'A' c && leb c b'Z'

abbrev is_small : ℕ → Bool
is_small c = leb b'a' c && leb c b'z'

-- `/^[0-9A-Z]{5}$/`
abbrev pub has_shape : Text → Bool
has_shape s = length s == 5 && all_of (λ c. is_digit c || is_capital c) s

abbrev pub shaped : Option Text → Option Text
shaped none = none
shaped (some s) = if has_shape s then some s else none

abbrev pub first_of : Option Text → Option Text → Option Text
first_of (some s) rest = some s
first_of none rest = rest

-- The walk along the causes, to the given depth.
unfoldable pub state_of_causes : ℕ → List Cause → Option Text
state_of_causes zero cs = none
state_of_causes (suc depth) [] = none
state_of_causes (suc depth) (c ∷ cs) =
    first_of (shaped c.code) (first_of (shaped c.meta_code) (state_of_causes depth cs))

-- `\w`, `\s` (below U+0100) and a literal prefix of the regular expression.
abbrev is_word : ℕ → Bool
is_word c = is_digit c || (is_capital c || (is_small c || c == b'_'))

abbrev is_space : ℕ → Bool
is_space c = (leb 9 c && leb c 13) || (c == 32 || c == 160)

abbrev after_prefix : Text → Text → Option Text
after_prefix [] s = some s
after_prefix (p ∷ ps) [] = none
after_prefix (p ∷ ps) (c ∷ s) = if p == c then after_prefix ps s else none

abbrev skip_space : Text → Text
skip_space [] = []
skip_space (c ∷ s) = if is_space c then skip_space s else c ∷ s

abbrev drop : ℕ → Text → Text
drop zero s = s
drop (suc n) [] = []
drop (suc n) (c ∷ s) = drop n s

-- Five characters of the class and the closing quote.
abbrev quoted_state : Option Text → Option Text
quoted_state none = none
quoted_state (some s) =
    if has_shape (take 5 s) && text_eq (take 1 (drop 5 s)) (b'"' ∷ [])
    then some (take 5 s)
    else none

abbrev after_colon : Option Text → Option Text
after_colon none = none
after_colon (some s) = quoted_state (after_prefix (b'"' ∷ []) (skip_space s))

-- The first match of `/\bcode:\s*"([0-9A-Z]{5})"/`; the flag says that a word character stands before.
unfoldable pub embedded_state : Bool → Text → Option Text
embedded_state in_word [] = none
embedded_state in_word (c ∷ s) =
    let later = embedded_state (is_word c) s in
    if in_word then later else first_of (after_colon (after_prefix (codes "code:") (c ∷ s))) later

-- `sqlStateOf`
unfoldable pub sql_state_of : Error → Option Text
unfolding state_of_causes embedded_state
sql_state_of e = first_of (state_of_causes 10 e.causes) (embedded_state false e.message)

-- What the database raises with a SQLSTATE.
abbrev pub sql_error : String → Error
sql_error state = record {
  causes = record { code = some (codes state); meta_code = none } ∷ [];
  message = [];
}

-- `LedgerErrorCode` and `LedgerError`, whose `code` is the word of the type.
pub data LedgerErrorCode : Type 0 where
  unbalanced insufficient_funds no_such_account duplicate_posting post_failed : LedgerErrorCode

abbrev error_word : LedgerErrorCode → Text
error_word unbalanced = codes "UNBALANCED"
error_word insufficient_funds = codes "INSUFFICIENT_FUNDS"
error_word no_such_account = codes "NO_SUCH_ACCOUNT"
error_word duplicate_posting = codes "DUPLICATE_POSTING"
error_word post_failed = codes "POST_FAILED"

abbrev pub ledger_error : LedgerErrorCode → Error
ledger_error c = record {
  causes = record { code = some (error_word c); meta_code = none } ∷ [];
  message = [];
}

shaped-HasShape : (o : Option Text) (s : Text) → shaped o ≡ some s → has_shape s ≡ true
shaped-HasShape none s h = cc
shaped-HasShape (some t) s h = elim (Bool-cases (has_shape t)) [
  | inl y ↦ ground arith
  | inr n ↦ ground arith
]

first_of-HasShape :
    (o r : Option Text) (s : Text)
    → (o ≡ some s → has_shape s ≡ true)
    → (r ≡ some s → has_shape s ≡ true)
    → first_of o r ≡ some s
    → has_shape s ≡ true
first_of-HasShape none r s f g h = g h
first_of-HasShape (some t) r s f g h = f h

causes-HasShape :
    (depth : ℕ) (cs : List Cause) (s : Text)
    → state_of_causes depth cs ≡ some s
    → has_shape s ≡ true
unfolding state_of_causes
causes-HasShape zero cs s h = cc
causes-HasShape (suc depth) [] s h = cc
causes-HasShape (suc depth) (c ∷ cs) s h =
    first_of-HasShape (shaped c.code) _ s (shaped-HasShape c.code s)
      (first_of-HasShape (shaped c.meta_code) _ s (shaped-HasShape c.meta_code s)
        (causes-HasShape depth cs s))
      h

quoted-HasShape : (o : Option Text) (s : Text) → quoted_state o ≡ some s → has_shape s ≡ true
quoted-HasShape none s h = cc
quoted-HasShape (some t) s h =
    elim (Bool-cases (has_shape (take 5 t) && text_eq (take 1 (drop 5 t)) (b'"' ∷ []))) [
      | inl y ↦ ground arith
      | inr n ↦ ground arith
    ]

colon-HasShape : (o : Option Text) (s : Text) → after_colon o ≡ some s → has_shape s ≡ true
colon-HasShape none s h = cc
colon-HasShape (some t) s h = quoted-HasShape (after_prefix (b'"' ∷ []) (skip_space t)) s h

embedded-HasShape : (w : Bool) (m s : Text) → embedded_state w m ≡ some s → has_shape s ≡ true
unfolding embedded_state
embedded-HasShape w [] s h = cc
embedded-HasShape true (c ∷ m) s h = embedded-HasShape (is_word c) m s h
embedded-HasShape false (c ∷ m) s h =
    first_of-HasShape (after_colon (after_prefix (codes "code:") (c ∷ m))) _ s
      (colon-HasShape (after_prefix (codes "code:") (c ∷ m)) s) (embedded-HasShape (is_word c) m s)
      h

-- Wherever `sqlStateOf` finds a state (the codes of the error, of its causes, or its message), it is
-- five characters, each a digit or a capital letter.
pub sql_state_of-HasShape : (e : Error) (s : Text) → sql_state_of e ≡ some s → has_shape s ≡ true
unfolding sql_state_of
sql_state_of-HasShape e s h =
    first_of-HasShape (state_of_causes 10 e.causes) _ s (causes-HasShape 10 e.causes s)
      (embedded-HasShape false e.message s) h
