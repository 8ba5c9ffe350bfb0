-- ===== src/StepUp/Totp.antt =====
-- apps/backend/src/auth/step-up/totp.ts: the codes of an authenticator app. The keyed hash of
-- node:crypto is a parameter, on bytes. Secrets and codes are ASCII; `now` is at least one window after
-- 1970, so that no counter is negative, and counters are below 2 ^ 64.
use rayi.Prelude.{
  Bool, true, false, not, ◌&&◌, ◌||◌, Option, none, some, List, [], ◌∷◌, ◌++◌, map, ℕ, zero, suc,
  ◌+◌, ◌-◌, ◌*◌, ◌/◌, ◌%◌, ◌^◌, Text, codes, text_eq, is_space, is_empty, ◌==◌, ltb, leb,
  if◌then◌else◌, length, get_elem?, select, pos,
}
use rayi.Money.Decimal.{bigint_to_text}

pub data Algorithm : Type 0 where
  sha1 sha256 sha512 : Algorithm

-- `createHmac(algorithm, key).update(message).digest()`
abbrev pub Hmac : Type 0
Hmac = Algorithm → List ℕ → List ℕ → List ℕ

pub record TotpOptions : Type 0 where
  pub period : ℕ
  pub digits : ℕ
  pub window : ℕ
  pub algorithm : Algorithm

-- `DEFAULT_PERIOD`, `DEFAULT_DIGITS`, `DEFAULT_WINDOW`
abbrev pub default_options : TotpOptions
default_options = record { period = 30; digits = 6; window = 1; algorithm = sha1 }

-- The lowest `n` bytes of a number, the highest of them first: `writeBigUInt64BE` at 8.
abbrev pub big_endian : ℕ → ℕ → List ℕ
big_endian zero c = []
big_endian (suc n) c = big_endian n (c / 256) ++ c % 256 ∷ []

abbrev or_zero : Option ℕ → ℕ
or_zero none = 0
or_zero (some b) = b

-- `digest[i]`, as the bit operations read it.
abbrev byte_at : List ℕ → ℕ → ℕ
byte_at bytes i = or_zero (get_elem? bytes i)

-- The dynamic truncation of RFC 4226.
unfoldable pub truncated : List ℕ → ℕ
truncated digest =
    let offset = byte_at digest (length digest - 1) % 16 in
    byte_at digest offset % 128 * 2 ^ 24
    + byte_at digest (offset + 1) % 256 * 2 ^ 16
    + byte_at digest (offset + 2) % 256 * 2 ^ 8
    + byte_at digest (offset + 3) % 256

abbrev pub zeros : ℕ → Text
zeros zero = []
zeros (suc n) = b'0' ∷ zeros n

-- `s.padStart(n, '0')`
abbrev pub pad_start : ℕ → Text → Text
pad_start n s = zeros (n - length s) ++ s

-- `s.replace(/\s+/g, '')`
abbrev pub strip_space : Text → Text
strip_space s = select (λ c. not (is_space c)) s

abbrev all_digits : Text → Bool
all_digits [] = true
all_digits (c ∷ s) = (leb b'0' c && leb c b'9') && all_digits s

abbrev pub alphabet : Text
alphabet = codes "ABCDEFGHIJKLMNOPQRSTUVWXYZ234567"

abbrev map_suc : Option ℕ → Option ℕ
map_suc none = none
map_suc (some i) = some (suc i)

-- `alphabet.indexOf(char)`, none for -1.
abbrev pub index_of : ℕ → Text → Option ℕ
index_of c [] = none
index_of c (d ∷ s) = if d == c then some 0 else map_suc (index_of c s)

-- `alphabet[i]`, at an index below 32.
abbrev pub char_at : ℕ → ℕ
char_at i = or_zero (get_elem? alphabet i)

-- The shifts of a 32-bit word: `(value << n) | low`, where `low` is below `2 ^ n`.
abbrev pub shift_in : ℕ → ℕ → ℕ → ℕ
shift_in value n low = value * 2 ^ n % 2 ^ 32 + low

abbrev prepend : Bool → ℕ → Option (List ℕ) → Option (List ℕ)
prepend emits byte none = none
prepend true byte (some out) = some (byte ∷ out)
prepend false byte (some out) = some out

-- A character of `decodeBase32`, with the rest of the loop: a word of eight bits or more gives a byte.
abbrev pub take_char : (ℕ → ℕ → Option (List ℕ)) → ℕ → ℕ → Option ℕ → Option (List ℕ)
take_char rest bits value none = none
take_char rest bits value (some index) =
    let word = shift_in value 5 index in
    let more = leb 8 (bits + 5) in
    prepend more (word / 2 ^ (bits + 5 - 8) % 256)
      (rest (if more then bits + 5 - 8 else bits + 5) word)

-- The loop of `decodeBase32`: the bytes still to come.
unfoldable pub decode_from : ℕ → ℕ → Text → Option (List ℕ)
decode_from bits value [] = some []
decode_from bits value (c ∷ s) =
    take_char (λ b v. decode_from b v s) bits value (index_of c alphabet)

-- `replace(/=+$/, '')`
abbrev pub strip_padding : Text → Text
strip_padding [] = []
strip_padding (c ∷ s) =
    let rest = strip_padding s in if c == b'=' && is_empty rest then [] else c ∷ rest

abbrev pub to_upper : ℕ → ℕ
to_upper c = if leb b'a' c && leb c b'z' then c - 32 else c

abbrev pub normalised : Text → Text
normalised s = map to_upper (strip_space (strip_padding s))

-- `decodeBase32`
unfoldable pub decode_base32 : Text → Option (List ℕ)
unfolding decode_from
decode_base32 input =
    if is_empty (normalised input) then none else decode_from 0 0 (normalised input)

-- The inner `while` of `encodeBase32`, on fuel: the characters, and the bits that are left.
unfoldable pub emit_groups : ℕ → ℕ → ℕ → Text × ℕ
emit_groups zero bits value = ([], bits)
emit_groups (suc fuel) bits value =
    let (chars, left) = emit_groups fuel (bits - 5) value in
    if leb 5 bits then (char_at (value / 2 ^ (bits - 5) % 32) ∷ chars, left) else ([], bits)

-- The loop of `encodeBase32`. Each round of the inner loop takes 5 bits, so the bits are fuel enough.
unfoldable pub encode_from : ℕ → ℕ → List ℕ → Text
unfolding emit_groups
encode_from bits value [] = if ltb 0 bits then char_at (value * 2 ^ (5 - bits) % 32) ∷ [] else []
encode_from bits value (byte ∷ bytes) =
    let word = shift_in value 8 byte in
    let (chars, left) = emit_groups (bits + 8) (bits + 8) word in
    chars ++ encode_from left word bytes

-- `encodeBase32`
unfoldable pub encode_base32 : List ℕ → Text
unfolding encode_from
encode_base32 bytes = encode_from 0 0 bytes

module _ (hmac : Hmac) where
  -- `generateAt`
  unfoldable pub generate_at : TotpOptions → List ℕ → ℕ → Text
  unfolding truncated
  generate_at options secret counter =
      let digest = hmac options.algorithm secret (big_endian 8 counter) in
      pad_start options.digits (bigint_to_text (pos (truncated digest % 10 ^ options.digits)))

  -- The loop over the window, from its first step; it does not stop at a match.
  unfoldable pub matched_from : ℕ → TotpOptions → List ℕ → ℕ → Text → Bool
  unfolding generate_at
  matched_from zero options secret counter code = false
  matched_from (suc left) options secret counter code =
      text_eq (generate_at options secret counter) code
      || matched_from left options secret (counter + 1) code

  abbrev pub verify_secret : TotpOptions → ℕ → Text → Option (List ℕ) → Bool
  verify_secret options now_ms code none = false
  verify_secret options now_ms code (some []) = false
  verify_secret options now_ms code (some (b ∷ bs)) =
      matched_from (options.window + options.window + 1) options (b ∷ bs)
        (now_ms / 1_000 / options.period - options.window) code

  -- `verifyTotp`, on a secret in base32.
  unfoldable pub verify_totp : TotpOptions → ℕ → Text → Text → Bool
  unfolding matched_from decode_base32
  verify_totp options now_ms secret code =
      let digits = strip_space code in
      if length digits == options.digits && all_digits digits
      then verify_secret options now_ms digits (decode_base32 secret)
      else false
