-- ===== src/StepUp/Base32.antt =====
-- The base32 of a secret: the loops of `encodeBase32` end, and `decodeBase32` reads back what it writes.
use rayi.Prelude.{
  Bool, true, false, not, ◌&&◌, Option, none, some, List, [], ◌∷◌, ◌++◌, map, ℕ, zero, suc, ◌+◌,
  ◌-◌, ◌*◌, ◌/◌, ◌%◌, ◌^◌, ◌≤◌, ◌<◌, ◌≡◌, refl, sym, arith, inl, inr, Text, is_space, ◌==◌, ltb,
  leb, length, All, Bool-cases,
}
use rayi.StepUp.Totp.{
  alphabet, index_of, char_at, shift_in, decode_from, strip_padding, to_upper, normalised,
  strip_space, decode_base32, emit_groups, encode_from, encode_base32,
}

-- The inner loop of `encodeBase32` ends: with the bits as fuel it takes every whole group of five, and
-- leaves the bits that make no group.
pub emit_groups-total :
    (fuel bits value : ℕ)
    → bits ≤ fuel
    → (length (emit_groups fuel bits value).0 ≡ bits / 5)
      × ((emit_groups fuel bits value).1 ≡ bits % 5)
unfolding emit_groups
emit_groups-total zero bits value h = (omega arith, omega arith)
emit_groups-total (suc fuel) bits value h = elim (Bool-cases (leb 5 bits)) [
  | inl more ↦
      let (count, left) = emit_groups-total fuel (bits - 5) value (ground arith) in
      rw more (ground arith, ground arith)
  | inr done ↦ rw done (ground arith, ground arith)
]

is_some_at : ℕ → Option ℕ → Bool
is_some_at n none = false
is_some_at n (some m) = m == n

-- What every character of the alphabet is: it has its index, and normalising leaves it as it is.
good_char : ℕ → Bool
unfolding is_some_at
good_char n =
    is_some_at n (index_of (char_at n) alphabet)
    && (not (is_space (char_at n))
        && (not (char_at n == b'=') && to_upper (char_at n) == char_at n))

good_below : ℕ → Bool
good_below zero = true
good_below (suc n) = good_char n && good_below n

good_alphabet : good_below 32 ≡ true
unfolding good_below good_char is_some_at
good_alphabet = refl

good_at : (n i : ℕ) → good_below n ≡ true → i < n → good_char i ≡ true
unfolding good_below
good_at zero i h lt = absurd (omega arith)
good_at (suc n) i h lt = elim (Bool-cases (i == n)) [
  | inl here ↦ let same : i ≡ n = ground arith in rw same (ground arith)
  | inr below ↦ good_at n i (ground arith) (ground arith)
]

is_some_at-eq : (n : ℕ) (o : Option ℕ) → is_some_at n o ≡ true → o ≡ some n
unfolding is_some_at
is_some_at-eq n none h = cc
is_some_at-eq n (some m) h = let same : m ≡ n = ground arith in rw same refl

index-char : (i : ℕ) → i < 32 → index_of (char_at i) alphabet ≡ some i
unfolding good_char
index-char i h =
    let good = good_at 32 i good_alphabet h in
    is_some_at-eq i (index_of (char_at i) alphabet) (ground arith)

-- A character of the alphabet as `decodeBase32` takes it: fewer than eight bits.
decode-few :
    (bits value i : ℕ) (s : Text) (out : List ℕ)
    → i < 32
    → bits + 5 < 8
    → decode_from (bits + 5) (shift_in value 5 i) s ≡ some out
    → decode_from bits value (char_at i ∷ s) ≡ some out
unfolding decode_from
decode-few bits value i s out h few rest = rw (index-char i h, decode_from) (ground arith)

-- And a whole byte.
decode-byte :
    (bits value i : ℕ) (s : Text) (out : List ℕ)
    → i < 32
    → 8 ≤ bits + 5
    → decode_from (bits + 5 - 8) (shift_in value 5 i) s ≡ some out
    → decode_from bits value (char_at i ∷ s)
      ≡ some (shift_in value 5 i / 2 ^ (bits + 5 - 8) % 256 ∷ out)
unfolding decode_from
decode-byte bits value i s out h more rest = rw (index-char i h, decode_from) (ground arith)

-- What is decoded from the characters still to come, when `left` bits of the encoder's word are not
-- written and the decoder holds the bits before them.
abbrev RoundTrips : List ℕ → Type 0
RoundTrips bytes =
    ((dv ev : ℕ) → decode_from 0 dv (encode_from 0 ev bytes) ≡ some bytes)
    × ((dv ev : ℕ)
        → decode_from 7 dv (encode_from 1 ev bytes) ≡ some ((dv % 128 * 2 + ev % 2) ∷ bytes))
    × ((dv ev : ℕ)
        → decode_from 6 dv (encode_from 2 ev bytes) ≡ some ((dv % 64 * 4 + ev % 4) ∷ bytes))
    × ((dv ev : ℕ)
        → decode_from 5 dv (encode_from 3 ev bytes) ≡ some ((dv % 32 * 8 + ev % 8) ∷ bytes))
    × ((dv ev : ℕ)
        → decode_from 4 dv (encode_from 4 ev bytes) ≡ some ((dv % 16 * 16 + ev % 16) ∷ bytes))

first_byte :
    {a b : ℕ} {bytes : List ℕ} {o : Option (List ℕ)}
    → o ≡ some (a ∷ bytes)
    → a ≡ b
    → o ≡ some (b ∷ bytes)
first_byte h e = rw (sym e) h

from_0 :
    (dv ev b : ℕ) (bytes : List ℕ)
    → b < 256
    → RoundTrips bytes
    → decode_from 0 dv (encode_from 0 ev (b ∷ bytes)) ≡ some (b ∷ bytes)
unfolding encode_from emit_groups
from_0 dv ev b bytes h trips =
    let w = shift_in ev 8 b in
    let i = w / 8 % 32 in
    decode-few 0 dv i (encode_from 3 w bytes) (b ∷ bytes) (omega arith) (omega arith)
      (first_byte (trips.3 (shift_in dv 5 i) w) (omega arith))

from_3 :
    (dv ev b : ℕ) (bytes : List ℕ)
    → b < 256
    → RoundTrips bytes
    → decode_from 5 dv (encode_from 3 ev (b ∷ bytes)) ≡ some ((dv % 32 * 8 + ev % 8) ∷ b ∷ bytes)
unfolding encode_from emit_groups
from_3 dv ev b bytes h trips =
    let w = shift_in ev 8 b in
    let i = w / 64 % 32 in
    let j = w / 2 % 32 in
    let v = shift_in dv 5 i in
    first_byte
      (decode-byte 5 dv i (char_at j ∷ encode_from 1 w bytes) (b ∷ bytes) (omega arith)
        (omega arith)
        (decode-few 2 v j (encode_from 1 w bytes) (b ∷ bytes) (omega arith) (omega arith)
          (first_byte (trips.1 (shift_in v 5 j) w) (omega arith))))
      (omega arith)

from_1 :
    (dv ev b : ℕ) (bytes : List ℕ)
    → b < 256
    → RoundTrips bytes
    → decode_from 7 dv (encode_from 1 ev (b ∷ bytes)) ≡ some ((dv % 128 * 2 + ev % 2) ∷ b ∷ bytes)
unfolding encode_from emit_groups
from_1 dv ev b bytes h trips =
    let w = shift_in ev 8 b in
    let i = w / 16 % 32 in
    let v = shift_in dv 5 i in
    first_byte
      (decode-byte 7 dv i (encode_from 4 w bytes) (b ∷ bytes) (omega arith) (omega arith)
        (first_byte (trips.4 v w) (omega arith)))
      (omega arith)

from_2 :
    (dv ev b : ℕ) (bytes : List ℕ)
    → b < 256
    → RoundTrips bytes
    → decode_from 6 dv (encode_from 2 ev (b ∷ bytes)) ≡ some ((dv % 64 * 4 + ev % 4) ∷ b ∷ bytes)
unfolding encode_from emit_groups
from_2 dv ev b bytes h trips =
    let w = shift_in ev 8 b in
    let i = w / 32 % 32 in
    let j = w / 1 % 32 in
    let v = shift_in dv 5 i in
    first_byte
      (decode-byte 6 dv i (char_at j ∷ encode_from 0 w bytes) (b ∷ bytes) (omega arith)
        (omega arith)
        (first_byte
          (decode-byte 3 v j (encode_from 0 w bytes) bytes (omega arith) (omega arith)
            (trips.0 (shift_in v 5 j) w))
          (omega arith)))
      (omega arith)

from_4 :
    (dv ev b : ℕ) (bytes : List ℕ)
    → b < 256
    → RoundTrips bytes
    → decode_from 4 dv (encode_from 4 ev (b ∷ bytes)) ≡ some ((dv % 16 * 16 + ev % 16) ∷ b ∷ bytes)
unfolding encode_from emit_groups
from_4 dv ev b bytes h trips =
    let w = shift_in ev 8 b in
    let i = w / 128 % 32 in
    let j = w / 4 % 32 in
    let v = shift_in dv 5 i in
    first_byte
      (decode-byte 4 dv i (char_at j ∷ encode_from 2 w bytes) (b ∷ bytes) (omega arith)
        (omega arith)
        (decode-few 1 v j (encode_from 2 w bytes) (b ∷ bytes) (omega arith) (omega arith)
          (first_byte (trips.2 (shift_in v 5 j) w) (omega arith))))
      (omega arith)

last_byte :
    (bits value i : ℕ) (b : ℕ)
    → i < 32
    → 8 ≤ bits + 5
    → shift_in value 5 i / 2 ^ (bits + 5 - 8) % 256 ≡ b
    → decode_from bits value (char_at i ∷ []) ≡ some (b ∷ [])
unfolding decode_from
last_byte bits value i b h more e = first_byte (decode-byte bits value i [] [] h more refl) e

round_trips : (bytes : List ℕ) → All (λ b. b < 256) bytes → RoundTrips bytes
unfolding encode_from decode_from
round_trips [] h = (
  λ dv ev. refl,
  λ dv ev. last_byte 7 dv (ev * 2 ^ 4 % 32) _ (omega arith) (omega arith) (omega arith),
  λ dv ev. last_byte 6 dv (ev * 2 ^ 3 % 32) _ (omega arith) (omega arith) (omega arith),
  λ dv ev. last_byte 5 dv (ev * 2 ^ 2 % 32) _ (omega arith) (omega arith) (omega arith),
  λ dv ev. last_byte 4 dv (ev * 2 ^ 1 % 32) _ (omega arith) (omega arith) (omega arith),
)
round_trips (b ∷ bytes) h =
    let rest = round_trips bytes h.1 in
    (
      λ dv ev. from_0 dv ev b bytes h.0 rest,
      λ dv ev. from_1 dv ev b bytes h.0 rest,
      λ dv ev. from_2 dv ev b bytes h.0 rest,
      λ dv ev. from_3 dv ev b bytes h.0 rest,
      λ dv ev. from_4 dv ev b bytes h.0 rest,
    )

-- What `encodeBase32` writes are characters that `decodeBase32` does not normalise.
IsNormal : ℕ → Type 0
IsNormal c = (is_space c ≡ false) × ((c == b'=') ≡ false) × (to_upper c ≡ c)

char-IsNormal : (i : ℕ) → i < 32 → IsNormal (char_at i)
unfolding good_char IsNormal
char-IsNormal i h =
    let good = good_at 32 i good_alphabet h in (ground arith, ground arith, ground arith)

All-append : (P : ℕ → Type 0) (s t : Text) → All P s → All P t → All P (s ++ t)
All-append P [] t h k = k
All-append P (c ∷ s) t h k = (h.0, All-append P s t h.1 k)

emit_groups-IsNormal : (fuel bits value : ℕ) → All IsNormal (emit_groups fuel bits value).0
unfolding emit_groups
emit_groups-IsNormal zero bits value = tt
emit_groups-IsNormal (suc fuel) bits value = elim (Bool-cases (leb 5 bits)) [
  | inl more ↦ rw more (
    char-IsNormal (value / 2 ^ (bits - 5) % 32) (omega arith),
    emit_groups-IsNormal fuel (bits - 5) value,
  )
  | inr done ↦ rw done tt
]

encode_from-IsNormal :
    (bits value : ℕ) (bytes : List ℕ) → All IsNormal (encode_from bits value bytes)
unfolding encode_from
encode_from-IsNormal bits value [] = elim (Bool-cases (ltb 0 bits)) [
  | inl more ↦ rw more (char-IsNormal (value * 2 ^ (5 - bits) % 32) (omega arith), tt)
  | inr done ↦ rw done tt
]
encode_from-IsNormal bits value (b ∷ bytes) =
    let word = shift_in value 8 b in
    All-append IsNormal (emit_groups (bits + 8) (bits + 8) word).0 _
      (emit_groups-IsNormal (bits + 8) (bits + 8) word)
      (encode_from-IsNormal (emit_groups (bits + 8) (bits + 8) word).1 word bytes)

strip_padding-normal : (s : Text) → All IsNormal s → strip_padding s ≡ s
unfolding IsNormal
strip_padding-normal [] h = refl
strip_padding-normal (c ∷ s) h = rw (strip_padding-normal s h.1, h.0.1) refl

strip_space-normal : (s : Text) → All IsNormal s → strip_space s ≡ s
unfolding IsNormal
strip_space-normal [] h = refl
strip_space-normal (c ∷ s) h = rw (strip_space-normal s h.1, h.0.0) refl

upper-normal : (s : Text) → All IsNormal s → map to_upper s ≡ s
unfolding IsNormal
upper-normal [] h = refl
upper-normal (c ∷ s) h = rw (upper-normal s h.1, h.0.2) refl

normalised-normal : (s : Text) → All IsNormal s → normalised s ≡ s
normalised-normal s h = rw (strip_padding-normal s h, strip_space-normal s h) (upper-normal s h)

-- A secret of at least one byte, written in base32 and read back, is the same secret.
pub decode_base32-encode_base32 :
    (b : ℕ) (bytes : List ℕ)
    → All (λ c. c < 256) (b ∷ bytes)
    → decode_base32 (encode_base32 (b ∷ bytes)) ≡ some (b ∷ bytes)
unfolding decode_base32 encode_base32 encode_from emit_groups
decode_base32-encode_base32 b bytes h =
    let normal =
      normalised-normal (encode_base32 (b ∷ bytes)) (encode_from-IsNormal 0 0 (b ∷ bytes)) in
    rw normal ((round_trips (b ∷ bytes) h).0 0 0)
