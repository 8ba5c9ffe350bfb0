-- ===== src/StepUp/Tests.antt =====
-- Runs of step-up authentication at concrete inputs.
use rayi.Prelude.{
  true, none, some, List, [], ◌∷◌, ◌++◌, ℕ, ◌%◌, ◌^◌, ◌≡◌, refl, arith, Text, codes, length, ok,
  err,
}
use rayi.Prelude.Sorting.{sort, insert}
use rayi.Money.Decimal.{bigint_to_text}
use rayi.StepUp.Totp.{
  Hmac, decode_from, decode_base32, emit_groups, encode_base32, truncated, generate_at,
  matched_from, verify_totp,
}
use rayi.StepUp.{
  Store, Confirmation, Attempt, Part, key_leb, offer_deal, purpose_text, step_up_required,
  canonical, failures, consume, spend_all, mint, new_grant,
}
use rayi.StepUp.Account.{Call, minting, consuming}
use rayi.StepUp.Binding.{canonical-injective}
use rayi.StepUp.Base32.{emit_groups-total, decode_base32-encode_base32}

-- A keyed hash of four bytes, whatever is hashed.
abbrev hmac : Hmac
hmac algorithm key message = 0 ∷ 0 ∷ 0 ∷ 0 ∷ []

-- The example of RFC 4226.
truncated_rfc :
    truncated (
        0x1f ∷ 0x86 ∷ 0x98 ∷ 0x69 ∷ 0x0e ∷ 0x02 ∷ 0xca ∷ 0x16 ∷ 0x61 ∷ 0x85 ∷ 0x50 ∷ 0xef ∷ 0x7f
        ∷ 0x19 ∷ 0xda ∷ 0x8e ∷ 0x94 ∷ 0x5b ∷ 0x55 ∷ 0x5a ∷ [])
      % 10 ^ 6
    ≡ 872_921
unfolding truncated
truncated_rfc = refl

abbrev offering : Confirmation
offering = record { user_id = 70; purpose = offer_deal; resource_hash = some (codes "beef") }

abbrev attempt : Text → Attempt
attempt code = record { confirmation = offering; code = code; grant_id = 5; recorded = true }

abbrev start : Store
start = record {
  grants = [];
  factors =
      (record { user_id = 70; deleted_at = none; secret = some (codes "JBSWY3DPEHPK3PXP") }) ∷ [];
  events = [];
}

abbrev granted : Store
granted = record start { grants = new_grant offering 5 90_000 ∷ [] }

abbrev spent : Store
spent = record granted {
  grants =
      (record (new_grant offering 5 90_000) { uses_remaining = 0; consumed_at = some 91_000 }) ∷ [];
}

minted :
    mint hmac (attempt (codes "000 000")) 90_000 start ≡ (ok (new_grant offering 5 90_000), granted)
unfolding mint failures verify_totp decode_base32 decode_from matched_from generate_at truncated
    purpose_text bigint_to_text
minted = refl

guessed_wrong :
    (mint hmac (attempt (codes "123456")) 90_000 start).0 ≡ err (step_up_required offer_deal)
unfolding mint failures verify_totp decode_base32 decode_from matched_from generate_at truncated
    purpose_text bigint_to_text
guessed_wrong = refl

consumed : consume offering 91_000 granted ≡ (ok tt, spent)
unfolding consume spend_all purpose_text
consumed = refl

abbrev history : List Call
history =
    minting (attempt (codes "000 000")) 90_000
    ∷ consuming offering 91_000
    ∷ consuming offering 92_000
    ∷ []

abbrev guesses : List (Attempt × ℕ)
guesses = (attempt (codes "123456"), 90_000) ∷ (attempt (codes "234567"), 91_000) ∷ []

abbrev shown : List Part
shown = (codes "dealId", codes "17") ∷ (codes "advanceMinor", codes "5000") ∷ []

abbrev turned : List Part
turned = (codes "advanceMinor", codes "5000") ∷ (codes "dealId", codes "17") ∷ []

canonical-shown : canonical shown ≡ codes "advanceMinor=5000" ++ 1 ∷ codes "dealId=17"
unfolding canonical sort insert
canonical-shown = refl

abbrev digest : Text → Text
digest s = s

same_text : canonical shown ≡ canonical turned
unfolding canonical sort insert
same_text = refl

canonical-injective_example : sort key_leb shown ≡ sort key_leb turned
canonical-injective_example =
    canonical-injective shown turned ((refl, refl, refl), ((refl, refl, refl), tt))
      ((refl, refl, refl), ((refl, refl, refl), tt)) same_text

emit_groups-total_example :
    (length (emit_groups 12 12 3_000).0 ≡ 2) × ((emit_groups 12 12 3_000).1 ≡ 2)
emit_groups-total_example = emit_groups-total 12 12 3_000 (omega arith)

decode_base32-encode_base32_example :
    decode_base32 (encode_base32 (72 ∷ 105 ∷ 255 ∷ [])) ≡ some (72 ∷ 105 ∷ 255 ∷ [])
decode_base32-encode_base32_example =
    decode_base32-encode_base32 72 (105 ∷ 255 ∷ []) (omega arith, (omega arith, (omega arith, tt)))
