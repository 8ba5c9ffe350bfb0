-- ===== src/StepUp/Account.antt =====
-- A history of calls of step-up authentication: as many confirmations as codes.
use rayi.Prelude.{Bool, ◌&&◌, List, [], ◌∷◌, ℕ, ◌+◌, text_eq, ◌==◌, if◌then◌else◌, ok, err}
use rayi.StepUp.Totp.{Hmac}
use rayi.StepUp.{Store, Outcome, Confirmation, Attempt, purpose_text, same_hash, consume, mint}

-- A call at a time.
pub data Call : Type 0 where
  minting : Attempt → ℕ → Call
  consuming : Confirmation → ℕ → Call

-- Two confirmations of the same user, purpose and resource.
abbrev pub same : Confirmation → Confirmation → Bool
same c d =
    d.user_id == c.user_id
    && (text_eq (purpose_text d.purpose) (purpose_text c.purpose)
        && same_hash d.resource_hash c.resource_hash)

abbrev pub one_if : {A : Type 0} → Bool → Outcome A → ℕ
one_if b (err e, after) = 0
one_if b (ok a, after) = if b then 1 else 0

module _ (hmac : Hmac) where
  abbrev pub step : Call → Store → Store
  step (minting a now) s = (mint hmac a now s).1
  step (consuming c now) s = (consume c now s).1

  abbrev pub given : Confirmation → Call → Store → ℕ
  given c (minting a now) s = one_if (same c a.confirmation) (mint hmac a now s)
  given c (consuming d now) s = 0

  abbrev pub taken : Confirmation → Call → Store → ℕ
  taken c (minting a now) s = 0
  taken c (consuming d now) s = one_if (same c d) (consume d now s)

  -- The calls of a history that mint a grant for `c`, and those that spend one.
  abbrev pub times_minted : Confirmation → List Call → Store → ℕ
  times_minted c [] s = 0
  times_minted c (call ∷ calls) s = given c call s + times_minted c calls (step call s)

  abbrev pub times_spent : Confirmation → List Call → Store → ℕ
  times_spent c [] s = 0
  times_spent c (call ∷ calls) s = taken c call s + times_spent c calls (step call s)
