-- ===== src/StepUp/Grants.antt =====
-- Which grants step-up authentication gives and spends.
use rayi.Prelude.{
  Bool, true, false, not, ◌&&◌, Option, none, some, List, [], ◌∷◌, ℕ, suc, ◌+◌, ◌≤◌, ◌≡◌, ◌⊎◌, refl,
  arith, inl, inr, Text, text_eq_refl, ◌==◌, ==_refl, if◌then◌else◌, length, select, find,
  Bool-cases, ok, err, is_some,
}
use rayi.StepUp.Totp.{Hmac, default_options, verify_totp}
use rayi.StepUp.{
  Grant, Store, StepUpError, Outcome, step_up_required, too_many_codes, Confirmation, Attempt,
  purpose_text, rate_limited, record_failure, same_hash, matches, is_live, usable, spend, spend_all,
  consume, enrolled, secret_of, new_grant, with_secret, mint, confirm, has_grant,
}

-- The grants for a confirmation that have not been spent, expired or not.
abbrev pub live_for : Confirmation → List Grant → ℕ
live_for c [] = 0
live_for c (g ∷ gs) = if matches c g && is_live g then suc (live_for c gs) else live_for c gs

same_hash_refl : (h : Option Text) → same_hash h h ≡ true
same_hash_refl none = refl
same_hash_refl (some t) = text_eq_refl t

spent-is_live : (now : ℕ) (g : Grant) → is_live (spend now g) ≡ false
spent-is_live now g = ground arith

-- No grant that a statement has spent can be spent again.
spend_all-unusable :
    (c : Confirmation) (now later : ℕ) (gs : List Grant)
    → now ≤ later
    → length (select (usable c later) (spend_all c now gs)) ≡ 0
unfolding spend_all
spend_all-unusable c now later [] h = refl
spend_all-unusable c now later (g ∷ gs) h = elim (Bool-cases (usable c now g)) [
  | inl u ↦ rw u (ground (arith, spend_all-unusable c now later gs h))
  | inr n ↦ rw n (ground (arith, spend_all-unusable c now later gs h))
]

pub spend_all-live_for :
    (c d : Confirmation) (now : ℕ) (gs : List Grant)
    → live_for d (spend_all c now gs) ≤ live_for d gs
unfolding spend_all
spend_all-live_for c d now [] = omega arith
spend_all-live_for c d now (g ∷ gs) = elim (Bool-cases (usable c now g)) [
  | inl u ↦ rw u (ground (arith, spend_all-live_for c d now gs))
  | inr n ↦ rw n (ground (arith, spend_all-live_for c d now gs))
]

pub spent-live_for :
    (c : Confirmation) (now : ℕ) (gs : List Grant)
    → live_for c (spend_all c now gs) + length (select (usable c now) gs) ≤ live_for c gs
unfolding spend_all
spent-live_for c now [] = omega arith
spent-live_for c now (g ∷ gs) = elim (Bool-cases (usable c now g)) [
  | inl u ↦ rw u (ground (arith, spent-live_for c now gs))
  | inr n ↦ rw n (ground (arith, spent-live_for c now gs))
]

-- A grant that was spent cannot be spent again, by the same call made later.
pub consume_once :
    (c : Confirmation) (now later : ℕ) (s after : Store)
    → consume c now s ≡ (ok tt, after)
    → now ≤ later
    → (consume c later after).0 ≡ err (step_up_required c.purpose)
unfolding consume
consume_once c now later s after h order =
    elim (Bool-cases (length (select (usable c now) s.grants) == 0)) [
      | inl none_left ↦
          let t : (err (step_up_required c.purpose), _) ≡ (ok tt, after) = rw none_left at h in cc
      | inr spent ↦
          let none_left = spend_all-unusable c now later s.grants order in
          let t : (ok tt, record s { grants = spend_all c now s.grants }) ≡ (ok tt, after) =
            rw spent at h in
          let kept : after.grants ≡ spend_all c now s.grants = cc in rw (kept, none_left) refl
    ]

find-select :
    {A : Type 0} (p : A → Bool) (xs : List A)
    → is_some (find p xs) ≡ not (length (select p xs) == 0)
find-select p [] = refl
find-select p (x ∷ xs) = ground (arith, find-select p xs)

-- `consume` succeeds at the same moment if and only if `has` says that there is a grant.
pub has_grant-consume :
    (c : Confirmation) (now : ℕ) (s : Store)
    → (consume c now s).0 ≡ (if has_grant c now s then ok tt else err (step_up_required c.purpose))
unfolding consume has_grant
has_grant-consume c now s = rw (find-select (usable c now) s.grants) (ground arith)

-- What a grant given by `mint` rests on: the user is not locked out, and the code is one of the user's
-- enrolled factor at that time.
abbrev pub IsVerified : Hmac → Attempt → ℕ → Store → Type 0
IsVerified hmac a now s =
    (rate_limited a.confirmation.user_id now s ≡ false)
    × ((secret : Text) × (secret_of (find (enrolled a.confirmation.user_id) s.factors)
          ≡ some secret)
        × (verify_totp hmac default_options now secret a.code ≡ true))

record_failure-grants :
    (recorded : Bool) (user now : ℕ) (s after : Store)
    → record_failure recorded user now s ≡ after
    → after.grants ≡ s.grants
record_failure-grants false user now s after h = cc
record_failure-grants true user now s after h = cc

pub outcome_cases :
    {A : Type 0} (o : Outcome A)
    → ((e : StepUpError) × (after : Store) × (o ≡ (err e, after)))
      ⊎ ((a : A) × (after : Store) × (o ≡ (ok a, after)))
outcome_cases (err e, after) = inl (e, after, refl)
outcome_cases (ok a, after) = inr (a, after, refl)

module _ (hmac : Hmac) where
  with_secret-ok :
      (a : Attempt) (now : ℕ) (s : Store) (o : Option Text) (g : Grant) (after : Store)
      → with_secret hmac a now s o ≡ (ok g, after)
      → (g ≡ new_grant a.confirmation a.grant_id now)
        × (after ≡ record s { grants = g ∷ s.grants })
        × ((secret : Text) × (o ≡ some secret)
            × (verify_totp hmac default_options now secret a.code ≡ true))
  with_secret-ok a now s none g after h = cc
  with_secret-ok a now s (some secret) g after h =
      elim (Bool-cases (verify_totp hmac default_options now secret a.code)) [
        | inl good ↦
            let fresh = new_grant a.confirmation a.grant_id now in
            let t : (ok fresh, record s { grants = fresh ∷ s.grants }) ≡ (ok g, after) =
              rw good at h in
            (cc, cc, (secret, refl, good))
        | inr bad ↦
            let t : (
              err (step_up_required a.confirmation.purpose),
              record_failure a.recorded a.confirmation.user_id now s,
            )
                ≡ (ok g, after) =
              rw bad at h in
            cc
      ]

  -- A grant is minted only for a user who is not locked out and gives a right code of an enrolled
  -- factor; it is for the user, the purpose and the resource of the call, and nothing else changes.
  pub mint-IsVerified :
      (a : Attempt) (now : ℕ) (s : Store) (g : Grant) (after : Store)
      → mint hmac a now s ≡ (ok g, after)
      → IsVerified hmac a now s
        × (g ≡ new_grant a.confirmation a.grant_id now)
        × (after ≡ record s { grants = g ∷ s.grants })
  unfolding mint
  mint-IsVerified a now s g after h =
      elim (Bool-cases (rate_limited a.confirmation.user_id now s)) [
        | inl locked ↦ let t : (err too_many_codes, s) ≡ (ok g, after) = rw locked at h in cc
        | inr free ↦
            let secret = secret_of (find (enrolled a.confirmation.user_id) s.factors) in
            let t : with_secret hmac a now s secret ≡ (ok g, after) = rw free at h in
            let (fresh, kept, right) = with_secret-ok a now s secret g after t in
            ((free, right), fresh, kept)
      ]

  with_secret-err :
      (a : Attempt) (now : ℕ) (s : Store) (o : Option Text) (e : StepUpError) (after : Store)
      → with_secret hmac a now s o ≡ (err e, after)
      → after.grants ≡ s.grants
  with_secret-err a now s none e after h = cc
  with_secret-err a now s (some secret) e after h =
      elim (Bool-cases (verify_totp hmac default_options now secret a.code)) [
        | inl good ↦
            let fresh = new_grant a.confirmation a.grant_id now in
            let t : (ok fresh, record s { grants = fresh ∷ s.grants }) ≡ (err e, after) =
              rw good at h in
            cc
        | inr bad ↦
            let failed = record_failure a.recorded a.confirmation.user_id now s in
            let t : (err (step_up_required a.confirmation.purpose), failed) ≡ (err e, after) =
              rw bad at h in
            record_failure-grants a.recorded a.confirmation.user_id now s after cc
      ]

  -- A call of `mint` that throws gives no grant.
  pub mint-err-grants :
      (a : Attempt) (now : ℕ) (s : Store) (e : StepUpError) (after : Store)
      → mint hmac a now s ≡ (err e, after)
      → after.grants ≡ s.grants
  unfolding mint
  mint-err-grants a now s e after h =
      elim (Bool-cases (rate_limited a.confirmation.user_id now s)) [
        | inl locked ↦ let t : (err too_many_codes, s) ≡ (err e, after) = rw locked at h in cc
        | inr free ↦
            let secret = secret_of (find (enrolled a.confirmation.user_id) s.factors) in
            let t : with_secret hmac a now s secret ≡ (err e, after) = rw free at h in
            with_secret-err a now s secret e after t
      ]

  verified-mint :
      (a : Attempt) (now : ℕ) (s : Store)
      → IsVerified hmac a now s
      → mint hmac a now s ≡ (
        ok (new_grant a.confirmation a.grant_id now),
        record s { grants = new_grant a.confirmation a.grant_id now ∷ s.grants },
      )
  unfolding mint
  verified-mint a now s (free, (secret, found, right)) = rw (free, found, right) refl

  fresh-usable : (c : Confirmation) (id : ℕ) (now : ℕ) → usable c now (new_grant c id now) ≡ true
  fresh-usable c id now =
      rw (==_refl c.user_id, text_eq_refl (purpose_text c.purpose), same_hash_refl c.resource_hash)
        (ground arith)

  consume-fresh :
      (c : Confirmation) (id now : ℕ) (s : Store)
      → (consume c now (record s { grants = new_grant c id now ∷ s.grants })).0 ≡ ok tt
  unfolding consume
  consume-fresh c id now s = rw (fresh-usable c id now) (ground arith)

  -- Confirming an action, which mints a grant and spends it at once, succeeds exactly for a user who is
  -- not locked out and gives a right code: no other grant can make it fail.
  pub confirm_iff :
      (a : Attempt) (now : ℕ) (s : Store)
      → ((confirm hmac a now s).0 ≡ ok tt → IsVerified hmac a now s)
        × (IsVerified hmac a now s → (confirm hmac a now s).0 ≡ ok tt)
  unfolding confirm
  confirm_iff a now s = (
    λ h. elim (outcome_cases (mint hmac a now s)) [
      | inl (e, after, failed) ↦ let t : err e ≡ ok tt = rw failed at h in cc
      | inr (g, after, minted) ↦ (mint-IsVerified a now s g after minted).0
    ],
    λ v. rw (verified-mint a now s v) (consume-fresh a.confirmation a.grant_id now s),
  )
