-- ===== src/StepUp.antt =====
-- apps/backend/src/auth/step-up/step-up.service.ts: step-up authentication. Grants, factors and the audit
-- log are lists of rows; the clock is read once in a call; the hash of node:crypto is a parameter.
pub mod Totp
pub mod Grants
pub mod Account
pub mod Binding
pub mod Guesses
pub mod Base32
mod Tests
use rayi.Prelude.{
  Bool, true, false, not, ◌&&◌, Option, none, some, List, [], ◌∷◌, ◌++◌, map, ℕ, suc, ◌+◌, ◌-◌,
  Identifier, Text, codes, text_eq, is_empty, is_some, ◌==◌, ltb, leb, if◌then◌else◌, length,
  select, find, ◌*◌, Result, ok, err,
}
use rayi.Prelude.Sorting.{sort}
use rayi.StepUp.Totp.{Hmac, default_options, verify_totp}

-- `GRANT_TTL_MS`, `MAX_ATTEMPTS` and `ATTEMPT_WINDOW_MS`
abbrev pub grant_ttl_ms : ℕ
grant_ttl_ms = 5 * 60 * 1_000

abbrev pub max_attempts : ℕ
max_attempts = 5

abbrev pub attempt_window_ms : ℕ
attempt_window_ms = 15 * 60 * 1_000

pub data StepUpPurpose : Type 0 where
  change_email disable_two_factor enable_two_factor change_member_role remove_member
        grant_money_authority release_funds approve_budget offer_deal terminate_deal
        update_organization change_payout_destination :
      StepUpPurpose

-- The string of a purpose.
unfoldable pub purpose_text : StepUpPurpose → Text
purpose_text change_email = codes "account:change_email"
purpose_text disable_two_factor = codes "account:disable_two_factor"
purpose_text enable_two_factor = codes "account:enable_two_factor"
purpose_text change_member_role = codes "member:change_role"
purpose_text remove_member = codes "member:remove"
purpose_text grant_money_authority = codes "money_authority:grant"
purpose_text release_funds = codes "funds:release"
purpose_text approve_budget = codes "budget:approve"
purpose_text offer_deal = codes "deal:offer"
purpose_text terminate_deal = codes "deal:terminate"
purpose_text update_organization = codes "org:update"
purpose_text change_payout_destination = codes "payout_destination:change"

-- A row of `step_up_grant`.
pub record Grant : Type 0 where
  pub id : Identifier
  pub user_id : Identifier
  pub purpose : Text
  pub resource_hash : Option Text
  pub uses_remaining : ℕ
  pub expires_at : ℕ
  pub consumed_at : Option ℕ

-- A row of `twoFactor`.
pub record TwoFactor : Type 0 where
  pub user_id : Identifier
  pub deleted_at : Option ℕ
  pub secret : Option Text

-- What the service reads of a row of `audit.event`.
pub record Event : Type 0 where
  pub action : Text
  pub actor_user_id : Identifier
  pub occurred_at : ℕ

pub record Store : Type 0 where
  pub grants : List Grant
  pub factors : List TwoFactor
  pub events : List Event

-- "Too many incorrect codes.", "This action needs a second factor." and `StepUpRequiredError`.
pub data StepUpError : Type 0 where
  too_many_codes no_factor : StepUpError
  step_up_required : StepUpPurpose → StepUpError

-- A call ends with a value or an exception, and leaves a store either way.
abbrev pub Outcome : Type 0 → Type 0
Outcome A = Result StepUpError A × Store

-- What a grant is for; `resource_hash` is none where the caller gives none.
pub record Confirmation : Type 0 where
  pub user_id : Identifier
  pub purpose : StepUpPurpose
  pub resource_hash : Option Text

-- The order of the keys.
abbrev pub text_leb : Text → Text → Bool
text_leb [] t = true
text_leb (c ∷ s) [] = false
text_leb (c ∷ s) (d ∷ t) = if c == d then text_leb s t else ltb c d

abbrev pub Part : Type 0
Part = Text × Text

abbrev pub key_leb : Part → Part → Bool
key_leb a b = text_leb a.0 b.0

-- `list.join('\x01')` of the parts, `key=value` each.
abbrev pub join_parts : List Part → Text
join_parts [] = []
join_parts ((k, v) ∷ []) = k ++ b'=' ∷ v
join_parts ((k, v) ∷ p ∷ ps) = (k ++ b'=' ∷ v) ++ 1 ∷ join_parts (p ∷ ps)

-- The text that `resourceHash` hashes; `parts` holds each key once.
unfoldable pub canonical : List Part → Text
canonical parts = join_parts (sort key_leb parts)

-- `resourceHash`
unfoldable pub resource_hash_of : (Text → Text) → List Part → Text
unfolding canonical
resource_hash_of sha256_hex parts = sha256_hex (canonical parts)

abbrev step_up_failed : Text
step_up_failed = codes "account.step_up_failed"

abbrev pub counts : Identifier → ℕ → Event → Bool
counts user now e =
    text_eq e.action step_up_failed
    && (e.actor_user_id == user && ltb now (e.occurred_at + attempt_window_ms))

-- The count of `assertNotRateLimited`: the failures of a user after `now - ATTEMPT_WINDOW_MS`.
unfoldable pub failures : Identifier → ℕ → List Event → ℕ
failures user now events = length (select (counts user now) events)

abbrev pub rate_limited : Identifier → ℕ → Store → Bool
rate_limited user now s = leb max_attempts (failures user now s.events)

-- `recordFailure`. `AuditService.record` swallows an error of the database: `recorded` says whether the
-- row was written.
abbrev pub record_failure : Bool → Identifier → ℕ → Store → Store
record_failure false user now s = s
record_failure true user now s = record s {
  events = (record { action = step_up_failed; actor_user_id = user; occurred_at = now }) ∷ s.events;
}

abbrev pub same_hash : Option Text → Option Text → Bool
same_hash none none = true
same_hash none (some t) = false
same_hash (some s) none = false
same_hash (some s) (some t) = text_eq s t

-- The user, the purpose and the resource of a grant.
abbrev pub matches : Confirmation → Grant → Bool
matches input g =
    g.user_id == input.user_id
    && (text_eq g.purpose (purpose_text input.purpose)
        && same_hash g.resource_hash input.resource_hash)

-- A grant that has not been spent.
abbrev pub is_live : Grant → Bool
is_live g = ltb 0 g.uses_remaining && not (is_some g.consumed_at)

-- The condition of a grant that can be spent.
abbrev pub usable : Confirmation → ℕ → Grant → Bool
usable input now g = matches input g && (ltb now g.expires_at && is_live g)

-- The update of `consume`.
abbrev pub spend : ℕ → Grant → Grant
spend now g = record g { uses_remaining = g.uses_remaining - 1; consumed_at = some now }

unfoldable pub spend_all : Confirmation → ℕ → List Grant → List Grant
spend_all input now [] = []
spend_all input now (g ∷ gs) =
    let rest = spend_all input now gs in if usable input now g then spend now g ∷ rest else g ∷ rest

-- `consume`
unfoldable pub consume : Confirmation → ℕ → Store → Outcome (Unit {0})
unfolding spend_all
consume input now s =
    let count = length (select (usable input now) s.grants) in
    let after = record s { grants = spend_all input now s.grants } in
    if count == 0 then (err (step_up_required input.purpose), after) else (ok tt, after)

-- `has`
unfoldable pub has_grant : Confirmation → ℕ → Store → Bool
has_grant input now s = is_some (find (usable input now) s.grants)

abbrev pub enrolled : Identifier → TwoFactor → Bool
enrolled user f = f.user_id == user && (not (is_some f.deleted_at) && is_some f.secret)

-- `factor?.secret`, none where it is falsy.
abbrev pub secret_of : Option TwoFactor → Option Text
secret_of none = none
secret_of (some f) = elim f.secret [ none ↦ none | some t ↦ if is_empty t then none else some t ]

abbrev pub new_grant : Confirmation → Identifier → ℕ → Grant
new_grant input id now = record {
  id = id;
  user_id = input.user_id;
  purpose = purpose_text input.purpose;
  resource_hash = input.resource_hash;
  uses_remaining = 1;
  expires_at = now + grant_ttl_ms;
  consumed_at = none;
}

-- A call of `mint`: the code, the identifier of the row it creates, and whether the audit log can be
-- written.
pub record Attempt : Type 0 where
  pub confirmation : Confirmation
  pub code : Text
  pub grant_id : Identifier
  pub recorded : Bool

module _ (hmac : Hmac) where
  abbrev pub with_secret : Attempt → ℕ → Store → Option Text → Outcome Grant
  with_secret a now s none = (err no_factor, s)
  with_secret a now s (some secret) =
      let grant = new_grant a.confirmation a.grant_id now in
      if verify_totp hmac default_options now secret a.code
      then (ok grant, record s { grants = grant ∷ s.grants })
      else (
        err (step_up_required a.confirmation.purpose),
        record_failure a.recorded a.confirmation.user_id now s,
      )

  -- `mint`; the answer is the row, of which the program returns the identifier and the expiry.
  unfoldable pub mint : Attempt → ℕ → Store → Outcome Grant
  mint a now s =
      let user = a.confirmation.user_id in
      if rate_limited user now s
      then (err too_many_codes, s)
      else with_secret a now s (secret_of (find (enrolled user) s.factors))

  abbrev pub confirmed : Confirmation → ℕ → Outcome Grant → Outcome (Unit {0})
  confirmed c now (err e, after) = (err e, after)
  confirmed c now (ok grant, after) = consume c now after

  -- Minting and at once spending, as `setEnvelope`, `offer` and `terminate` do it.
  unfoldable pub confirm : Attempt → ℕ → Store → Outcome (Unit {0})
  unfolding mint consume
  confirm a now s = confirmed a.confirmation now (mint a now s)
