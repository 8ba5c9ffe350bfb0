-- ===== src/Treasury/Request.antt =====
-- What `AllocateBudgetUseCase.execute` promises: who may have a command written, and that a key
-- stands for one command.
use rayi.Prelude.{
  true, false, not, ◌||◌, Option, none, some, List, [], ◌∷◌, map, suc, ◌≤◌, Identifier, codes,
  text_eq, find, ◌==◌, ℤ, pos, leb_ℤ, Result, ok, ◌>>◌, throw_if-ok, >>=-eq-ok, ◌≡◌, ◌⊎◌, refl, sym,
  arith, inl, inr, Bool-cases, IsDistinct, has, All,
}
use rayi.Authorization.{
  Member, MoneyAuthorityCheck, granted, denied, exceeds_limit, not_a_member, no_money_authority,
  can, has_money_authority, find_member,
}
use rayi.Ledger.Accounts.{Campaign}
use rayi.Treasury.{
  TreasuryCommand, Store, AllocateBudgetInput, AllocateBudgetResult, Refusal, amount_not_positive,
  other_currency, closed_campaign, not_visible, campaign_allocate, find_campaign, required,
  scope_of, require_granted, same_request, or_else, new_command, replay_or_create, find_key,
  check_request, execute,
}

-- What the actor of an accepted request holds.
abbrev pub IsEntitled : AllocateBudgetInput → Store → Campaign → Type 0
IsEntitled input s c =
    (find_campaign s input ≡ some c)
    × (leb_ℤ input.amount_minor (pos 0) ≡ false)
    × (text_eq c.currency input.currency ≡ true)
    × (can s.rights input.actor_user_id campaign_allocate
          (scope_of input.organization_id (some c.workspace_id))
        ≡ true)
    × ((limit : Option ℤ) × (has_money_authority s.rights input.actor_user_id campaign_allocate
            (scope_of input.organization_id (some c.workspace_id)) (some input.amount_minor)
          ≡ granted limit))

required-ok : {A : Type 0} (o : Option A) (a : A) → required o ≡ ok a → o ≡ some a
required-ok none a h = cc
required-ok (some b) a h = cc

granted-ok :
    {B : Type 0} (m : MoneyAuthorityCheck) (k : Result Refusal B) (b : B)
    → (require_granted m >> k) ≡ ok b
    → ((limit : Option ℤ) × (m ≡ granted limit)) × (k ≡ ok b)
granted-ok (granted limit) k b h = ((limit, refl), h)
granted-ok (denied limit exceeds_limit) k b h = cc
granted-ok (denied limit not_a_member) k b h = cc
granted-ok (denied limit no_money_authority) k b h = cc

check_request-IsEntitled :
    (input : AllocateBudgetInput) (s : Store) (c : Campaign) (m : Member)
    → check_request input s ≡ ok (c, m)
    → IsEntitled input s c
unfolding check_request
check_request-IsEntitled input s c m h =
    let (positive, h1) = throw_if-ok (leb_ℤ input.amount_minor (pos 0)) amount_not_positive _ h in
    let (d, q, h2) = >>=-eq-ok (required (find_campaign s input)) _ h1 in
    let (currency, h3) =
      throw_if-ok (not (text_eq d.currency input.currency)) other_currency _ h2 in
    let (active, h4) =
      throw_if-ok (text_eq d.state (codes "cancelled") || text_eq d.state (codes "completed"))
        closed_campaign _ h3 in
    let (may, h5) =
      throw_if-ok
        (not (
          can s.rights input.actor_user_id campaign_allocate
            (scope_of input.organization_id (some d.workspace_id))))
        not_visible _ h4 in
    let (limit, h6) =
      granted-ok
        (has_money_authority s.rights input.actor_user_id campaign_allocate
          (scope_of input.organization_id (some d.workspace_id)) (some input.amount_minor))
        _ _ h5 in
    let (n, r, h7) =
      >>=-eq-ok (required (find_member s.rights input.actor_user_id input.organization_id)) _ h6 in
    let same : d ≡ c = cc in
    rw (sym same)
      (required-ok (find_campaign s input) d q, positive, ground arith, ground arith, limit)

-- A request is accepted only for a campaign of the organization that it names, in the campaign's
-- currency, with a positive amount, from an actor whose roles permit it and who has the money
-- authority for that amount.
pub execute-IsEntitled :
    (input : AllocateBudgetInput) (s after : Store) (r : AllocateBudgetResult)
    → execute input s ≡ ok (r, after)
    → (c : Campaign) × IsEntitled input s c
unfolding execute
execute-IsEntitled input s after r h =
    let ((c, m), q, e) = >>=-eq-ok (check_request input s) _ h in
    (c, check_request-IsEntitled input s c m q)

abbrev pub replay_of : AllocateBudgetInput → TreasuryCommand → AllocateBudgetResult
replay_of input o = record {
  command_id = o.id;
  campaign_id = or_else o.campaign_id input.campaign_id;
  replayed = true;
}

abbrev pub created : AllocateBudgetInput → Store → Campaign → Member → Store
created input s c m = record s {
  commands = new_command s input c m ∷ s.commands;
  notified = s.next_id ∷ s.notified;
  next_id = suc s.next_id;
}

create_or_replay :
    (input : AllocateBudgetInput) (s after : Store) (c : Campaign) (m : Member)
    (r : AllocateBudgetResult) (old : Option TreasuryCommand)
    → replay_or_create input s c m old ≡ ok (r, after)
    → ((o : TreasuryCommand) × (old ≡ some o)
        × (same_request o input ≡ true)
        × (replay_of input o ≡ r)
        × (s ≡ after))
      ⊎ ((old ≡ none)
          × (record { command_id = s.next_id; campaign_id = input.campaign_id; replayed = false }
              ≡ r)
          × (created input s c m ≡ after))
unfolding replay_or_create
create_or_replay input s after c m r none h = inr (refl, cc, cc)
create_or_replay input s after c m r (some o) h = elim (Bool-cases (same_request o input)) [
  | inl same ↦
      let t : ◌≡◌ {A = Result Refusal (AllocateBudgetResult × Store)} (ok (replay_of input o, s))
          (ok (r, after)) =
        rw same at h in
      inl (o, refl, same, cc, cc)
  | inr other ↦ ground arith
]

-- A request whose key is already in use writes nothing: it is refused, or it has the terms of the
-- command with this key and is answered with that command.
pub execute_key_taken :
    (input : AllocateBudgetInput) (s after : Store) (r : AllocateBudgetResult)
    (old : TreasuryCommand)
    → find_key s input.idempotency_key ≡ some old
    → execute input s ≡ ok (r, after)
    → (after ≡ s) × (r.command_id ≡ old.id) × (same_request old input ≡ true)
unfolding execute
execute_key_taken input s after r old taken h =
    let ((c, m), q, e) = >>=-eq-ok (check_request input s) _ h in
    elim (create_or_replay input s after c m r (find_key s input.idempotency_key) e) [
      | inl (o, found, same, result, kept) ↦
          let it : o ≡ old = cc in (sym kept, rw (sym result, it) refl, rw it at same)
      | inr (absent, result, made) ↦ cc
    ]

-- Every key stands for one command, and every command has an identifier below the next one.
abbrev pub IsKeyed : Store → Type 0
IsKeyed s =
    IsDistinct (map (λ c. c.idempotency_key) s.commands)
    × All (λ c. suc c.id ≤ s.next_id) s.commands

find_key-absent :
    (cs : List TreasuryCommand) (key : Identifier)
    → find (λ c. c.idempotency_key == key) cs ≡ none
    → has (map (λ c. c.idempotency_key) cs) key ≡ false
find_key-absent [] key h = refl
find_key-absent (c ∷ cs) key h = ground (arith, find_key-absent cs key)

below_suc :
    (n : Identifier) (cs : List TreasuryCommand)
    → All (λ c. suc c.id ≤ n) cs
    → All (λ c. suc c.id ≤ suc n) cs
below_suc n [] h = tt
below_suc n (c ∷ cs) h = (omega (arith, h.0), below_suc n cs h.1)

-- `execute` keeps the keys of the commands distinct, and their identifiers below the next one.
pub execute-IsKeyed :
    (input : AllocateBudgetInput) (s after : Store) (r : AllocateBudgetResult)
    → execute input s ≡ ok (r, after)
    → IsKeyed s
    → IsKeyed after
unfolding execute
execute-IsKeyed input s after r h (keys, ids) =
    let ((c, m), q, e) = >>=-eq-ok (check_request input s) _ h in
    elim (create_or_replay input s after c m r (find_key s input.idempotency_key) e) [
      | inl (o, found, same, result, kept) ↦ rw (sym kept) (keys, ids)
      | inr (absent, result, made) ↦ rw (sym made) (
        (find_key-absent s.commands input.idempotency_key absent, keys),
        (omega arith, below_suc s.next_id s.commands ids),
      )
    ]
