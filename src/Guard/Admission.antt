-- ===== src/Guard/Admission.antt =====
-- Whom the guard lets through, and that it refuses nobody whom the handler behind it would serve.
use rayi.Prelude.{
  Bool, true, false, not, ◌&&◌, Option, none, some, Identifier, Text, ◌≡◌, ◌⊎◌, refl, arith, inl,
  inr, Bool-cases, ok, ◌>>=◌, throw_if-ok, >>=-eq-ok,
}
use rayi.Authorization.{Tables, could_ever, holds_any_money_authority, has_platform_permission}
use rayi.Authorization.Ceiling.{could_ever-can, holds_any-granted}
use rayi.Treasury.{
  Store, AllocateBudgetInput, AllocateBudgetResult, campaign_allocate, scope_of, execute,
}
use rayi.Treasury.Request.{execute-IsEntitled}
use rayi.Guard.{
  permission, Request, GuardError, sign_in, not_available, present, is_platform_permission,
  check_platform_permission, check_in_org, check_as, check_permission, can_activate,
}

-- What lets a request through to a route with a permission.
abbrev pub IsAdmitted : Tables → Text → Bool → Request → Identifier → Type 0
IsAdmitted db p moves_money request user =
    ((is_platform_permission p ≡ true) × (has_platform_permission db user p ≡ true))
    ⊎ ((org : Identifier) × (is_platform_permission p ≡ false)
        × (request.org_id ≡ some org)
        × (could_ever db user p org ≡ true)
        × (moves_money ≡ true → holds_any_money_authority db user p org ≡ true))

present-ok :
    (o : Option Identifier) (e : GuardError) (i : Identifier) → present o e ≡ ok i → o ≡ some i
present-ok none e i h = cc
present-ok (some j) e i h = cc

in_org-IsAdmitted :
    (db : Tables) (user : Identifier) (p : Text) (moves_money : Bool) (org : Identifier) (b : Bool)
    → check_in_org db user p moves_money org ≡ ok b
    → (could_ever db user p org ≡ true)
      × (moves_money ≡ true → holds_any_money_authority db user p org ≡ true)
unfolding check_in_org
in_org-IsAdmitted db user p moves_money org b h =
    let (may, rest) = throw_if-ok (not (could_ever db user p org)) _ _ h in
    let (trusted, done) =
      throw_if-ok (moves_money && not (holds_any_money_authority db user p org)) _ _ rest in
    (ground arith, λ money. ground arith)

as-IsAdmitted :
    (db : Tables) (p : Text) (moves_money : Bool) (user : Identifier) (request : Request) (b : Bool)
    → check_as db request p moves_money user ≡ ok b
    → IsAdmitted db p moves_money request user
unfolding check_platform_permission
as-IsAdmitted db p moves_money user request b h = elim (Bool-cases (is_platform_permission p)) [
  | inl platform ↦
      let t : check_platform_permission db user p ≡ ok b = rw platform at h in
      let (staff, done) = throw_if-ok (not (has_platform_permission db user p)) _ _ t in
      inl (platform, ground arith)
  | inr tenant ↦
      let t : (present request.org_id not_available >>= λ org.
      check_in_org db user p moves_money org)
          ≡ ok b =
        rw tenant at h in
      let (org, named, checked) = >>=-eq-ok (present request.org_id not_available) _ t in
      let (may, money) = in_org-IsAdmitted db user p moves_money org b checked in
      inr (org, tenant, present-ok request.org_id not_available org named, may, money)
]

-- A route with a permission is reached only by a user who is signed in: for a platform permission one
-- who holds it as platform staff, for any other one who could hold it in the organization of the path
-- and, where the route moves money, has a money authority for it there.
pub can_activate_admits_only :
    (db : Tables) (p : Text) (moves_money : Bool) (request : Request) (b : Bool)
    → can_activate db true (some (permission p moves_money)) request ≡ ok b
    → (user : Identifier) × (request.user_id ≡ some user) × IsAdmitted db p moves_money request user
unfolding can_activate check_permission
can_activate_admits_only db p moves_money request b h =
    let (user, named, checked) = >>=-eq-ok (present request.user_id sign_in) _ h in
    (
      user,
      present-ok request.user_id sign_in user named,
      as-IsAdmitted db p moves_money user request b checked,
    )

-- The guard refuses no allocation that the use case would accept: the actor's own request to the
-- organization's route with `campaign:allocate`, which moves money, is let through.
pub can_activate-execute :
    (input : AllocateBudgetInput) (s after : Store) (r : AllocateBudgetResult)
    → execute input s ≡ ok (r, after)
    → can_activate s.rights true
        (some (permission campaign_allocate true))
        (record { user_id = some input.actor_user_id; org_id = some input.organization_id })
      ≡ ok true
unfolding can_activate check_permission check_in_org
can_activate-execute input s after r h =
    let (c, (found, positive, currency, may, (limit, trusted))) =
      execute-IsEntitled input s after r h in
    let scope = scope_of input.organization_id (some c.workspace_id) in
    let ceiling = could_ever-can s.rights input.actor_user_id campaign_allocate scope may in
    let holds =
      holds_any-granted s.rights input.actor_user_id campaign_allocate scope
        (some input.amount_minor) limit trusted in
    rw (ceiling, holds) refl
