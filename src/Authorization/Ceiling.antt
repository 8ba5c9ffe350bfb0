-- ===== src/Authorization/Ceiling.antt =====
-- The route guard's questions of apps/backend/src/authorization/permission.service.ts are ceilings of
-- the questions that the use cases ask.
use rayi.Prelude.{
  ◌≡◌, Bool, true, ◌&&◌, Option, none, some, List, [], ◌∷◌, map, arith, Identifier, Text, text_eq,
  select, find, is_some, ◌==◌, ℤ, ◌≤ℤ◌, find-holds, Option-cases, Bool-cases, inl, inr,
}
use rayi.Authorization.{
  Tables, Member, WorkspaceMember, RolePermission, MoneyAuthority, PermissionScope, granted,
  includes, roles_of, find_member, workspace_roles, role_matches, find_authority, can, could_ever,
  has_money_authority, holds_any_money_authority,
}

-- A role that is looked up in one workspace is among the roles of all memberships.
found_is_selected :
    (p q : WorkspaceMember → Bool) (r : Text) (ws : List WorkspaceMember) (w : WorkspaceMember)
    → ((x : WorkspaceMember) → p x ≡ true → q x ≡ true)
    → find p ws ≡ some w
    → text_eq w.role r ≡ true
    → includes (map (λ x. x.role) (select q ws)) r ≡ true
found_is_selected p q r [] w i h t = cc
found_is_selected p q r (x ∷ ws) w i h t = elim (Bool-cases (p x)) [
  | inl first ↦
      let same : x ≡ w = ground arith in
      let kept : q x ≡ true = i x first in
      let fits : text_eq x.role r ≡ true = rw same t in rw (kept, fits)
  | inr later ↦
      let rest = found_is_selected p q r ws w i (rw later at h) t in
      elim (Bool-cases (q x)) [ inl kept ↦ rw kept (ground arith) | inr dropped ↦ rw dropped rest ]
]

abbrev all_workspace_roles : Tables → Member → Identifier → List Text
all_workspace_roles db m org_id =
    map (λ r. r.role)
      (select (λ r. r.member_id == m.id && r.organization_id == org_id) db.workspace_members)

workspace_roles_below :
    (db : Tables) (m : Member) (org_id : Identifier) (ws_id : Option Identifier) (r : Text)
    → includes (workspace_roles db m org_id ws_id) r ≡ true
    → includes (all_workspace_roles db m org_id) r ≡ true
unfolding workspace_roles
workspace_roles_below db m org_id none r h = cc
workspace_roles_below db m org_id (some w) r h =
    elim (Option-cases (
      find (λ v. v.member_id == m.id && (v.workspace_id == w && v.organization_id == org_id))
        db.workspace_members)) [
          | inl missing ↦ cc (rw missing at h)
          | inr (v, found) ↦
              found_is_selected _ _ r db.workspace_members v (λ x e. ground arith) found
                (ground arith)
        ]

-- More workspace roles match every row that fewer match.
role_matches_mono :
    (os ws vs : List Text) (row : RolePermission)
    → ((r : Text) → includes ws r ≡ true → includes vs r ≡ true)
    → role_matches os ws row ≡ true
    → role_matches os vs row ≡ true
unfolding role_matches
role_matches_mono os ws vs row i h = ground (arith, i row.role)

selected_is_found :
    (p q : RolePermission → Bool) (permission : Text) (rows : List RolePermission)
    → ((row : RolePermission) → p row ≡ true → q row ≡ true)
    → includes (map (λ row. row.permission) (select p rows)) permission ≡ true
    → is_some (find (λ row. text_eq row.permission permission && q row) rows) ≡ true
selected_is_found p q permission [] i h = cc
selected_is_found p q permission (row ∷ rows) i h =
    ground (arith, i row, selected_is_found p q permission rows i)

-- The guard never refuses what the use case would allow: a permission held in some workspace of the
-- organization, or in the organization itself, is one that the user could ever hold there.
pub could_ever-can :
    (db : Tables) (user : Identifier) (permission : Text) (scope : PermissionScope)
    → can db user permission scope ≡ true
    → could_ever db user permission scope.organization_id ≡ true
unfolding can could_ever
could_ever-can db user permission scope h =
    elim (Option-cases (find_member db user scope.organization_id)) [
      | inl stranger ↦ cc (rw stranger at h)
      | inr (m, found) ↦ rw found (
          selected_is_found
            (role_matches (roles_of m.role)
              (workspace_roles db m scope.organization_id scope.workspace_id))
            (role_matches (roles_of m.role) (all_workspace_roles db m scope.organization_id))
            permission db.role_permissions
            (λ row.
              role_matches_mono (roles_of m.role) _ _ row
                (workspace_roles_below db m scope.organization_id scope.workspace_id))
            (ground arith))
    ]

-- Nor does it for money: whoever is granted an amount holds some authority for the capability.
pub holds_any-granted :
    (db : Tables) (user : Identifier) (capability : Text) (scope : PermissionScope)
    (amount limit : Option ℤ)
    → has_money_authority db user capability scope amount ≡ granted limit
    → holds_any_money_authority db user capability scope.organization_id ≡ true
unfolding has_money_authority holds_any_money_authority
holds_any-granted db user capability scope amount limit h = ground arith

unrevoked :
    (db : Tables) (m : Member) (capability : Text) (org_id : Identifier) (a : MoneyAuthority)
    → find_authority db m capability org_id ≡ some a
    → a.revoked_at ≡ none
unfolding find_authority
unrevoked db m capability org_id a h =
    let fits = find-holds _ db.money_authorities a h in ground arith

-- An amount is granted only to a member of the organization who holds an unrevoked authority for the
-- capability, and only up to the limit of that authority.
pub granted_within_limit :
    (db : Tables) (user : Identifier) (capability : Text) (scope : PermissionScope) (amount : ℤ)
    (limit : Option ℤ)
    → has_money_authority db user capability scope (some amount) ≡ granted limit
    → (m : Member) × (a : MoneyAuthority) × (find_member db user scope.organization_id ≡ some m)
      × (find_authority db m capability scope.organization_id ≡ some a)
      × (a.revoked_at ≡ none)
      × (a.limit_minor ≡ limit)
      × ((l : ℤ) → limit ≡ some l → amount ≤ℤ l)
unfolding has_money_authority
granted_within_limit db user capability scope amount limit h =
    elim (Option-cases (find_member db user scope.organization_id)) [
      | inl stranger ↦ cc (rw stranger at h)
      | inr (m, found) ↦
          elim (Option-cases (find_authority db m capability scope.organization_id)) [
            | inl missing ↦ cc (rw (found, missing) at h)
            | inr (a, held) ↦ (
              m,
              a,
              found,
              held,
              unrevoked db m capability scope.organization_id a held,
              ground arith,
              λ l e. ground arith,
            )
          ]
    ]
