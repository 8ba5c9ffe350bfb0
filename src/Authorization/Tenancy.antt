-- ===== src/Authorization/Tenancy.antt =====
-- Tenant isolation in apps/backend/src/authorization/permission.service.ts: what a user may do in an
-- organization rests on no row of another organization.
use rayi.Prelude.{
  ◌≡◌, refl, Bool, true, ◌&&◌, Option, none, some, List, [], ◌∷◌, arith, Identifier, Text, select,
  find, ◌==◌, ℤ, Bool-cases, Option-cases, inl, inr,
}
use rayi.Authorization.{
  Tables, Member, PermissionScope, find_member, workspace_roles, find_authority, can,
  has_money_authority,
}

find-select {ℓ} :
    {A : Type ℓ} (p q : A → Bool) (xs : List A)
    → ((x : A) → p x ≡ true → q x ≡ true)
    → find p (select q xs) ≡ find p xs
find-select p q [] i = refl
find-select p q (x ∷ xs) i = elim (Bool-cases (p x)) [
  | inl fits ↦ let kept : q x ≡ true = i x fits in rw (kept, fits)
  | inr not_fits ↦ elim (Bool-cases (q x)) [
    | inl kept ↦ rw (kept, not_fits) (find-select p q xs i)
    | inr dropped ↦ rw (dropped, not_fits) (find-select p q xs i)
  ]
]

-- The tables without the rows of other organizations.
abbrev pub only_of : Identifier → Tables → Tables
only_of o db = record db {
  members = select (λ m. m.organization_id == o) db.members;
  workspace_members = select (λ w. w.organization_id == o) db.workspace_members;
  money_authorities = select (λ a. a.organization_id == o) db.money_authorities;
}

find_member-only_of :
    (o user : Identifier) (db : Tables) → find_member (only_of o db) user o ≡ find_member db user o
unfolding find_member
find_member-only_of o user db = find-select _ _ db.members (λ m e. ground arith)

workspace_roles-only_of :
    (o : Identifier) (db : Tables) (m : Member) (w : Option Identifier)
    → workspace_roles (only_of o db) m o w ≡ workspace_roles db m o w
unfolding workspace_roles
workspace_roles-only_of o db m none = refl
workspace_roles-only_of o db m (some w) = rw (
    find-select (λ r. r.member_id == m.id && (r.workspace_id == w && r.organization_id == o))
      (λ r. r.organization_id == o) db.workspace_members (λ r e. ground arith))

find_authority-only_of :
    (o : Identifier) (db : Tables) (m : Member) (capability : Text)
    → find_authority (only_of o db) m capability o ≡ find_authority db m capability o
unfolding find_authority
find_authority-only_of o db m capability =
    find-select _ _ db.money_authorities (λ a e. ground arith)

-- A permission and a money authority in an organization are decided alike when every membership and
-- authority of all other organizations is taken away.
pub rights_tenant_local :
    (db : Tables) (user : Identifier) (permission : Text) (scope : PermissionScope)
    (amount : Option ℤ)
    → (can (only_of scope.organization_id db) user permission scope ≡ can db user permission scope)
      × (has_money_authority (only_of scope.organization_id db) user permission scope amount
          ≡ has_money_authority db user permission scope amount)
unfolding can has_money_authority
rights_tenant_local db user permission scope amount =
    let o : Identifier = scope.organization_id in
    let same = find_member-only_of o user db in
    elim (Option-cases (find_member db user o)) [
      | inl stranger ↦ (rw (same, stranger), rw (same, stranger))
      | inr (m, found) ↦ (
        rw (same, found, workspace_roles-only_of o db m scope.workspace_id),
        rw (same, found, find_authority-only_of o db m permission),
      )
    ]
