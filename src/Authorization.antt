-- ===== src/Authorization.antt =====
-- apps/backend/src/authorization/permission.service.ts: what a user's roles permit, and what money a
-- user may move. The tables are lists of rows; `findFirst` is the first row that fits.
pub mod Tests
pub mod Ceiling
pub mod Tenancy
use rayi.Prelude.{
  Bool, true, false, not, ◌&&◌, ◌||◌, Option, none, some, List, [], ◌∷◌, map, Identifier, Text,
  codes, text_eq, trim, split, is_empty, select, find, any, is_some, ◌==◌, if◌then◌else◌, ℤ, ltb_ℤ,
}

pub record Member : Type 0 where
  pub id : Identifier
  pub user_id : Identifier
  pub organization_id : Identifier
  pub role : Text

pub record WorkspaceMember : Type 0 where
  pub member_id : Identifier
  pub workspace_id : Identifier
  pub organization_id : Identifier
  pub role : Text

-- The values of the column `scope`.
pub data RoleScope : Type 0 where
  org workspace platform : RoleScope

pub record RolePermission : Type 0 where
  pub scope : RoleScope
  pub role : Text
  pub permission : Text

pub record MoneyAuthority : Type 0 where
  pub member_id : Identifier
  pub organization_id : Identifier
  pub capability : Text
  pub limit_minor : Option ℤ
  pub revoked_at : Option ℤ

pub record User : Type 0 where
  pub id : Identifier
  pub role : Text
  pub deleted_at : Option ℤ

pub record Tables : Type 0 where
  pub members : List Member
  pub workspace_members : List WorkspaceMember
  pub role_permissions : List RolePermission
  pub money_authorities : List MoneyAuthority
  pub users : List User

pub record PermissionScope : Type 0 where
  pub organization_id : Identifier
  pub workspace_id : Option Identifier

pub data DenialReason : Type 0 where
  not_a_member no_money_authority exceeds_limit : DenialReason

-- `MoneyAuthorityCheck`: the limit, and why it was denied.
pub data MoneyAuthorityCheck : Type 0 where
  granted : Option ℤ → MoneyAuthorityCheck
  denied : Option ℤ → DenialReason → MoneyAuthorityCheck

-- `role.split(',').map((role) => role.trim()).filter(Boolean)`
unfoldable pub roles_of : Text → List Text
roles_of role = select (λ r. not (is_empty r)) (map trim (split b',' role))

abbrev pub includes : List Text → Text → Bool
includes rs r = any (λ s. text_eq s r) rs

-- `prisma.member.findFirst({ where: { userId, organizationId } })`
unfoldable pub find_member : Tables → Identifier → Identifier → Option Member
find_member db user org_id = find (λ m. m.user_id == user && m.organization_id == org_id) db.members

abbrev workspace_role : Option WorkspaceMember → List Text
workspace_role none = []
workspace_role (some w) = w.role ∷ []

-- The role of a member in the workspace that a scope names.
unfoldable pub workspace_roles : Tables → Member → Identifier → Option Identifier → List Text
workspace_roles db m org_id none = []
workspace_roles db m org_id (some w) = workspace_role (
    find (λ r. r.member_id == m.id && (r.workspace_id == w && r.organization_id == org_id))
      db.workspace_members)

abbrev is_org : RoleScope → Bool
is_org org = true
is_org _ = false

abbrev is_workspace : RoleScope → Bool
is_workspace workspace = true
is_workspace _ = false

abbrev is_platform : RoleScope → Bool
is_platform platform = true
is_platform _ = false

-- The `OR` of the queries on `role_permission`; no workspace role is in an empty list.
unfoldable pub role_matches : List Text → List Text → RolePermission → Bool
role_matches org_roles ws_roles row =
    (is_org row.scope && includes org_roles row.role)
    || (is_workspace row.scope && includes ws_roles row.role)

abbrev is_nil : List Text → Bool
is_nil [] = true
is_nil (r ∷ rs) = false

unfoldable pub permissions_of_member : Tables → PermissionScope → Option Member → List Text
permissions_of_member db scope none = []
permissions_of_member db scope (some m) =
    let org_roles = roles_of m.role in
    let ws_roles = workspace_roles db m scope.organization_id scope.workspace_id in
    if is_nil org_roles && is_nil ws_roles
    then []
    else map (λ row. row.permission) (select (role_matches org_roles ws_roles) db.role_permissions)

-- `effectivePermissions`
unfoldable pub effective_permissions : Tables → Identifier → PermissionScope → List Text
unfolding permissions_of_member
effective_permissions db user scope =
    permissions_of_member db scope (find_member db user scope.organization_id)

unfoldable pub can : Tables → Identifier → Text → PermissionScope → Bool
unfolding effective_permissions
can db user permission scope = includes (effective_permissions db user scope) permission

-- `prisma.moneyAuthority.findFirst`, on the rows that are not revoked.
unfoldable pub find_authority : Tables → Member → Text → Identifier → Option MoneyAuthority
find_authority db m capability org_id =
    find
      (λ a.
        a.member_id == m.id
        && (text_eq a.capability capability
            && (a.organization_id == org_id && not (is_some a.revoked_at))))
      db.money_authorities

-- `amountMinor !== undefined && limitMinor !== null && amountMinor > limitMinor`
abbrev over_limit : Option ℤ → Option ℤ → Bool
over_limit (some amount) (some limit) = ltb_ℤ limit amount
over_limit _ _ = false

unfoldable pub check_authority : Option ℤ → Option MoneyAuthority → MoneyAuthorityCheck
check_authority amount none = denied none no_money_authority
check_authority amount (some a) =
    if over_limit amount a.limit_minor
    then denied a.limit_minor exceeds_limit
    else granted a.limit_minor

unfoldable pub authority_of_member :
    Tables → Text → Identifier → Option ℤ → Option Member → MoneyAuthorityCheck
unfolding check_authority
authority_of_member db capability org_id amount none = denied none not_a_member
authority_of_member db capability org_id amount (some m) =
    check_authority amount (find_authority db m capability org_id)

unfoldable pub has_money_authority :
    Tables → Identifier → Text → PermissionScope → Option ℤ → MoneyAuthorityCheck
unfolding authority_of_member
has_money_authority db user capability scope amount =
    authority_of_member db capability scope.organization_id amount
      (find_member db user scope.organization_id)

unfoldable pub ceiling_of_member : Tables → Text → Identifier → Option Member → Bool
ceiling_of_member db permission org_id none = false
ceiling_of_member db permission org_id (some m) =
    let memberships =
      select (λ r. r.member_id == m.id && r.organization_id == org_id) db.workspace_members in
    is_some (
      find
        (λ row.
          text_eq row.permission permission
          && role_matches (roles_of m.role) (map (λ r. r.role) memberships) row)
        db.role_permissions)

-- `couldEver`, the ceiling that the route guard asks for.
unfoldable pub could_ever : Tables → Identifier → Text → Identifier → Bool
unfolding ceiling_of_member
could_ever db user permission org_id =
    ceiling_of_member db permission org_id (find_member db user org_id)

unfoldable pub holds_of_member : Tables → Text → Identifier → Option Member → Bool
holds_of_member db capability org_id none = false
holds_of_member db capability org_id (some m) = is_some (find_authority db m capability org_id)

unfoldable pub holds_any_money_authority : Tables → Identifier → Text → Identifier → Bool
unfolding holds_of_member
holds_any_money_authority db user capability org_id =
    holds_of_member db capability org_id (find_member db user org_id)

platform_of_user : Tables → Text → Option User → Bool
platform_of_user db permission none = false
platform_of_user db permission (some u) =
    let roles = roles_of u.role in
    if is_nil roles
    then false
    else is_some (
        find
          (λ row.
            is_platform row.scope && (includes roles row.role && text_eq row.permission permission))
          db.role_permissions)

unfoldable pub has_platform_permission : Tables → Identifier → Text → Bool
unfolding platform_of_user
has_platform_permission db user permission =
    platform_of_user db permission (find (λ u. u.id == user && not (is_some u.deleted_at)) db.users)
