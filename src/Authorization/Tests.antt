-- ===== src/Authorization/Tests.antt =====
-- Runs of apps/backend/src/authorization/permission.service.ts at concrete inputs.
use rayi.Prelude.{◌≡◌, refl, true, none, some, [], ◌∷◌, Text, codes, trim, split, pos}
use rayi.Authorization.{
  org, Tables, PermissionScope, granted, can, effective_permissions, find_member, find_authority,
  could_ever, permissions_of_member, roles_of, workspace_roles, role_matches, authority_of_member,
  check_authority, has_money_authority,
}
use rayi.Authorization.Ceiling.{could_ever-can}
use rayi.Authorization.Tenancy.{only_of, rights_tenant_local}

abbrev allocate : Text
allocate = codes "campaign:allocate"

-- User 70 has the roles `viewer` and `owner` in organization 9, and may move up to 500.
abbrev pub rights : Tables
rights = record {
  members =
      record { id = 30; user_id = 70; organization_id = 8; role = codes "viewer" }
      ∷ record { id = 31; user_id = 70; organization_id = 9; role = codes "viewer, owner" }
      ∷ [];
  workspace_members = [];
  role_permissions =
      record { scope = org; role = codes "owner"; permission = codes "campaign:allocate" } ∷ [];
  money_authorities =
      record {
        member_id = 31;
        organization_id = 9;
        capability = codes "campaign:allocate";
        limit_minor = some (pos 500);
        revoked_at = none;
      }
      ∷ [];
  users = [];
}

abbrev scope : PermissionScope
scope = record { organization_id = 9; workspace_id = some 6 }

allowed : can rights 70 allocate scope ≡ true
unfolding can effective_permissions permissions_of_member find_member roles_of workspace_roles
    role_matches trim split
allowed = refl

trusted : has_money_authority rights 70 allocate scope (some (pos 400)) ≡ granted (some (pos 500))
unfolding has_money_authority authority_of_member check_authority find_member find_authority
trusted = refl

could_ever-can_example : could_ever rights 70 allocate 9 ≡ true
could_ever-can_example = could_ever-can rights 70 allocate scope allowed

rights_tenant_local_example :
    (can (only_of 9 rights) 70 allocate scope ≡ can rights 70 allocate scope)
    × (has_money_authority (only_of 9 rights) 70 allocate scope none
        ≡ has_money_authority rights 70 allocate scope none)
rights_tenant_local_example = rights_tenant_local rights 70 allocate scope none
