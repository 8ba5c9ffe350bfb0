-- ===== src/Guard.antt =====
-- apps/backend/src/guards/permission.guard.ts: the guard in front of every route. It knows the
-- organization of the path, but neither the workspace nor the amount of what is asked.
pub mod Admission
mod Tests
use rayi.Prelude.{
  Bool, true, false, not, ◌&&◌, Option, none, some, List, [], ◌∷◌, Identifier, Text, codes, ◌==◌,
  if◌then◌else◌, Result, ok, err, ◌>>=◌, ◌>>◌, throw_if,
}
use rayi.Authorization.{Tables, could_ever, holds_any_money_authority, has_platform_permission}

-- `AccessMetadata`; a permission is with its flag `movesMoney`.
pub data Access : Type 0 where
  public self webhook : Access
  permission : Text → Bool → Access

-- What the guard reads of a request: the user of its session, and the organization of its path.
pub record Request : Type 0 where
  pub user_id : Option Identifier
  pub org_id : Option Identifier

-- The exceptions: "Sign in to continue.", "Not found.", "This endpoint is not available." and "You
-- are not authorised to move funds."
pub data GuardError : Type 0 where
  sign_in not_found not_available not_authorised : GuardError

-- `s.startsWith(prefix)`
abbrev pub starts_with : Text → Text → Bool
starts_with [] s = true
starts_with (p ∷ ps) [] = false
starts_with (p ∷ ps) (c ∷ s) = p == c && starts_with ps s

abbrev pub is_platform_permission : Text → Bool
is_platform_permission p = starts_with (codes "platform:") p

-- A value of the request that has to be there.
abbrev pub present : Option Identifier → GuardError → Result GuardError Identifier
present none e = err e
present (some i) e = ok i

-- `requireSession`
unfoldable pub require_session : Request → Result GuardError Bool
require_session request = present request.user_id sign_in >>= λ user. ok true

-- `checkPlatformPermission`
unfoldable pub check_platform_permission : Tables → Identifier → Text → Result GuardError Bool
check_platform_permission db user p =
    throw_if (not (has_platform_permission db user p)) not_found >> ok true

-- The checks of a route of an organization.
unfoldable pub check_in_org :
    Tables → Identifier → Text → Bool → Identifier → Result GuardError Bool
check_in_org db user p moves_money org =
    throw_if (not (could_ever db user p org)) not_found
    >> (throw_if (moves_money && not (holds_any_money_authority db user p org)) not_authorised
        >> ok true)

abbrev pub check_as : Tables → Request → Text → Bool → Identifier → Result GuardError Bool
check_as db request p moves_money user =
    if is_platform_permission p
    then check_platform_permission db user p
    else (present request.org_id not_available >>= λ org. check_in_org db user p moves_money org)

-- `checkPermission`
unfoldable pub check_permission : Tables → Request → Text → Bool → Result GuardError Bool
unfolding check_platform_permission check_in_org
check_permission db request p moves_money =
    present request.user_id sign_in >>= check_as db request p moves_money

abbrev pub by_access : Tables → Request → Option Access → Result GuardError Bool
by_access db request none = ok true
by_access db request (some public) = ok true
by_access db request (some self) = require_session request
by_access db request (some webhook) = ok true
by_access db request (some (permission p moves_money)) = check_permission db request p moves_money

-- `canActivate`, with the test of the transport; the metadata is that of the handler or its class.
unfoldable pub can_activate : Tables → Bool → Option Access → Request → Result GuardError Bool
unfolding require_session check_permission
can_activate db is_http access request = if is_http then by_access db request access else ok true
