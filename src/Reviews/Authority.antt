-- ===== src/Reviews/Authority.antt =====
-- Who may approve.
use rayi.Prelude.{Bool, true, Option, some, ◌≡◌, Identifier, codes, ℤ}
use rayi.Authorization.{MoneyAuthorityCheck, can, has_money_authority}
use rayi.Reviews.{Tables, org_scope}

-- The role for the action, and the authority for the amount that it makes due.
abbrev pub MayRelease : Tables → Identifier → Identifier → Bool → ℤ → Type 0
MayRelease db actor org moves_money amount =
    (can db.rights actor (codes "deliverable:review") (org_scope org) ≡ true)
    × (moves_money ≡ true
        → (limit : Option ℤ) × (has_money_authority db.rights actor (codes "deliverable:release")
              (org_scope org) (some amount)
            ≡ MoneyAuthorityCheck.granted limit))
