-- ===== src/Workspaces/Tests.antt =====
-- Runs of the budget of a workspace at concrete inputs.
use rayi.Prelude.{
  true, false, none, some, List, [], ◌∷◌, ◌≡◌, refl, Identifier, Text, codes, ok, ℤ, pos, ◌+ℤ◌,
  if◌then◌else◌,
}
use rayi.Money.Decimal.{bigint_to_text}
use rayi.StepUp.Totp.{Hmac}
use rayi.StepUp.{confirm}
use rayi.Workspaces.{
  BudgetEnvelope, Envelopes, Tables, NewCeiling, update_many, increment, try_commit, approval,
}
use rayi.Workspaces.Commit.{has_room, try_commit_exact}
use rayi.Workspaces.Rows.{IsTable, row_of, with_row}
use rayi.Workspaces.Calls.{committing, releasing, Call}

abbrev envelope : ℤ → ℤ → BudgetEnvelope
envelope ceiling committed = record {
  workspace_id = 3;
  organization_id = 9;
  ceiling_minor = ceiling;
  committed_minor = committed;
  currency = codes "USD";
  expires_at = some 500_000;
  approved_by_member_id = none;
  approved_at = 10;
}

abbrev rows : Envelopes
rows = envelope (pos 1_000) (pos 400) ∷ []

abbrev rows_after : Envelopes
rows_after = envelope (pos 1_000) (pos 1_000) ∷ []

rows-IsTable : IsTable rows
rows-IsTable = ((refl, tt), ((refl, refl), tt))

committed_all : try_commit 9 3 (pos 600) 90_000 rows ≡ ok (true, rows_after)
unfolding try_commit update_many ◌+ℤ◌
committed_all = refl

refused_one_more : try_commit 9 3 (pos 601) 90_000 rows ≡ ok (false, rows)
unfolding try_commit update_many ◌+ℤ◌
refused_one_more = refl

try_commit_exact_example :
    try_commit 9 3 (pos 600) 90_000 rows
    ≡ ok (
      has_room (pos 600) 90_000 (row_of 9 3 rows),
      if has_room (pos 600) 90_000 (row_of 9 3 rows)
          then with_row 9 3 (increment (pos 600)) rows
          else rows,
    )
try_commit_exact_example = try_commit_exact 9 3 (pos 600) 90_000 rows rows-IsTable refl

abbrev calls : List Call
calls =
    committing 9 3 (pos 500) 90_000
    ∷ committing 9 3 (pos 500) 91_000
    ∷ releasing 9 3 (pos 200) 92_000
    ∷ []

abbrev hmac : Hmac
hmac algorithm key message = 0 ∷ 0 ∷ 0 ∷ 0 ∷ []

abbrev digest : Text → Text
digest s = s

abbrev id_text : Identifier → Text
id_text i = bigint_to_text (pos i)

abbrev db : Tables
db = record {
  workspaces = (record { id = 3; organization_id = 9 }) ∷ [];
  members = (record { id = 8; organization_id = 9; user_id = 70; email = codes "a@b.c" }) ∷ [];
  envelopes = rows;
  step_up = record {
    grants = [];
    factors =
        (record { user_id = 70; deleted_at = none; secret = some (codes "JBSWY3DPEHPK3PXP") }) ∷ [];
    events = [];
  };
}

abbrev input : NewCeiling
input = record {
  ceiling_minor = pos 2_000;
  currency = codes "USD";
  expires_at = none;
  code = codes "000000";
}

-- Another request commits 600 after this one read the table.
abbrev meanwhile : Envelopes → Envelopes
meanwhile es = with_row 9 3 (increment (pos 600)) es

abbrev new_row : BudgetEnvelope
new_row = record (envelope (pos 2_000) (pos 1_000)) {
  expires_at = none;
  approved_by_member_id = some 8;
  approved_at = 90_000;
}

abbrev after : Tables
after = record db {
  envelopes = new_row ∷ [];
  step_up = (confirm hmac (approval hmac digest id_text 9 3 input 70 5 true) 90_000 db.step_up).1;
}
