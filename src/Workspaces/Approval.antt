-- ===== src/Workspaces/Approval.antt =====
-- What approving a budget changes.
use rayi.Prelude.{Option, some, ℕ, ◌≡◌, Identifier, Text, find}
use rayi.StepUp.Totp.{Hmac}
use rayi.StepUp.{Attempt}
use rayi.StepUp.Grants.{IsVerified}
use rayi.Workspaces.{BudgetEnvelope, Envelopes, Tables, NewCeiling, committed_minor_of, keyed}
use rayi.Workspaces.Rows.{IsTable}

abbrev pub row_at : Identifier → Envelopes → Option BudgetEnvelope
row_at workspace es = find (keyed workspace) es

module _ (hmac : Hmac) (sha256_hex : Text → Text) (id_text : Identifier → Text) where
  -- What a ceiling that was approved leaves: the actor gave a right code, which was for this ceiling of
  -- this workspace, and the table keeps its constraints. The ceiling is the one asked for, and what is
  -- committed is what it was when the row was written, whatever other requests did before.
  abbrev pub IsApproved :
      Identifier → Identifier → NewCeiling → Attempt → ℕ → Tables → Envelopes → Envelopes → Type 0
  IsApproved org workspace input a now db before after =
      IsVerified hmac a now db.step_up
      × IsTable after
      × ((row : BudgetEnvelope) × (row_at workspace after ≡ some row)
          × (row.ceiling_minor ≡ input.ceiling_minor)
          × (row.committed_minor ≡ committed_minor_of (row_at workspace before)))
