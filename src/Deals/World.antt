-- ===== src/Deals/World.antt =====
-- What the operations of apps/backend/src/api/deals/deals.service.ts that write read and change.
use rayi.Prelude.{List, Identifier, Text, ℤ, Result}
use rayi.Money.Amount.{MoneyError}
use rayi.StepUp.{Store, StepUpError}
use rayi.Workspaces.{Envelopes, Check}
use rayi.Deals.{Deal}
use rayi.Deals.Preview.{Problem}

pub record Campaign : Type 0 where
  pub id : Identifier
  pub organization_id : Identifier
  pub workspace_id : Identifier
  pub name : Text

pub record Creator : Type 0 where
  pub id : Identifier
  pub username : Text

pub record World : Type 0 where
  pub deals : List Deal
  pub campaigns : List Campaign
  pub users : List Creator
  pub envelopes : Envelopes
  pub step_up : Store

-- The constraints that the rows of a new deal can violate.
pub data Violation : Type 0 where
  total_positive amount_positive one_deal_per_creator : Violation

-- The exceptions; those of the domain, of step-up and of the database pass through.
pub data DealsError : Type 0 where
  not_found no_creator already_has_deal not_draft code_required budget_used not_running
        connection_lost :
      DealsError
  bad_request : List Problem → DealsError
  advance_differs : ℤ → ℤ → DealsError
  thrown : MoneyError → DealsError
  unconfirmed : StepUpError → DealsError
  budget_violation : Check → DealsError
  violation : Violation → DealsError

-- A call ends with a value or an exception, and leaves a world either way.
abbrev pub Outcome : Type 0 → Type 0
Outcome A = Result DealsError A × World
