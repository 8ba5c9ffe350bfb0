-- ===== src/Deals/Failing.antt =====
-- What an offer that fails leaves behind of the budget.
use rayi.Prelude.{◌≡◌}
use rayi.StepUp as StepUp
use rayi.StepUp.{Attempt}
use rayi.Deals.World.{World}
use rayi.Deals.Offer.{Meanwhile}

-- Other requests may change anything but the budgets.
abbrev pub LeavesBudgets : Meanwhile → Type 0
LeavesBudgets others =
    (w : World)
    → ((others.after_read w).envelopes ≡ w.envelopes)
      × ((others.after_commit w).envelopes ≡ w.envelopes)
