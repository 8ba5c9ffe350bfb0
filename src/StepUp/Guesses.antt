-- ===== src/StepUp/Guesses.antt =====
-- How many codes a guesser has.
use rayi.Prelude.{
  true, ◌&&◌, List, [], ◌∷◌, ℕ, suc, ◌+◌, ◌≤◌, ◌<◌, ◌≡◌, Identifier, text_eq, ◌==◌, leb,
  if◌then◌else◌, ok, err,
}
use rayi.StepUp.Totp.{Hmac}
use rayi.StepUp.{
  Event, Store, Outcome, Grant, step_up_required, too_many_codes, no_factor, Attempt,
  attempt_window_ms, step_up_failed, mint,
}

-- An attempt that a wrong code ended.
abbrev pub refused_code : Outcome Grant → ℕ
refused_code (ok g, after) = 0
refused_code (err too_many_codes, after) = 0
refused_code (err no_factor, after) = 0
refused_code (err (step_up_required p), after) = 1

module _ (hmac : Hmac) where
  -- The wrong codes of a user among attempts, which are made one after the other.
  abbrev pub wrong_codes : Identifier → List (Attempt × ℕ) → Store → ℕ
  wrong_codes user [] s = 0
  wrong_codes user ((a, now) ∷ attempts) s =
      let rest = wrong_codes user attempts (mint hmac a now s).1 in
      if a.confirmation.user_id == user then refused_code (mint hmac a now s) + rest else rest

-- An attempt in the fifteen minutes from `start`, when the audit log can be written.
abbrev pub IsWithin : ℕ → Attempt × ℕ → Type 0
IsWithin start (a, now) = (a.recorded ≡ true) × (start ≤ now) × (now < start + attempt_window_ms)

-- The failures of a user that were recorded at `start` or later.
abbrev since : Identifier → ℕ → List Event → ℕ
since user start [] = 0
since user start (e ∷ es) =
    if text_eq e.action step_up_failed && (e.actor_user_id == user && leb start e.occurred_at)
    then suc (since user start es)
    else since user start es
