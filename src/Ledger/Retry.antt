-- ===== src/Ledger/Retry.antt =====
-- apps/backend/src/ledger/infrastructure/retry.ts: which errors are transient, and the loop that
-- retries them. The attempt is a step on a state; the delays between attempts and the callback
-- `onRetry`, which no caller gives, change nothing in it.
use rayi.Prelude.{
  Bool, true, false, not, ◌||◌, Option, none, some, List, [], ◌∷◌, ℕ, zero, suc, ◌≤◌, Text, codes,
  text_eq, ◌==◌, if◌then◌else◌, any, ◌≡◌, ◌⊎◌, inl, inr, refl, ap, arith, Bool-cases, Result, ok,
  err,
}
use rayi.Ledger.SqlState.{Error, sql_state_of}

abbrev retryable_sqlstates : List Text
retryable_sqlstates = codes "40001" ∷ codes "40P01" ∷ codes "55P03" ∷ []

abbrev terminal_sqlstates : List Text
terminal_sqlstates = codes "23514" ∷ codes "23505" ∷ codes "23503" ∷ codes "0A000" ∷ []

abbrev set_has : List Text → Text → Bool
set_has states s = any (λ t. text_eq t s) states

abbrev retryable_state : Option Text → Bool
retryable_state none = false
retryable_state (some s) =
    if set_has terminal_sqlstates s then false else set_has retryable_sqlstates s

-- `isRetryable`
unfoldable pub is_retryable : Error → Bool
is_retryable e = retryable_state (sql_state_of e)

abbrev terminal_state : Option Text → Bool
terminal_state none = false
terminal_state (some s) = set_has terminal_sqlstates s

-- `isTerminal`
unfoldable pub is_terminal : Error → Bool
is_terminal e = terminal_state (sql_state_of e)

module _ {S A : Type 0} (fn : S → Result Error A × S) where
  -- The end of one attempt: its value, its error, or another attempt.
  abbrev settle :
      Bool
      → Result Error A × S
      → (Error → S → Result (Option Error) A × S)
      → Result (Option Error) A × S
  settle is_last (ok a, s) again = (ok a, s)
  settle is_last (err e, s) again =
      if not (is_retryable e) || is_last then (err (some e), s) else again e s

  -- The loop, with the number of attempts that are left and `lastError`.
  unfoldable pub attempts_from : ℕ → Option Error → S → Result (Option Error) A × S
  attempts_from zero last_error s = (err last_error, s)
  attempts_from (suc left) last_error s =
      settle (left == 0) (fn s) (λ e after. attempts_from left (some e) after)

  -- `withRetry`; without an attempt it throws `undefined`.
  unfoldable pub with_retry : ℕ → S → Result (Option Error) A × S
  unfolding attempts_from
  with_retry max_attempts s = attempts_from max_attempts none s

  -- A run of the loop: each attempt but the last ended in a transient error.
  pub data Attempts : ℕ → S → Result Error A → S → Type 0 where
    once : (s : S) (r : Result Error A) (after : S) → fn s ≡ (r, after) → Attempts 1 s r after
    again :
        {n : ℕ} {r : Result Error A} {final : S} (s : S) (e : Error) (after : S)
        → fn s ≡ (err e, after)
        → is_retryable e ≡ true
        → Attempts n after r final
        → Attempts (suc n) s r final

  -- How the loop ends when the last of `n` attempts, of at most `max`, has ended.
  abbrev pub IsSettled : ℕ → ℕ → Result Error A → Result (Option Error) A → Type 0
  IsSettled max n (ok a) out = out ≡ ok a
  IsSettled max n (err e) out = (out ≡ err (some e)) × ((is_retryable e ≡ false) ⊎ (n ≡ max))

  abbrev pub HasRun : ℕ → S → Result (Option Error) A × S → Type 0
  HasRun max s out =
      (n : ℕ) × (r : Result Error A) × (n ≤ max)
      × Attempts n s r (out.1)
      × IsSettled max n r (out.0)

  IsSettled-suc :
      (max n : ℕ) (r : Result Error A) (out : Result (Option Error) A)
      → IsSettled max n r out
      → IsSettled (suc max) (suc n) r out
  IsSettled-suc max n (ok a) out h = h
  IsSettled-suc max n (err e) out (h, inl final) = (h, inl final)
  IsSettled-suc max n (err e) out (h, inr spent) = (h, inr (ap suc spent))

  settle-HasRun :
      (left : ℕ) (s : S) (out : Result Error A × S)
      → fn s ≡ out
      → (k : Error → S → Result (Option Error) A × S)
      → ((e : Error) (after : S) → (left ≡ 0) ⊎ HasRun left after (k e after))
      → HasRun (suc left) s (settle (left == 0) out k)
  settle-HasRun left s (ok a, after) h k next = (1, ok a, omega arith, once s (ok a) after h, refl)
  settle-HasRun left s (err e, after) h k next = elim (Bool-cases (is_retryable e)) [
    | inr final ↦ rw final (1, err e, omega arith, once s (err e) after h, (refl, inl final))
    | inl transient ↦ elim (Bool-cases (left == 0)) [
      | inl spent ↦
          rw (transient, spent)
            (1, err e, omega arith, once s (err e) after h, (refl, inr (ground arith)))
      | inr more ↦ elim (next e after) [
        | inl spent ↦ ground arith
        | inr (n, r, le, run, settled) ↦
            rw (transient, more)
              (
                suc n,
                r,
                omega arith,
                again s e after h transient run,
                IsSettled-suc left n r _ settled,
              )
      ]
    ]
  ]

  attempts_from-HasRun :
      (left : ℕ) (last_error : Option Error) (s : S)
      → (left ≡ 0) ⊎ HasRun left s (attempts_from left last_error s)
  unfolding attempts_from
  attempts_from-HasRun zero last_error s = inl refl
  attempts_from-HasRun (suc left) last_error s = inr (
      settle-HasRun left s (fn s) refl (λ e after. attempts_from left (some e) after)
        (λ e after. attempts_from-HasRun left (some e) after))

  -- With at least one attempt allowed, `withRetry` makes a run of at most that many, in which every
  -- error but the last was transient; its value is the last attempt's, and an error that it throws is
  -- the last attempt's, which was not transient unless the attempts were spent.
  pub with_retry-HasRun :
      (max_attempts : ℕ) (s : S)
      → 1 ≤ max_attempts
      → HasRun max_attempts s (with_retry max_attempts s)
  unfolding with_retry
  with_retry-HasRun max_attempts s h = elim (attempts_from-HasRun max_attempts none s) [
    | inl none_left ↦ ground arith
    | inr run ↦ run
  ]

-- No error is both worth a retry and a refusal of the database.
pub retryable_not_terminal : (e : Error) → is_retryable e ≡ true → is_terminal e ≡ false
unfolding is_retryable is_terminal
retryable_not_terminal e h =
    elim (sql_state_of e) as (λ o. retryable_state o ≡ true → terminal_state o ≡ false) [
      | none ↦ λ g. refl
      | some s ↦ λ g. elim (Bool-cases (set_has terminal_sqlstates s)) [
        | inl refused ↦ ground arith
        | inr other ↦ other
      ]
    ]
      h
