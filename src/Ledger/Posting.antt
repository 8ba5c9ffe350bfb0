-- ===== src/Ledger/Posting.antt =====
-- `LedgerRepository.postEntry` with its retries: what a caller may rely on, whatever failures the
-- attempts meet.
use rayi.Prelude.{
  true, false, not, Option, none, some, List, [], ◌∷◌, map, ℕ, suc, ◌≤◌, Identifier, ltb, length,
  pos, ◌==ℤ◌, add_up, Result, ok, err, ◌≡◌, inl, inr, refl, ◌∙◌, arith, Bool-cases, zero, All, ◌==◌,
}
use rayi.Ledger.SqlState.{Error}
use rayi.Ledger.Retry.{
  attempts_from, with_retry, with_retry-HasRun, Attempts, once, again, IsSettled, is_retryable,
}
use rayi.Ledger.{
  Tables, Session, PostEntryCommand, signed, sql_post_entry, settle_call, call_with,
  call_post_entry, post_entry,
}
use rayi.Ledger.Books.{IsSound, sql_post_entry-IsSound, sql_post_entry-idempotent}

-- What the session is for a result: an entry was posted, or nothing has changed.
abbrev pub IsEffect : PostEntryCommand → Session → Session → Result Error Identifier → Type 0
IsEffect cmd s after (ok n) = sql_post_entry s.db cmd ≡ ok (n, after.db)
IsEffect cmd s after (err e) = after.db ≡ s.db

settle_call-IsEffect :
    (cmd : PostEntryCommand) (es : List Error) (s : Session)
    (out : Result Error (Identifier × Tables))
    → sql_post_entry s.db cmd ≡ out
    → IsEffect cmd s ((settle_call es s.db out).1) ((settle_call es s.db out).0)
settle_call-IsEffect cmd es s (ok (n, after)) h = h
settle_call-IsEffect cmd es s (err e) h = refl

call_with-IsEffect :
    (cmd : PostEntryCommand) (s : Session) (es : List Error)
    → IsEffect cmd s ((call_with cmd s.db es).1) ((call_with cmd s.db es).0)
call_with-IsEffect cmd s [] = settle_call-IsEffect cmd [] s (sql_post_entry s.db cmd) refl
call_with-IsEffect cmd s (e ∷ es) = refl

call-IsEffect :
    (cmd : PostEntryCommand) (s after : Session) (r : Result Error Identifier)
    → call_post_entry cmd s ≡ (r, after)
    → IsEffect cmd s after r
call-IsEffect cmd s after r h = let t = call_with-IsEffect cmd s s.failures in rw h at t

IsEffect-unchanged :
    (cmd : PostEntryCommand) (s t after : Session) (r : Result Error Identifier)
    → t.db ≡ s.db
    → IsEffect cmd t after r
    → IsEffect cmd s after r
IsEffect-unchanged cmd s t after (ok n) same h = rw same at h
IsEffect-unchanged cmd s t after (err e) same h = h ∙ same

Attempts-IsEffect :
    (cmd : PostEntryCommand) (n : ℕ) (s after : Session) (r : Result Error Identifier)
    → Attempts (call_post_entry cmd) n s r after
    → IsEffect cmd s after r
Attempts-IsEffect cmd n s after r (once _ _ _ h) = call-IsEffect cmd s after r h
Attempts-IsEffect cmd n s after r (again _ e mid h transient rest) =
    IsEffect-unchanged cmd s mid after r (call-IsEffect cmd s mid (err e) h)
      (Attempts-IsEffect cmd _ mid after r rest)

-- The same for what `postEntry` returns or throws.
abbrev pub IsOutcome :
    PostEntryCommand → Session → Session → Result (Option Error) Identifier → Type 0
IsOutcome cmd s after (ok n) = sql_post_entry s.db cmd ≡ ok (n, after.db)
IsOutcome cmd s after (err e) = after.db ≡ s.db

settled-IsOutcome :
    (cmd : PostEntryCommand) (max n : ℕ) (s after : Session) (r : Result Error Identifier)
    (out : Result (Option Error) Identifier)
    → IsEffect cmd s after r
    → IsSettled (call_post_entry cmd) max n r out
    → IsOutcome cmd s after out
settled-IsOutcome cmd max n s after (ok a) out h settled = rw settled h
settled-IsOutcome cmd max n s after (err e) out h settled = rw settled.0 h

retried-IsOutcome :
    (cmd : PostEntryCommand) (s : Session)
    → IsOutcome cmd s
        ((with_retry (call_post_entry cmd) 5 s).1)
        ((with_retry (call_post_entry cmd) 5 s).0)
retried-IsOutcome cmd s =
    let (n, r, le, run, settled) = with_retry-HasRun (call_post_entry cmd) 5 s (omega arith) in
    let after = (with_retry (call_post_entry cmd) 5 s).1 in
    settled-IsOutcome cmd 5 n s after r _ (Attempts-IsEffect cmd n s after r run) settled

pub post_entry_all_or_nothing :
    (cmd : PostEntryCommand) (s : Session)
    → IsOutcome cmd s ((post_entry cmd s).1) ((post_entry cmd s).0)
unfolding post_entry
post_entry_all_or_nothing cmd s = elim (Bool-cases (ltb (length cmd.lines) 2)) [
  | inl short ↦ rw short refl
  | inr enough ↦
      elim (Bool-cases
        (not (add_up (pos 0) (map (λ l. signed l.direction l.amount_minor) cmd.lines) ==ℤ pos 0))) [
          | inl uneven ↦ rw (enough, uneven) refl
          | inr even ↦ rw (enough, even) (retried-IsOutcome cmd s)
        ]
]

outcome-IsSound :
    (cmd : PostEntryCommand) (s after : Session) (out : Result (Option Error) Identifier)
    → IsOutcome cmd s after out
    → IsSound s.db
    → IsSound after.db
outcome-IsSound cmd s after (ok n) h sound = sql_post_entry-IsSound s.db cmd n after.db h sound
outcome-IsSound cmd s after (err e) h sound = rw h sound

-- `postEntry` keeps the books sound: on every path every stored entry balances, no account that must
-- not is overdrawn, and every balance is the sum of the lines of its account.
pub post_entry-IsSound :
    (cmd : PostEntryCommand) (s : Session) → IsSound s.db → IsSound ((post_entry cmd s).1).db
post_entry-IsSound cmd s sound =
    outcome-IsSound cmd s ((post_entry cmd s).1) _ (post_entry_all_or_nothing cmd s) sound

enough_lines :
    (cmd : PostEntryCommand) (db after : Tables) (n : Identifier)
    → sql_post_entry db cmd ≡ ok (n, after)
    → 2 ≤ length cmd.lines
unfolding sql_post_entry
enough_lines cmd db after n h = ground arith

outcome_again :
    (cmd : PostEntryCommand) (n : Identifier) (db : Tables) (s after : Session)
    (out : Result (Option Error) Identifier)
    → sql_post_entry db cmd ≡ ok (n, s.db)
    → IsOutcome cmd s after out
    → (after.db ≡ s.db) × ((m : Identifier) → out ≡ ok m → m ≡ n)
outcome_again cmd n db s after (ok k) first h =
    let twice =
      sql_post_entry-idempotent db cmd n s.db first cmd (enough_lines cmd db s.db n first) refl
        refl in
    (cc, λ m e. cc)
outcome_again cmd n db s after (err e) first h = (h, λ m q. cc)

-- When `postEntry` has returned an entry, a second call of the same command moves no balance and
-- writes no entry, whatever failures it meets, and if it returns an entry this is the first one.
pub post_entry_once :
    (cmd : PostEntryCommand) (s first second : Session) (n : Identifier)
    → post_entry cmd s ≡ (ok n, first)
    → second.db ≡ first.db
    → (((post_entry cmd second).1).db ≡ first.db)
      × ((m : Identifier) → (post_entry cmd second).0 ≡ ok m → m ≡ n)
post_entry_once cmd s first second n h same =
    let t = post_entry_all_or_nothing cmd s in
    let done : sql_post_entry s.db cmd ≡ ok (n, first.db) = rw h at t in
    let (kept, answer) =
      outcome_again cmd n s.db second ((post_entry cmd second).1) _ (rw same done)
        (post_entry_all_or_nothing cmd second) in
    (kept ∙ same, answer)

survives :
    (cmd : PostEntryCommand) (db after : Tables) (n : Identifier) (left : ℕ)
    (last_error : Option Error) (fs : List Error)
    → sql_post_entry db cmd ≡ ok (n, after)
    → All (λ e. is_retryable e ≡ true) fs
    → suc (length fs) ≤ left
    → (attempts_from (call_post_entry cmd) left last_error (record { db = db; failures = fs })).0
      ≡ ok n
unfolding attempts_from
survives cmd db after n zero last_error fs h t le = ground arith
survives cmd db after n (suc left) last_error [] h t le = rw h refl
survives cmd db after n (suc left) last_error (f ∷ fs) h t le =
    let more : (left == 0) ≡ false = ground arith in
    rw (t.0, more) (survives cmd db after n left (some f) fs h t.1 (omega arith))

-- Up to four transient failures do not stop a posting: when debits equal credits in the command and
-- the database would accept it, `postEntry` returns its entry.
pub post_entry_survives :
    (cmd : PostEntryCommand) (s : Session) (after : Tables) (n : Identifier)
    → add_up (pos 0) (map (λ l. signed l.direction l.amount_minor) cmd.lines) ≡ pos 0
    → sql_post_entry s.db cmd ≡ ok (n, after)
    → All (λ e. is_retryable e ≡ true) s.failures
    → length s.failures ≤ 4
    → (post_entry cmd s).0 ≡ ok n
unfolding post_entry with_retry
post_entry_survives cmd s after n even h transient few =
    let enough : ltb (length cmd.lines) 2 ≡ false =
      (let le = enough_lines cmd s.db after n h in ground arith) in
    rw (enough, even) (survives cmd s.db after n 5 none s.failures h transient (omega arith))
