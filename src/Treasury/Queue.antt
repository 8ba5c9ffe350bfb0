-- ===== src/Treasury/Queue.antt =====
-- apps/backend/src/treasury/treasury-command.listener.ts: how a worker claims commands and works
-- through them. Times are in milliseconds. A claim is one statement, so two workers' claims are one
-- after the other; the timers, the notifications and the shutdown only say when a sweep is made.
use rayi.Prelude.{
  Bool, true, false, ◌&&◌, Option, none, some, List, [], ◌∷◌, map, ℕ, zero, suc, ◌+◌, ◌*◌, ◌≤◌,
  Identifier, ◌==◌, ltb, leb, if◌then◌else◌, length, take, select, any, has, All, All-map, ◌≡◌,
  arith, inl, inr, Bool-cases, ==_refl,
}
use rayi.Prelude.Sorting.{sort, All-sort}
use rayi.Treasury.{Status, pending, processing, completed, failed, TreasuryCommand, Store}
use rayi.Treasury.Processor.{World, process}

abbrev pub max_attempts : ℕ
max_attempts = 5

abbrev pub lease_ms : ℕ
lease_ms = 5 * 60 * 1000

abbrev pub poll_batch_size : ℕ
poll_batch_size = 50

-- `"claimedAt" < now() - lease`; it does not hold of a missing time.
abbrev pub lease_expired : ℕ → Option ℕ → Bool
lease_expired now none = false
lease_expired now (some at) = ltb (at + lease_ms) now

abbrev pub is_due : ℕ → Status → Option ℕ → Bool
is_due now pending claimed_at = true
is_due now processing claimed_at = lease_expired now claimed_at
is_due now completed claimed_at = false
is_due now failed claimed_at = false

abbrev pub is_claimable : ℕ → TreasuryCommand → Bool
is_claimable now c = ltb c.attempts max_attempts && is_due now c.status c.claimed_at

-- The rows that the inner `SELECT` finds.
unfoldable pub due_ids : ℕ → Store → List Identifier
due_ids limit s =
    map (λ c. c.id)
      (take limit
        (sort (λ c d. leb c.created_at d.created_at) (select (is_claimable s.now) s.commands)))

abbrev pub claimed : ℕ → TreasuryCommand → TreasuryCommand
claimed now c = record c { status = processing; claimed_at = some now; attempts = suc c.attempts }

-- `claim`: the identifiers and the table after the update.
unfoldable pub claim : ℕ → Store → List Identifier × Store
unfolding due_ids
claim limit s = (
  due_ids limit s,
  record s {
    commands = map (λ c. if has (due_ids limit s) c.id then claimed s.now c else c) s.commands;
  },
)

-- `run` on every claimed command, in order; it swallows what `process` throws.
unfoldable pub deliver : List Identifier → World → World
deliver [] w = w
deliver (command_id ∷ rest) w = deliver rest ((process command_id w).1)

-- `sweep`
unfoldable pub sweep : World → World
unfolding claim deliver
sweep w = let (ids, s) = claim poll_batch_size w.store in deliver ids (record w { store = s })

All-select :
    (P : TreasuryCommand → Type 0) (p : TreasuryCommand → Bool) (cs : List TreasuryCommand)
    → All (λ c. p c ≡ true → P c) cs
    → All P (select p cs)
All-select P p [] h = tt
All-select P p (c ∷ cs) h = elim (Bool-cases (p c)) [
  | inl in_it ↦ rw in_it (h.0 in_it, All-select P p cs h.1)
  | inr out ↦ rw out (All-select P p cs h.1)
]

All-take :
    (P : TreasuryCommand → Type 0) (n : ℕ) (cs : List TreasuryCommand)
    → All P cs
    → All P (take n cs)
All-take P zero cs h = tt
All-take P (suc n) [] h = tt
All-take P (suc n) (c ∷ cs) h = (h.0, All-take P n cs h.1)

length-take : (n : ℕ) (cs : List TreasuryCommand) → length (map (λ c. c.id) (take n cs)) ≤ n
length-take zero cs = omega arith
length-take (suc n) [] = omega arith
length-take (suc n) (c ∷ cs) = omega (arith, length-take n cs)

-- What holds of every claimable command holds of every identifier that is found due.
due-All :
    (P : Identifier → Type 0) (limit : ℕ) (s : Store)
    → All (λ c. is_claimable s.now c ≡ true → P c.id) s.commands
    → All P (due_ids limit s)
unfolding due_ids
due-All P limit s h =
    All-map P (λ c. c.id) _
      (All-take (λ c. P c.id) limit _
        (All-sort _ (λ c. P c.id) _ (All-select (λ c. P c.id) (is_claimable s.now) s.commands h)))

due_somewhere :
    (cs all : List TreasuryCommand) (now : ℕ)
    → ((c : TreasuryCommand)
        → any (λ d. d.id == c.id && is_claimable now d) cs ≡ true
        → any (λ d. d.id == c.id && is_claimable now d) all ≡ true)
    → All
        (λ c. is_claimable now c ≡ true → any (λ d. d.id == c.id && is_claimable now d) all ≡ true)
        cs
due_somewhere [] all now h = tt
due_somewhere (c ∷ cs) all now h = (
  (λ due. h c (ground (arith, ==_refl c.id))),
  due_somewhere cs all now (λ d more. h d (ground arith)),
)

-- A claim takes no more commands than it was asked for, and each of them had been attempted fewer than
-- five times and was pending, or processing under a lease that had run out.
pub claim_due :
    (limit : ℕ) (s : Store)
    → (length (claim limit s).0 ≤ limit)
      × All (λ i. any (λ c. c.id == i && is_claimable s.now c) s.commands ≡ true) (claim limit s).0
unfolding claim due_ids
claim_due limit s = (
  length-take limit _,
  due-All (λ i. any (λ c. c.id == i && is_claimable s.now c) s.commands ≡ true) limit s
      (due_somewhere s.commands s.commands s.now (λ c h. h)),
)
