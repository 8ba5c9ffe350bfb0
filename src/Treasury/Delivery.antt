-- ===== src/Treasury/Delivery.antt =====
-- Commands are delivered at least once: what any sequence of deliveries does to the ledger.
use rayi.Prelude.{List, [], ◌∷◌, ◌≤◌, Identifier, length, inl, inr}
use rayi.Ledger.{Tables, Session, PostEntryCommand, post_entry}
use rayi.Ledger.Books.{IsSound}
use rayi.Ledger.Posting.{post_entry-IsSound}
use rayi.Ledger.Freshness.{IsFresh, account_for_campaign-IsSound, post_entry-IsFresh}
use rayi.Ledger.Accounts.{account_for_campaign-stable}
use rayi.Ledger.Sources.{entries_of, IsOnce, post_entry-IsOnce}
use rayi.Treasury.{TreasuryCommand}
use rayi.Treasury.Processor.{World, process, treasury_source}
use rayi.Treasury.Queue.{deliver}
use rayi.Treasury.Processing.{IsDerived, process-keeps}

derived-IsOnce :
    (c : TreasuryCommand) (w : World) (s : Session)
    → IsDerived c w s
    → IsOnce w.ledger.db
    → IsOnce s.db
derived-IsOnce c w s (inl same) once = rw same once
derived-IsOnce c w s (inr (campaign, a, h)) once =
    let entries =
      (account_for_campaign-stable w.store.campaigns w.ledger.db campaign _ c.currency a s.db
        h).1 in
    λ kind source. rw entries (once kind source)

deliver-IsOnce :
    (ids : List Identifier) (w : World) → IsOnce w.ledger.db → IsOnce (deliver ids w).ledger.db
unfolding deliver
deliver-IsOnce [] w once = once
deliver-IsOnce (command_id ∷ rest) w once =
    deliver-IsOnce rest ((process command_id w).1)
      (process-keeps IsOnce derived-IsOnce post_entry-IsOnce command_id w once)

-- However often the commands are delivered, and in whatever order, no command has more than one entry
-- in the ledger, when every source had at most one before.
pub deliver_posts_once :
    (ids : List Identifier) (w : World) (command_id : Identifier)
    → IsOnce w.ledger.db
    → length (entries_of treasury_source command_id (deliver ids w).ledger.db) ≤ 1
deliver_posts_once ids w command_id once = deliver-IsOnce ids w once treasury_source command_id

abbrev IsKept : Tables → Type 0
IsKept db = IsSound db × IsFresh db

derived-IsKept :
    (c : TreasuryCommand) (w : World) (s : Session)
    → IsDerived c w s
    → IsKept w.ledger.db
    → IsKept s.db
derived-IsKept c w s (inl same) kept = rw same kept
derived-IsKept c w s (inr (campaign, a, h)) (sound, fresh) =
    account_for_campaign-IsSound w.store.campaigns w.ledger.db campaign _ c.currency a s.db h sound
      fresh

post_entry-IsKept :
    (cmd : PostEntryCommand) (s : Session) → IsKept s.db → IsKept ((post_entry cmd s).1).db
post_entry-IsKept cmd s (sound, fresh) =
    (post_entry-IsSound cmd s sound, post_entry-IsFresh cmd s fresh)

-- However often the commands are delivered, and in whatever order, the books stay sound: every entry
-- balances, no account that must not is overdrawn, and every balance is the sum of its account's
-- lines, when that held before and all rows had identifiers below the next one.
pub deliver-IsSound :
    (ids : List Identifier) (w : World)
    → IsSound w.ledger.db
    → IsFresh w.ledger.db
    → IsSound (deliver ids w).ledger.db × IsFresh (deliver ids w).ledger.db
unfolding deliver
deliver-IsSound [] w sound fresh = (sound, fresh)
deliver-IsSound (command_id ∷ rest) w sound fresh =
    let (s, f) =
      process-keeps IsKept derived-IsKept post_entry-IsKept command_id w (sound, fresh) in
    deliver-IsSound rest ((process command_id w).1) s f
