-- ===== src/Ledger/Histories.antt =====
-- The runs that `transition` accepts, as lists of commands from the latest one back.
use nopal.Prelude.{
  ℕ, ◌+◌, ◌≤◌, Bool, true, false, not, ◌≡◌, refl, Option, none, some, List, [], ◌∷◌, arith,
  if◌then◌else◌, is_some, is_empty,
}
use nopal.Ledger.Lifecycle.{
  Status, interrupted, failed, completed, LedgerCommand, ok, is_final, transition, transition_new,
  transition_running, transition_interrupted,
}

-- The run that the commands leave, if each of them was accepted.
pub data History : List LedgerCommand → Option Status → Type 0 where
  new : History [] none
  accept :
      {commands : List LedgerCommand} {current : Option Status} {status : Status}
      (command : LedgerCommand)
      → History commands current
      → transition current command ≡ ok status
      → History (command ∷ commands) (some status)

abbrev pub occurs : (LedgerCommand → Bool) → List LedgerCommand → ℕ
occurs p [] = 0
occurs p (c ∷ cs) = (if p c then 1 else 0) + occurs p cs

abbrev pub is_initialize : LedgerCommand → Bool
is_initialize LedgerCommand.initialize = true
is_initialize _ = false

abbrev pub is_resume : LedgerCommand → Bool
is_resume LedgerCommand.resume = true
is_resume _ = false

-- The two commands that interrupt a run.
abbrev pub is_interrupt : LedgerCommand → Bool
is_interrupt LedgerCommand.interrupt = true
is_interrupt (LedgerCommand.finalize interrupted) = true
is_interrupt _ = false

-- The commands that close a run for good.
abbrev pub is_closing : LedgerCommand → Bool
is_closing (LedgerCommand.finalize failed) = true
is_closing (LedgerCommand.finalize completed) = true
is_closing _ = false

abbrev pub is_terminal : Option Status → Bool
is_terminal (some failed) = true
is_terminal (some completed) = true
is_terminal _ = false

abbrev pub is_interrupted : Option Status → Bool
is_interrupted (some interrupted) = true
is_interrupted _ = false

abbrev pub one : Bool → ℕ
one b = if b then 1 else 0

-- What one accepted command changes.
abbrev Counts : Option Status → LedgerCommand → Status → Type 0
Counts current command status =
    (one (is_initialize command) + one (is_some current) ≡ 1)
    × (one (is_closing command) + one (is_terminal current) ≡ one (is_terminal (some status)))
    × (one (is_resume command) + one (is_interrupted (some status))
        ≤ one (is_interrupt command) + one (is_interrupted current))

transition-Counts :
    (current : Option Status) (command : LedgerCommand) (status : Status)
    → transition current command ≡ ok status
    → Counts current command status
unfolding transition transition_new transition_running transition_interrupted is_final
transition-Counts current command status h = ground arith

-- A run was created once if it exists, and closed once if it is terminal. It is never resumed more
-- often than it was interrupted.
pub History-counts :
    {commands : List LedgerCommand} {state : Option Status}
    → History commands state
    → (occurs is_initialize commands ≡ one (is_some state))
      × (occurs is_closing commands ≡ one (is_terminal state))
      × (occurs is_resume commands + one (is_interrupted state) ≤ occurs is_interrupt commands)
History-counts new = (refl, refl, omega arith)
History-counts (accept {commands} {current} {status} command h e) =
    let (created, closed, resumed) = History-counts h in
    let (creates, closes, resumes) = transition-Counts current command status e in
    (
      ground (arith, created, creates),
      omega (arith, closed, closes),
      omega (arith, resumed, resumes),
    )

History-is_empty :
    {commands : List LedgerCommand} {state : Option Status}
    → History commands state
    → is_empty commands ≡ not (is_some state)
History-is_empty new = refl
History-is_empty (accept command h e) = refl

transition_open :
    (current : Option Status) (command : LedgerCommand) (status : Status)
    → transition current command ≡ ok status
    → is_terminal current ≡ false
unfolding transition
transition_open current command status h = ground arith

-- Only the first command of a run creates it, and no command is accepted after one that closes it.
pub History-ends :
    {command : LedgerCommand} {commands : List LedgerCommand} {state : Option Status}
    → History (command ∷ commands) state
    → (is_initialize command ≡ is_empty commands) × (occurs is_closing commands ≡ 0)
History-ends (accept {commands} {current} {status} command h e) =
    let (created, closed, resumed) = History-counts h in
    let (creates, closes, resumes) = transition-Counts current command status e in
    (
      ground (arith, creates, History-is_empty h),
      ground (arith, closed, transition_open current command status e),
    )
