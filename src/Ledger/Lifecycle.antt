-- ===== src/Ledger/Lifecycle.antt =====
-- The lifecycle of a run (crates/nopal-core/src/run_ledger.rs).
use nopal.Prelude.{ℕ, String, Bool, true, false, not, Option, none, some, ◌==◌, eqb, if◌then◌else◌}

pub data Status : Type 0 where
  running interrupted failed completed : Status

pub data CommandKind : Type 0 where
  initialize event checkpoint gate evidence interrupt resume finalize : CommandKind

unfoldable pub command_kind_text : CommandKind → String
command_kind_text initialize = "initialize"
command_kind_text event = "event"
command_kind_text checkpoint = "checkpoint"
command_kind_text gate = "gate"
command_kind_text evidence = "evidence"
command_kind_text interrupt = "interrupt"
command_kind_text resume = "resume"
command_kind_text finalize = "finalize"

pub data LedgerCommand : Type 0 where
  initialize event checkpoint gate evidence interrupt resume : LedgerCommand
  finalize : Status → LedgerCommand

unfoldable pub command_kind : LedgerCommand → CommandKind
command_kind LedgerCommand.initialize = CommandKind.initialize
command_kind LedgerCommand.event = CommandKind.event
command_kind LedgerCommand.checkpoint = CommandKind.checkpoint
command_kind LedgerCommand.gate = CommandKind.gate
command_kind LedgerCommand.evidence = CommandKind.evidence
command_kind LedgerCommand.interrupt = CommandKind.interrupt
command_kind LedgerCommand.resume = CommandKind.resume
command_kind (LedgerCommand.finalize status) = CommandKind.finalize

unfoldable pub parse_status : String → Option Status
parse_status s =
    if s == "running"
    then some running
    else if s == "interrupted"
    then some interrupted
    else if s == "failed"
    then some failed
    else if s == "completed"
    then some completed
    else none

unfoldable pub status_text : Status → String
status_text running = "running"
status_text interrupted = "interrupted"
status_text failed = "failed"
status_text completed = "completed"

-- The derived equality.
abbrev pub status_tag : Status → ℕ
status_tag running = 0
status_tag interrupted = 1
status_tag failed = 2
status_tag completed = 3

abbrev pub status_eq : Status → Status → Bool
status_eq a b = eqb (status_tag a) (status_tag b)

unfoldable pub is_incomplete : Status → Bool
is_incomplete status = not (status_eq status completed)

-- `Status::FINAL.contains`
unfoldable pub is_final : Status → Bool
is_final running = false
is_final interrupted = true
is_final failed = true
is_final completed = true

pub data Transition : Type 0 where
  ok : Status → Transition
  err : String → Transition

-- The arms of the match, by the current status: the arm that only `initialize` passes, those of a
-- running and an interrupted run, and the one that a terminal run never passes.
unfoldable pub transition_new : LedgerCommand → Transition
transition_new LedgerCommand.initialize = ok running
transition_new _ = err "only initialize may create a run"

unfoldable pub transition_running : LedgerCommand → Transition
transition_running LedgerCommand.event = ok running
transition_running LedgerCommand.checkpoint = ok running
transition_running LedgerCommand.gate = ok running
transition_running LedgerCommand.evidence = ok running
transition_running LedgerCommand.interrupt = ok interrupted
transition_running (LedgerCommand.finalize status) =
    if is_final status then ok status else err "command is invalid for the current run state"
transition_running _ = err "command is invalid for the current run state"

unfoldable pub transition_interrupted : LedgerCommand → Transition
transition_interrupted LedgerCommand.resume = ok running
transition_interrupted (LedgerCommand.finalize status) =
    if is_final status then ok status else err "command is invalid for the current run state"
transition_interrupted _ = err "command is invalid for the current run state"

unfoldable pub transition : Option Status → LedgerCommand → Transition
transition none command = transition_new command
transition (some running) command = transition_running command
transition (some interrupted) command = transition_interrupted command
transition (some failed) command = err "terminal runs reject mutation"
transition (some completed) command = err "terminal runs reject mutation"
