-- ===== src/Ledger/Replay.antt =====
-- How run_ledger_store.rs writes a command into the journal, and checks it when it is read again.
use nopal.Prelude.{
  ℕ, String, not, ◌||◌, Option, none, some, ◌==◌, eqb, if◌then◌else◌, is_some, is_some_and,
}
use nopal.Ledger.Lifecycle.{
  Status, parse_status, status_text, status_eq, LedgerCommand, ok, err, command_kind,
  command_kind_text, transition,
}

-- The fields `kind` and `target_status` of the command object of a transaction: none if the field
-- is absent or no string.
pub record Command : Type 0 where
  pub kind : Option String
  pub target_status : Option String

-- The errors of a replay, each with its variable part.
pub data Fault : Type 0 where
  kind_missing anchor_misplaced anchor_missing target_missing : Fault
  kind_unknown : String → Fault
  lifecycle : String → Fault
  projection : Option Status → Status → Fault

pub data Parsed : Type 0 where
  structural : LedgerCommand → Parsed
  fault : Fault → Parsed

-- The command that the store appends.
unfoldable pub write_command : LedgerCommand → Command
write_command command = record {
  kind = some (command_kind_text (command_kind command));
  target_status = elim command [
    | LedgerCommand.finalize status ↦ some (status_text status)
    | _ ↦ none
  ];
}

unfoldable pub parse_target : Option String → Parsed
parse_target none = fault target_missing
parse_target (some text) = elim (parse_status text) [
  | none ↦ fault target_missing
  | some status ↦ structural (LedgerCommand.finalize status)
]

unfoldable pub parse_command : String → Option String → Parsed
parse_command kind target =
    if kind == "initialize"
    then structural LedgerCommand.initialize
    else if kind == "event"
    then structural LedgerCommand.event
    else if kind == "checkpoint"
    then structural LedgerCommand.checkpoint
    else if kind == "gate"
    then structural LedgerCommand.gate
    else if kind == "evidence"
    then structural LedgerCommand.evidence
    else if kind == "interrupt"
    then structural LedgerCommand.interrupt
    else if kind == "resume"
    then structural LedgerCommand.resume
    else if kind == "finalize"
    then parse_target target
    else fault (kind_unknown kind)

-- The accepted command takes the run to the projected status.
unfoldable pub check_transition : LedgerCommand → Option Status → Option Status → Option Fault
check_transition command before after = elim (transition before command) [
  | err message ↦ some (lifecycle message)
  | ok expected ↦
      if is_some_and after (λ status. status_eq status expected)
      then none
      else some (projection after expected)
]

unfoldable pub check_command :
    String → Option String → ℕ → Option Status → Option Status → Option Fault
check_command kind target revision before after =
    if kind == "legacy_anchor"
    then (if not (eqb revision 0) || is_some before || not (is_some after)
        then some anchor_misplaced
        else none)
    else if eqb revision 0
    then some anchor_missing
    else elim (parse_command kind target) [
      | fault f ↦ some f
      | structural command ↦ check_transition command before after
    ]

-- None stands for `Ok(())`.
unfoldable pub validate_replayed_command :
    Command → ℕ → Option Status → Option Status → Option Fault
validate_replayed_command command revision before after = elim command.kind [
  | none ↦ some kind_missing
  | some kind ↦ check_command kind command.target_status revision before after
]
