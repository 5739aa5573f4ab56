-- ===== src/Ledger/Journals.antt =====
-- Journals: what the store writes passes its replay, and what passes its replay is a lawful run.
use nopal.Prelude.{
  ℕ, suc, String, true, false, ◌≡◌, refl, ap, Option, none, some, List, [], ◌∷◌, arith, length, eqb,
  ◌==◌, ◌⊎◌, inl, inr, Option-cases, is_some_and, Bool-cases,
}
use nopal.Ledger.Lifecycle.{
  Status, running, interrupted, failed, completed, parse_status, status_text, status_eq,
  LedgerCommand, Transition, ok, err, command_kind, command_kind_text, transition,
}
use nopal.Ledger.Replay.{
  Command, Fault, Parsed, structural, fault, write_command, parse_target, parse_command,
  check_transition, check_command, validate_replayed_command,
}
use nopal.Ledger.Histories.{History, new, accept}

later_revision : (n : ℕ) → eqb (suc n) 0 ≡ false
later_revision n = ground arith

-- A command that the store wrote is read back as itself, so replay checks its transition alone.
pub validate-write_command :
    (command : LedgerCommand) (revision : ℕ) (before after : Option Status)
    → validate_replayed_command (write_command command) (suc revision) before after
      ≡ check_transition command before after
unfolding validate_replayed_command write_command check_command parse_command parse_target
    command_kind command_kind_text parse_status status_text
validate-write_command LedgerCommand.initialize revision before after =
    rw (later_revision revision) refl
validate-write_command LedgerCommand.event revision before after = rw (later_revision revision) refl
validate-write_command LedgerCommand.checkpoint revision before after =
    rw (later_revision revision) refl
validate-write_command LedgerCommand.gate revision before after = rw (later_revision revision) refl
validate-write_command LedgerCommand.evidence revision before after =
    rw (later_revision revision) refl
validate-write_command LedgerCommand.interrupt revision before after =
    rw (later_revision revision) refl
validate-write_command LedgerCommand.resume revision before after =
    rw (later_revision revision) refl
validate-write_command (LedgerCommand.finalize running) revision before after =
    rw (later_revision revision) refl
validate-write_command (LedgerCommand.finalize interrupted) revision before after =
    rw (later_revision revision) refl
validate-write_command (LedgerCommand.finalize failed) revision before after =
    rw (later_revision revision) refl
validate-write_command (LedgerCommand.finalize completed) revision before after =
    rw (later_revision revision) refl

-- A transaction that passes replay stands for some command that takes the run to its new status.
abbrev Lawful : Option Status → Option Status → Type 0
Lawful before after =
    (command : LedgerCommand) × (status : Status) × (transition before command ≡ ok status)
    × (after ≡ some status)

Transition-cases : (t : Transition) → ((s : Status) × (t ≡ ok s)) ⊎ ((m : String) × (t ≡ err m))
Transition-cases (ok s) = inl (s, refl)
Transition-cases (err m) = inr (m, refl)

Parsed-cases :
    (p : Parsed) → ((c : LedgerCommand) × (p ≡ structural c)) ⊎ ((f : Fault) × (p ≡ fault f))
Parsed-cases (structural c) = inl (c, refl)
Parsed-cases (fault f) = inr (f, refl)

same_status : (a b : Status) → status_eq a b ≡ true → a ≡ b
same_status a b h = ground arith

same_after :
    (after : Option Status) (status : Status)
    → is_some_and after (λ s. status_eq s status) ≡ true
    → after ≡ some status
same_after none status h = cc
same_after (some s) status h = ap some (same_status s status h)

check_transition-Lawful :
    (command : LedgerCommand) (before after : Option Status)
    → check_transition command before after ≡ none
    → Lawful before after
unfolding check_transition
check_transition-Lawful command before after h =
    elim (Transition-cases (transition before command)) [
      | inr (m, e) ↦ absurd (ground (arith, rw (e, check_transition) at h))
      | inl (status, e) ↦ elim (Bool-cases (is_some_and after (λ s. status_eq s status))) [
        | inl same ↦ (command, status, e, same_after after status same)
        | inr other ↦ absurd (ground (arith, rw (e, check_transition, other) at h))
      ]
    ]

check_command-Lawful :
    (kind : String) (target : Option String) (revision : ℕ) (before after : Option Status)
    → check_command kind target (suc revision) before after ≡ none
    → Lawful before after
unfolding check_command
check_command-Lawful kind target revision before after h =
    elim (Bool-cases (kind == "legacy_anchor")) [
      | inl e ↦ absurd (ground (arith, rw e at h))
      | inr e ↦ elim (Parsed-cases (parse_command kind target)) [
        | inr (f, p) ↦ absurd (ground (arith, rw (e, later_revision revision, p) at h))
        | inl (command, p) ↦
            check_transition-Lawful command before after (rw (e, later_revision revision, p) at h)
      ]
    ]

validate-Lawful :
    (command : Command) (revision : ℕ) (before after : Option Status)
    → validate_replayed_command command (suc revision) before after ≡ none
    → Lawful before after
unfolding validate_replayed_command
validate-Lawful command revision before after h = elim (Option-cases command.kind) [
  | inl e ↦ absurd (ground (arith, rw e at h))
  | inr (kind, e) ↦
      check_command-Lawful kind command.target_status revision before after (rw e at h)
]

-- The run that the commands leave from a first status, if each of them was accepted.
pub data Continued : Option Status → List LedgerCommand → Option Status → Type 0 where
  started : {start : Option Status} → Continued start [] start
  continued :
      {start current : Option Status} {commands : List LedgerCommand} {status : Status}
      (command : LedgerCommand)
      → Continued start commands current
      → transition current command ≡ ok status
      → Continued start (command ∷ commands) (some status)

-- From nothing, it is a lawful run.
Continued-History :
    {commands : List LedgerCommand} {state : Option Status}
    → Continued none commands state
    → History commands state
Continued-History started = new
Continued-History (continued command run e) = accept command (Continued-History run) e

-- A journal, each of whose transactions passed its check: the status that it starts with, which an
-- anchor at revision zero gives, its last revision, and the status that its projections show.
pub data Journal : Option Status → ℕ → Option Status → Type 0 where
  empty : Journal none 0 none
  anchor :
      {after : Option Status} (command : Command)
      → validate_replayed_command command 0 none after ≡ none
      → Journal after 0 after
  append :
      {start : Option Status} {revision : ℕ} {before after : Option Status} (command : Command)
      → Journal start revision before
      → validate_replayed_command command (suc revision) before after ≡ none
      → Journal start (suc revision) after

-- The status that a replayed journal shows is that of a run from the status of its anchor, or from
-- nothing if it has none, with one lawful command for each later revision.
pub Journal-History :
    {start : Option Status} {revision : ℕ} {state : Option Status}
    → Journal start revision state
    → (commands : List LedgerCommand) × (length commands ≡ revision)
      × Continued start commands state
Journal-History empty = ([], refl, started)
Journal-History (anchor command h) = ([], refl, started)
Journal-History (append {start} {revision} {before} {after} command journal h) =
    let (commands, counted, run) = Journal-History journal in
    let (c, status, e, shown) = validate-Lawful command revision before after h in
    (c ∷ commands, ap suc counted, rw shown (continued c run e))
