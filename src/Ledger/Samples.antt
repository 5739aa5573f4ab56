-- ===== src/Ledger/Samples.antt =====
-- Runs, journals and names at concrete inputs, and the theorems there.
use nopal.Prelude.{none, suc, ◌+◌, ◌≤◌, true, ◌≡◌, refl, some, List, [], ◌∷◌, is_some, all, length}
use nopal.Ledger.Lifecycle.{
  running, interrupted, completed, LedgerCommand, err, is_final, transition, transition_new,
  transition_running, transition_interrupted, parse_status, status_text, command_kind,
  command_kind_text,
}
use nopal.Ledger.Replay.{
  Command, write_command, parse_target, parse_command, check_transition, check_command,
  validate_replayed_command,
}
use nopal.Ledger.Histories.{
  History, new, accept, occurs, is_initialize, is_resume, is_interrupt, is_closing, is_terminal,
  is_interrupted, one, History-counts,
}
use nopal.Ledger.Journals.{Continued, Journal, empty, anchor, append, Journal-History}
use nopal.Ledger.Names.{
  codes, is_ascii_alphanumeric, is_mark, slug_chars, trim_start, trim_end, slug, normalize_flow,
  identifier_valid, checkpoint_file_name,
}
use nopal.Ledger.Slugs.{slug-identifier_valid}
use nopal.Ledger.Dates.{
  year_of_era, day_of_year, civil_of_year, civil_from_days, days_from_civil, civil_time, epoch_of,
  InRange, civil_time_bounds,
}

program : Unit {0}
unfolding is_final transition transition_new transition_running transition_interrupted parse_status
    status_text command_kind command_kind_text write_command parse_target parse_command
    check_transition check_command validate_replayed_command is_ascii_alphanumeric is_mark
    slug_chars trim_start trim_end slug normalize_flow identifier_valid checkpoint_file_name all
program = tt

terminal_rejected :
    transition (some completed) LedgerCommand.event ≡ err "terminal runs reject mutation"
unfolding program
terminal_rejected = refl

interrupted_event :
    transition (some interrupted) LedgerCommand.event
    ≡ err "command is invalid for the current run state"
unfolding program
interrupted_event = refl

-- A run that was interrupted, resumed and completed.
abbrev commands : List LedgerCommand
commands =
    LedgerCommand.finalize completed
    ∷ LedgerCommand.resume
    ∷ LedgerCommand.interrupt
    ∷ LedgerCommand.initialize
    ∷ []

completed_run : History commands (some completed)
unfolding program
completed_run =
    accept (LedgerCommand.finalize completed)
      (accept LedgerCommand.resume
        (accept LedgerCommand.interrupt (accept LedgerCommand.initialize new refl) refl) refl)
      refl

History-counts_example :
    (occurs is_initialize commands ≡ one (is_some (some completed)))
    × (occurs is_closing commands ≡ one (is_terminal (some completed)))
    × (occurs is_resume commands + one (is_interrupted (some completed))
        ≤ occurs is_interrupt commands)
History-counts_example = History-counts completed_run

abbrev earlier : List LedgerCommand
earlier = LedgerCommand.resume ∷ LedgerCommand.interrupt ∷ LedgerCommand.initialize ∷ []

journal : Journal none (suc (suc 0)) (some interrupted)
unfolding program
journal =
    append (write_command LedgerCommand.interrupt)
      (append {after = some running} (write_command LedgerCommand.initialize) empty refl) refl

abbrev legacy : Command
legacy = record { kind = some "legacy_anchor"; target_status = none }

-- A run that an anchor took over as interrupted, and its resumption.
anchored : Journal (some interrupted) (suc 0) (some running)
unfolding program
anchored = append (write_command LedgerCommand.resume) (anchor legacy refl) refl

Journal-History_example :
    (cs : List LedgerCommand) × (length cs ≡ suc 0) × Continued (some interrupted) cs (some running)
Journal-History_example = Journal-History anchored

spaced_slug : slug (codes "gate  name!") (codes "gate") ≡ codes "gate-name"
unfolding program
spaced_slug = refl

empty_slug : slug (codes "...") (codes "item") ≡ codes "item"
unfolding program
empty_slug = refl

gate_valid : identifier_valid (codes "gate") ≡ true
unfolding program
gate_valid = refl

gate_fixed : slug (codes "gate") (codes "gate") ≡ codes "gate"
unfolding program
gate_fixed = refl

slug-identifier_valid_example : identifier_valid (slug (codes "gate  name!") (codes "gate")) ≡ true
slug-identifier_valid_example =
    slug-identifier_valid (codes "gate  name!") (codes "gate") gate_valid

-- 2024-02-29T23:59:59+00:00
leap_day : civil_time 1709251199 ≡ record {
  date = record { year = 2024; month = 2; day = 29 };
  hour = 23;
  minute = 59;
  second = 59;
}
unfolding civil_time civil_from_days civil_of_year year_of_era day_of_year
leap_day = refl

days_from_civil-leap : days_from_civil 2024 2 29 ≡ 19782
unfolding days_from_civil
days_from_civil-leap = refl

civil_time_bounds_example :
    InRange (civil_time 1783204993) × (epoch_of (civil_time 1783204993) ≡ 1783204993)
civil_time_bounds_example = civil_time_bounds 1783204993
