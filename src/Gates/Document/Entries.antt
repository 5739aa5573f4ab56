-- ===== src/Gates/Document/Entries.antt =====
-- The preflights and the gates of a gates document (gates.rs): ids, runs and the loops over both.
use Prim.Native.Char.{Char, code}
use nopal.Prelude.{
  ℕ, suc, eqb, leb, not, ◌&&◌, ◌||◌, all, String, Bool, true, Option, none, some, List, [], ◌∷◌,
  ◌++◌, if◌then◌else◌, is_empty, contains, concat,
}
use nopal.Json.{Json, and_then, get_field}
use nopal.Diagnostics.Codes.{
  duplicate_id, stage_unknown, command_conflict, command_missing, command_invalid,
}
use nopal.Diagnostics.Report.{Diagnostic, error_diagnostic, warning_diagnostic}
use nopal.Diagnostics.Said.{Said, say, quiet, after, bind, try}
use nopal.Gates.{
  PreflightStage, parse_preflight_stage, GateStage, parse_stage, Run, command, argv, Preflight,
  Gate,
}
use nopal.Gates.Document.Fields.{
  enum_names, is_non_empty, collect_strs, required_str, optional_str, optional_bool,
}
use nopal.Gates.Document.Placeholders.{check_placeholders}

-- `char::is_whitespace`, the property White_Space of Unicode.
abbrev pub is_whitespace : Char → Bool
is_whitespace c =
    let n = code c in
    (leb 9 n && leb n 13)
    || eqb n 32
    || eqb n 133
    || eqb n 160
    || eqb n 5760
    || (leb 8192 n && leb n 8202)
    || eqb n 8232
    || eqb n 8233
    || eqb n 8239
    || eqb n 8287
    || eqb n 12288

-- `text.trim().is_empty()`
unfoldable pub is_blank : String → Bool
is_blank String.[] = true
is_blank (String.◌∷◌ c s) = is_whitespace c && is_blank s

-- What a loop over entries has kept, and the ids it has seen.
pub record Kept (A : Type 0) : Type 0 where
  pub kept : List A
  pub seen_ids : List String
  pub said : List Diagnostic

abbrev pub add_some {ℓ} : {A : Type ℓ} → Option A → List A → List A
add_some none xs = xs
add_some (some x) xs = x ∷ xs

-- `seen_ids` after `entry_id`: a new id is pushed.
abbrev pub see : List String → Option String → List String
see seen none = seen
see seen (some id) = seen ++ id ∷ []

module _ (json : Json) (path : String) where
  abbrev pub complaint {ℓ} : {A : Type ℓ} → Diagnostic → Said (Option A)
  complaint d = say none (d ∷ [])

  unfoldable pub check_id : List String → String → String → Said (Option String)
  check_id seen at id =
      if contains seen id
      then complaint (
          error_diagnostic duplicate_id path (
            concat (
              at
              ∷ ": duplicate id "
              ∷ json.debug id
              ∷ "; ids are unique across preflights and gates"
              ∷ [])))
      else quiet (some id)

  unfoldable pub entry_id : List String → json.Value → String → Said (Option String)
  entry_id seen entry at = try (required_str json path entry "id" at) (check_id seen at)

  -- `check_placeholders` on each word of an argv.
  unfoldable pub check_words : String → ℕ → List String → List Diagnostic
  check_words at index [] = []
  check_words at index (word ∷ words) =
      check_placeholders json path word (concat (at ∷ ".argv[" ∷ json.decimal index ∷ "]" ∷ []))
      ++ check_words at (suc index) words

  abbrev pub command_complaint : String → Said (Option Run)
  command_complaint at = complaint (
      error_diagnostic command_invalid path
        (concat (at ∷ ": \"command\" must be a non-empty string" ∷ [])))

  unfoldable pub parse_command_run : String → json.Value → Said (Option Run)
  parse_command_run at value = elim (json.as_str value) [
    | some text ↦
        if not (is_blank text)
        then say (some (command text))
            (check_placeholders json path text (concat (at ∷ ".command" ∷ [])))
        else command_complaint at
    | none ↦ command_complaint at
  ]

  abbrev pub argv_complaint : String → Said (Option Run)
  argv_complaint at = complaint (
      error_diagnostic command_invalid path
        (concat (at ∷ ": \"argv\" must be a non-empty array of non-empty strings" ∷ [])))

  unfoldable pub parse_argv_run : String → json.Value → Said (Option Run)
  parse_argv_run at value = elim (and_then (json.as_array value) (collect_strs json)) [
    | some words ↦
        if not (is_empty words) && all is_non_empty words
        then say (some (argv words)) (check_words at 0 words)
        else argv_complaint at
    | none ↦ argv_complaint at
  ]

  -- Exactly one of `command` and `argv`.
  unfoldable pub choose_run : String → Option json.Value → Option json.Value → Said (Option Run)
  choose_run at (some c) (some a) = complaint (
      error_diagnostic command_conflict path
        (concat (at ∷ ": declares both \"command\" and \"argv\"; exactly one is required" ∷ [])))
  choose_run at none none = complaint (
      error_diagnostic command_missing path
        (concat (at ∷ ": declares neither \"command\" nor \"argv\"; exactly one is required" ∷ [])))
  choose_run at (some c) none = parse_command_run at c
  choose_run at none (some a) = parse_argv_run at a

  unfoldable pub parse_run : json.Value → String → Said (Option Run)
  parse_run entry at = choose_run at (get_field json entry "command") (get_field json entry "argv")

  abbrev pub stage_warning : String → String → String → List String → List Diagnostic
  stage_warning at kind stage names =
      warning_diagnostic stage_unknown path (
        concat (
          at
          ∷ ": unknown "
          ∷ kind
          ∷ " stage "
          ∷ json.debug stage
          ∷ "; expected one of "
          ∷ enum_names json names
          ∷ []))
      ∷ []

  unfoldable pub check_preflight_stage : String → String → PreflightStage → List Diagnostic
  check_preflight_stage at text (PreflightStage.unknown s) =
      stage_warning at "preflight" text ("session_start" ∷ "run_start" ∷ [])
  check_preflight_stage at text stage = []

  unfoldable pub check_gate_stage : String → String → GateStage → List Diagnostic
  check_gate_stage at text (GateStage.unknown s) =
      stage_warning at "gate" text
        ("per_edit" ∷ "pre_commit" ∷ "pre_pr" ∷ "post_pr" ∷ "continuous" ∷ "human_interrupt" ∷ [])
  check_gate_stage at text stage = []

  -- What follows the stage of a preflight, and of a gate.
  unfoldable pub preflight_rest :
      json.Value → String → String → PreflightStage → Said (Option Preflight)
  preflight_rest entry at id stage = try (parse_run entry at) (λ run.
      bind (optional_str json path entry "cwd" at)
        (λ cwd. quiet (some (record { id = id; stage = stage; run = run; cwd = cwd }))))

  unfoldable pub preflight_body : json.Value → String → String → Said (Option Preflight)
  preflight_body entry at id = try (required_str json path entry "stage" at) (λ text.
      after (check_preflight_stage at text (parse_preflight_stage text))
        (preflight_rest entry at id (parse_preflight_stage text)))

  abbrev pub check_autofix : String → Option String → List Diagnostic
  check_autofix at none = []
  check_autofix at (some autofix) =
      check_placeholders json path autofix (concat (at ∷ ".autofix" ∷ []))

  unfoldable pub gate_rest : json.Value → String → String → GateStage → Said (Option Gate)
  gate_rest entry at id stage = try (parse_run entry at) (λ run.
      bind (optional_str json path entry "cwd" at) (λ cwd.
        bind (optional_str json path entry "autofix" at) (λ autofix.
          after (check_autofix at autofix) (
            bind (optional_bool json path entry "parallel_safe" at) (λ parallel_safe.
              bind (optional_bool json path entry "mutates" at) (λ mutates. quiet (
                some (record {
                  id = id;
                  stage = stage;
                  run = run;
                  cwd = cwd;
                  autofix = autofix;
                  parallel_safe = parallel_safe;
                  mutates = mutates;
                }))))))))

  unfoldable pub gate_body : json.Value → String → String → Said (Option Gate)
  gate_body entry at id = try (required_str json path entry "stage" at) (λ text.
      after (check_gate_stage at text (parse_stage text))
        (gate_rest entry at id (parse_stage text)))

  -- `parse_preflight` and `parse_gate` after their id, over all entries: an entry that fails is left
  -- out, but its id stays seen.
  unfoldable pub parse_entries :
      {A : Type 0}
      → String
      → (json.Value → String → String → Said (Option A))
      → ℕ
      → List String
      → List json.Value
      → Kept A
  parse_entries list body index seen [] = record { kept = []; seen_ids = seen; said = [] }
  parse_entries list body index seen (entry ∷ rest) =
      let at = concat (list ∷ "[" ∷ json.decimal index ∷ "]" ∷ []) in
      let id = entry_id seen entry at in
      let parsed = try id (body entry at) in
      let later = parse_entries list body (suc index) (see seen id.value) rest in
      record {
        kept = add_some parsed.value later.kept;
        seen_ids = later.seen_ids;
        said = parsed.said ++ later.said;
      }

  unfoldable pub parse_preflights : List String → List json.Value → Kept Preflight
  parse_preflights seen entries = parse_entries "preflights" preflight_body 0 seen entries

  unfoldable pub parse_gates : List String → List json.Value → Kept Gate
  parse_gates seen entries = parse_entries "gates" gate_body 0 seen entries
