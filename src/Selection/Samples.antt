-- ===== src/Selection/Samples.antt =====
-- A small configuration whose globs are prefixes, tests, and the theorems at these inputs.
use text.Mathlib.Text.{starts_with}
use nopal.Prelude.{
  ℕ, ◌+◌, ◌≤◌, String, true, not, ◌&&◌, ◌≡◌, refl, none, some, List, [], ◌∷◌, map, ◌==◌, eq_iff,
  arith, if◌then◌else◌, any, all, find, keep, contains, is_some_and, inl, inr, Bool-cases, sym,
}
use nopal.Gates.{
  GateStage, pre_pr, pre_commit, stage_eq, command, Gate, GatesConfig, get_set, generated_gate_ids,
}
use nopal.Gates.Provenance.{ready, generated}
use nopal.Selection.Types.{
  SelectedGate, SkipReason, SkippedGate, superseded_by_explicit_authority, stage_mismatch,
  not_selected,
}
use nopal.Selection.Globs.{Globset, insert_file, sort, dedup, compile, glob_set, matching_files}
use nopal.Selection.Pull.{
  find_gate, pull_default, pull_gate, pull_gates, pull_set, pull_sets, scan_selector,
  scan_selectors, scan,
}
use nopal.Selection.Select.{
  is_explicit_at, selects_explicit_gate, covered_files, explicit_authority_covers_selection,
  decide_gate, decide_pulled, skip_unpulled, suppressed_generated, select,
}
use nopal.Selection.Partition.{count, gate_id, select-partition}
use nopal.Selection.Cover.{is_superseded, superseded-selected}
use nopal.Selection.Chosen.{is_selected, is_wanted, runs_at, select-exactly}

abbrev pub prefixes : Globset
prefixes = record {
  Glob = String;
  GlobSet = List String;
  glob = λ p. some p;
  build = λ ps. some ps;
  is_match = λ ps file. any (starts_with file) ps;
}

abbrev gate : String → GateStage → Gate
gate id stage = record {
  id = id;
  stage = stage;
  run = command "make";
  cwd = none;
  autofix = none;
  parallel_safe = some true;
  mutates = none;
}

abbrev pub config : GatesConfig
config = record {
  scaffold = some (record {
    version = "nopal.gate_scaffold/v1";
    readiness = ready;
    authority = generated;
    templates = [];
    generated_gate_ids = "detected.git" ∷ [];
    decisions = [];
  });
  preflights = [];
  gates =
      gate "detected.git" pre_pr
      ∷ gate "lint" pre_pr
      ∷ gate "fmt" pre_commit
      ∷ gate "docs" pre_pr
      ∷ [];
  gate_sets =
      ("code", record { gates = "lint" ∷ "fmt" ∷ [] })
      ∷ ("text", record { gates = "docs" ∷ [] })
      ∷ [];
  selectors =
      record { name = "rust"; paths = "src/" ∷ []; exclude = []; gate_sets = "code" ∷ [] }
      ∷ record {
        name = "prose";
        paths = "docs/" ∷ [];
        exclude = "docs/x" ∷ [];
        gate_sets = "text" ∷ [];
      }
      ∷ [];
}

abbrev code_change : List String
code_change = "src/b.rs" ∷ "src/a.rs" ∷ "src/b.rs" ∷ []

program : Unit {0}
unfolding stage_eq get_set generated_gate_ids insert_file sort dedup compile glob_set matching_files
    find_gate pull_default pull_gate pull_gates pull_set pull_sets scan_selector scan_selectors scan
    is_explicit_at selects_explicit_gate covered_files explicit_authority_covers_selection
    decide_gate decide_pulled skip_unpulled suppressed_generated select any all find keep contains
program = tt

code_change_selected :
    map (λ (g : SelectedGate). g.id) (select prefixes config pre_pr code_change).selected
    ≡ "lint" ∷ []
unfolding program
code_change_selected = refl

code_change_skipped :
    map {B = String × SkipReason}
      (λ (g : SkippedGate). (g.id, g.reason))
      (select prefixes config pre_pr code_change).skipped
    ≡ ("detected.git", superseded_by_explicit_authority)
      ∷ ("fmt", stage_mismatch)
      ∷ ("docs", not_selected)
      ∷ []
unfolding program
code_change_skipped = refl

-- A file outside the explicit selectors keeps the generated proof.
outside_selected :
    map
      (λ (g : SelectedGate). g.id)
      (select prefixes config pre_pr ("Makefile" ∷ code_change)).selected
    ≡ "detected.git" ∷ "lint" ∷ []
unfolding program
outside_selected = refl

-- An id is counted once by its own name and not by another one.
weight_cases :
    (name id : String) (rest : ℕ)
    → (name ≡ id → rest ≡ 0)
    → rest ≤ 1
    → (if name == id then 1 else 0) + rest ≤ 1
weight_cases name id rest alone small = elim (Bool-cases (name == id)) [
  | inl e ↦ rw e (omega (arith, alone ((eq_iff name id).0 e)))
  | inr e ↦ rw e (omega (arith, small))
]

config_unique : (id : String) → count gate_id id config.gates ≤ 1
config_unique id =
    weight_cases "detected.git" id
      (count gate_id id (gate "lint" pre_pr ∷ gate "fmt" pre_commit ∷ gate "docs" pre_pr ∷ []))
      (λ same. rw (sym same) refl)
      (weight_cases "lint" id (count gate_id id (gate "fmt" pre_commit ∷ gate "docs" pre_pr ∷ []))
        (λ same. rw (sym same) refl)
        (weight_cases "fmt" id (count gate_id id (gate "docs" pre_pr ∷ []))
          (λ same. rw (sym same) refl) (weight_cases "docs" id 0 (λ same. refl) (omega arith))))

select-partition_example :
    count (λ (g : SelectedGate). g.id) "fmt" (select prefixes config pre_pr code_change).selected
      + count (λ (g : SkippedGate). g.id) "fmt" (select prefixes config pre_pr code_change).skipped
    ≡ count gate_id "fmt" config.gates
select-partition_example = select-partition prefixes config pre_pr code_change "fmt" config_unique

code_change_superseded :
    any is_superseded (select prefixes config pre_pr code_change).skipped ≡ true
unfolding program
code_change_superseded = refl

superseded-selected_example :
    any
      (λ (g : SelectedGate). not (contains (generated_gate_ids config) g.id))
      (select prefixes config pre_pr code_change).selected
    ≡ true
superseded-selected_example =
    superseded-selected prefixes config pre_pr code_change code_change_superseded

select-exactly_example : is_selected "lint" (select prefixes config pre_pr code_change).selected ≡ (
    is_some_and
      (find_gate config "lint")
      (runs_at pre_pr (suppressed_generated prefixes config pre_pr (dedup (sort code_change))))
    && is_wanted prefixes config (dedup (sort code_change)) "lint")
select-exactly_example = select-exactly prefixes config pre_pr code_change "lint"
