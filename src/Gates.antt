-- ===== src/Gates.antt =====
-- nopal.gates (crates/nopal-core/src/gates.rs): the stages, the gates and the configuration that
-- gate selection reads, with the tests of explicit authority.
use nopal.Prelude.{
  ℕ, String, Bool, true, false, not, ◌||◌, ◌&&◌, Option, none, some, List, [], ◌==◌, eqb,
  if◌then◌else◌, is_empty, any, find, contains,
}
use nopal.Gates.Provenance.{ScaffoldProvenance}
pub mod Provenance
pub mod Document

pub data PreflightStage : Type 0 where
  session_start run_start : PreflightStage
  unknown : String → PreflightStage

unfoldable pub parse_preflight_stage : String → PreflightStage
parse_preflight_stage s =
    if s == "session_start"
    then session_start
    else if s == "run_start"
    then run_start
    else PreflightStage.unknown s

unfoldable pub preflight_stage_text : PreflightStage → String
preflight_stage_text session_start = "session_start"
preflight_stage_text run_start = "run_start"
preflight_stage_text (PreflightStage.unknown stage) = stage

pub data GateStage : Type 0 where
  per_edit pre_commit pre_pr post_pr continuous human_interrupt : GateStage
  unknown : String → GateStage

unfoldable pub parse_stage : String → GateStage
parse_stage s =
    if s == "per_edit"
    then per_edit
    else if s == "pre_commit"
    then pre_commit
    else if s == "pre_pr"
    then pre_pr
    else if s == "post_pr"
    then post_pr
    else if s == "continuous"
    then continuous
    else if s == "human_interrupt"
    then human_interrupt
    else GateStage.unknown s

unfoldable pub stage_text : GateStage → String
stage_text per_edit = "per_edit"
stage_text pre_commit = "pre_commit"
stage_text pre_pr = "pre_pr"
stage_text post_pr = "post_pr"
stage_text continuous = "continuous"
stage_text human_interrupt = "human_interrupt"
stage_text (GateStage.unknown stage) = stage

-- The derived equality: the variants are the same, and so are their fields.
abbrev pub stage_tag : GateStage → ℕ
stage_tag per_edit = 0
stage_tag pre_commit = 1
stage_tag pre_pr = 2
stage_tag post_pr = 3
stage_tag continuous = 4
stage_tag human_interrupt = 5
stage_tag (GateStage.unknown stage) = 6

abbrev pub stage_field : GateStage → String
stage_field (GateStage.unknown stage) = stage
stage_field _ = ""

unfoldable pub stage_eq : GateStage → GateStage → Bool
stage_eq a b = eqb (stage_tag a) (stage_tag b) && stage_field a == stage_field b

pub data Run : Type 0 where
  command : String → Run
  argv : List String → Run

pub record Preflight : Type 0 where
  pub id : String
  pub stage : PreflightStage
  pub run : Run
  pub cwd : Option String

pub record Gate : Type 0 where
  pub id : String
  pub stage : GateStage
  pub run : Run
  pub cwd : Option String
  pub autofix : Option String
  pub parallel_safe : Option Bool
  pub mutates : Option Bool

pub record GateSet : Type 0 where
  pub gates : List String

pub record Selector : Type 0 where
  pub name : String
  pub paths : List String
  pub exclude : List String
  pub gate_sets : List String

-- The map of gate sets is the list of its entries in the order of their names.
pub record GatesConfig : Type 0 where
  pub scaffold : Option ScaffoldProvenance
  pub preflights : List Preflight
  pub gates : List Gate
  pub gate_sets : List (String × GateSet)
  pub selectors : List Selector

unfoldable pub get_set : List (String × GateSet) → String → Option GateSet
get_set sets name = elim (find (λ (e : String × GateSet). e.0 == name) sets) [
  | some e ↦ some e.1
  | none ↦ none
]

-- A set of texts is the list of its elements.
unfoldable pub generated_gate_ids : GatesConfig → List String
generated_gate_ids config = elim config.scaffold [
  | some provenance ↦ provenance.generated_gate_ids
  | none ↦ []
]

abbrev pub has_scaffold : GatesConfig → Bool
has_scaffold config = elim config.scaffold [ some p ↦ true | none ↦ false ]

unfoldable pub has_explicit_gates : GatesConfig → Bool
has_explicit_gates config =
    if not (has_scaffold config)
    then not (is_empty config.gates)
    else any (λ (gate : Gate). not (contains (generated_gate_ids config) gate.id)) config.gates

unfoldable pub has_explicit_gates_for_stage : GatesConfig → GateStage → Bool
has_explicit_gates_for_stage config stage =
    any
      (λ (gate : Gate).
        stage_eq gate.stage stage
        && (not (has_scaffold config) || not (contains (generated_gate_ids config) gate.id)))
      config.gates
