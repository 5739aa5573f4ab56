-- ===== src/Enforcement/Required.antt =====
-- `select_required_gates` of enforcement.rs: the gates of all sources at all required stages.
use nopal.Prelude.{
  String, Bool, true, false, not, ◌==◌, ◌&&◌, Option, none, some, List, [], ◌∷◌, ◌++◌, map,
  if◌then◌else◌, any, find, keep, contains, concat,
}
use nopal.Diagnostics.Codes.{module_parse_error}
use nopal.Diagnostics.Report.{Diagnostic, error_diagnostic}
use nopal.Gates.{GateStage, stage_text, Run, command, argv, GatesConfig, generated_gate_ids}
use nopal.Selection.Globs.{Globset}
use nopal.Selection.Types.{SelectedGate}
use nopal.Selection.Select.{select}

abbrev pub gates_path : String
gates_path = ".nopal/gates.jsonc"

-- The equality of JSON values on optional texts, truth values, lists of texts, and runs.
unfoldable pub text_option_eq : Option String → Option String → Bool
text_option_eq none none = true
text_option_eq (some a) (some b) = a == b
text_option_eq _ _ = false

abbrev pub bool_eq : Bool → Bool → Bool
bool_eq true b = b
bool_eq false b = not b

unfoldable pub bool_option_eq : Option Bool → Option Bool → Bool
bool_option_eq none none = true
bool_option_eq (some a) (some b) = bool_eq a b
bool_option_eq _ _ = false

unfoldable pub texts_eq : List String → List String → Bool
texts_eq [] [] = true
texts_eq (a ∷ xs) (b ∷ ys) = a == b && texts_eq xs ys
texts_eq _ _ = false

unfoldable pub run_eq : Run → Run → Bool
run_eq (command a) (command b) = a == b
run_eq (argv a) (argv b) = texts_eq a b
run_eq _ _ = false

-- The object that `gate_semantics` builds; a stage is written as its text.
pub record GateSemantics : Type 0 where
  pub id : String
  pub stage : String
  pub run : Run
  pub cwd : Option String
  pub autofix : Option String
  pub parallel_safe : Option Bool
  pub mutates : Option Bool

unfoldable pub gate_semantics : SelectedGate → GateSemantics
gate_semantics gate = record {
  id = gate.id;
  stage = stage_text gate.stage;
  run = gate.run;
  cwd = gate.cwd;
  autofix = gate.autofix;
  parallel_safe = gate.parallel_safe;
  mutates = gate.mutates;
}

unfoldable pub semantics_eq : GateSemantics → GateSemantics → Bool
semantics_eq a b =
    a.id == b.id
    && a.stage == b.stage
    && run_eq a.run b.run
    && text_option_eq a.cwd b.cwd
    && text_option_eq a.autofix b.autofix
    && bool_option_eq a.parallel_safe b.parallel_safe
    && bool_option_eq a.mutates b.mutates

-- A gate with the source that it comes from.
abbrev pub Sourced : Type 0
Sourced = String × SelectedGate

-- What the loops fill: the gates, and the diagnostics that they push.
pub record Required : Type 0 where
  pub selected : List Sourced
  pub said : List Diagnostic

abbrev pub same_id : String → Sourced → Bool
same_id id existing = existing.1.id == id

abbrev pub is_generated : GatesConfig → SelectedGate → Bool
is_generated config gate = contains (generated_gate_ids config) gate.id

-- What one stage selects in one source.
pub record StageSource : Type 0 where
  pub source : String
  pub config : GatesConfig
  pub selected : List SelectedGate

abbrev pub is_explicit_source : StageSource → Bool
is_explicit_source s = any (λ gate. not (is_generated s.config gate)) s.selected

-- The gates that are not suppressed as generated.
abbrev pub unsuppressed : Bool → StageSource → List SelectedGate
unsuppressed explicit s = keep (λ gate. not (explicit && is_generated s.config gate)) s.selected

module _ (debug : String → String) where
  unfoldable pub conflict : Sourced → Sourced → Diagnostic
  conflict previous gate = error_diagnostic module_parse_error gates_path (
      concat
        ("gate " ∷ debug gate.1.id ∷ " conflicts between " ∷ previous.0 ∷ " and " ∷ gate.0 ∷ []))

  unfoldable pub add_gate : Required → Sourced → Required
  add_gate r gate = elim (find (same_id gate.1.id) r.selected) [
    | some previous ↦
        if semantics_eq (gate_semantics previous.1) (gate_semantics gate.1)
        then r
        else record r { said = r.said ++ conflict previous gate ∷ [] }
    | none ↦ record r { selected = r.selected ++ gate ∷ [] }
  ]

  unfoldable pub add_gates : Required → String → List SelectedGate → Required
  add_gates r source [] = r
  add_gates r source (gate ∷ gates) = add_gates (add_gate r (source, gate)) source gates

  unfoldable pub add_sources : Bool → Required → List StageSource → Required
  add_sources explicit r [] = r
  add_sources explicit r (s ∷ sources) =
      add_sources explicit (add_gates r s.source (unsuppressed explicit s)) sources

  module _ (globset : Globset) (files : List String) (sources : List (String × GatesConfig)) where
    abbrev pub select_source : GateStage → String × GatesConfig → StageSource
    select_source stage s = record {
      source = s.0;
      config = s.1;
      selected = (select globset s.1 stage files).selected;
    }

    unfoldable pub stage_sources : GateStage → List StageSource
    stage_sources stage = map (select_source stage) sources

    unfoldable pub add_stage : Required → GateStage → Required
    add_stage r stage =
        let selections = stage_sources stage in
        add_sources (any is_explicit_source selections) r selections

    unfoldable pub add_stages : Required → List GateStage → Required
    add_stages r [] = r
    add_stages r (stage ∷ stages) = add_stages (add_stage r stage) stages

    unfoldable pub select_required_gates : List GateStage → Required
    select_required_gates stages = add_stages (record { selected = []; said = [] }) stages
