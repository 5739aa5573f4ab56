-- ===== src/Enforcement/Executors.antt =====
-- `gate_executor_requirements` of enforcement.rs: every gate that a protected action may select.
use nopal.Prelude.{
  String, Bool, true, false, Option, none, some, List, [], ◌∷◌, ◌++◌, map, if◌then◌else◌, find,
  keep, concat,
}
use nopal.Json.{Json}
use nopal.Gates.{GateStage, continuous, per_edit, pre_commit, pre_pr, Gate, GatesConfig}
use nopal.Selection.Types.{SelectedGate, default}
use nopal.Selection.Select.{select_gate}
use nopal.Enforcement.Required.{gate_semantics, semantics_eq, Sourced, same_id}
use nopal.Enforcement.World.{Hashing, World}
use nopal.Enforcement.Plan.{EffectiveContract, is_clean}
use nopal.Enforcement.Evidence.{Recorded, recorded, refused, unreadable}
use nopal.Enforcement.Contract.{Readers, load_contract}

-- The stages that an active protected action may select.
abbrev pub is_active : GateStage → Bool
is_active continuous = true
is_active per_edit = true
is_active pre_commit = true
is_active pre_pr = true
is_active _ = false

module _ (debug : String → String) where
  unfoldable pub add_candidate : List Sourced → Sourced → Recorded (List Sourced)
  add_candidate selected gate = elim (find (same_id gate.1.id) selected) [
    | some previous ↦
        if semantics_eq (gate_semantics previous.1) (gate_semantics gate.1)
        then recorded selected
        else refused (
            concat (
              "gate "
              ∷ debug gate.1.id
              ∷ " conflicts between "
              ∷ previous.0
              ∷ " and "
              ∷ gate.0
              ∷ []))
    | none ↦ recorded (selected ++ gate ∷ [])
  ]

  -- The operator `?`: the first conflict ends the loops.
  abbrev pub and_continue :
      Recorded (List Sourced) → (List Sourced → Recorded (List Sourced)) → Recorded (List Sourced)
  and_continue (recorded selected) next = next selected
  and_continue (refused message) next = refused message
  and_continue unreadable next = unreadable

  unfoldable pub add_candidates : String → List Gate → List Sourced → Recorded (List Sourced)
  add_candidates source [] selected = recorded selected
  add_candidates source (gate ∷ gates) selected =
      and_continue (add_candidate selected (source, select_gate gate default))
        (λ more. add_candidates source gates more)

  unfoldable pub add_configs : List (String × GatesConfig) → List Sourced → Recorded (List Sourced)
  add_configs [] selected = recorded selected
  add_configs (s ∷ sources) selected =
      and_continue (add_candidates s.0 (keep (λ (g : Gate). is_active g.stage) s.1.gates) selected)
        (λ more. add_configs sources more)

abbrev pub gates_of : Recorded (List Sourced) → Recorded (List SelectedGate)
gates_of (recorded selected) = recorded (map (λ (g : Sourced). g.1) selected)
gates_of (refused message) = refused message
gates_of unreadable = unreadable

unfoldable pub executor_requirements :
    (String → String) → EffectiveContract → Recorded (List SelectedGate)
executor_requirements debug contract =
    if is_clean contract.diagnostics
    then gates_of (add_configs debug contract.gate_sources [])
    else refused "cannot prepare gate executors for an invalid enforcement contract"

unfoldable pub gate_executor_requirements :
    (json : Json)
    → Readers json
    → Hashing
    → World
    → String
    → Option String
    → Recorded (List SelectedGate)
gate_executor_requirements json readers hashing world root config_dir =
    executor_requirements hashing.debug (load_contract json readers hashing world root config_dir)
