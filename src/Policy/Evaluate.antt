-- ===== src/Policy/Evaluate.antt =====
-- The rules and the verdicts of `evaluate` of policy.rs.
use nopal.Prelude.{
  String, not, Option, none, some, List, [], ◌∷◌, ◌++◌, ◌==◌, if◌then◌else◌, contains, find, concat,
}
use nopal.Policy.Vocabulary.{
  Mode, ActionClass, is_known, Decision, deny, Placement, dedicated_run_runtime, blocked,
  decision_lt, placement_lt, max_decision, max_placement, builtin_default_decision,
  builtin_default_placement,
}
use nopal.Policy.Doc.{
  Rule, ModePolicy, PolicyDoc, Source, rule, mode_default, builtin_default, safety_floor,
  EvalRequest, MatchedRule, Evaluation,
}
use nopal.Policy.Classes.{env_reports_from, effective}

unfoldable pub mode_policy : PolicyDoc → Mode → Option ModePolicy
mode_policy doc mode = elim (find (λ (m : Mode × ModePolicy). m.0 == mode) doc.modes) [
  | some m ↦ some m.1
  | none ↦ none
]

abbrev pub rules_of : Option ModePolicy → List Rule
rules_of none = []
rules_of (some p) = p.rules

-- What a rule matches by: the action first, then the first of its classes that is effective.
unfoldable pub via_of : String → List ActionClass → Rule → Option String
via_of action classes r =
    if contains r.actions action
    then some (concat ("action " ∷ action ∷ []))
    else elim (find (contains classes) r.classes) [
      | some c ↦ some (concat ("class " ∷ c ∷ []))
      | none ↦ none
    ]

unfoldable pub match_rules : String → List ActionClass → List Rule → List MatchedRule
match_rules action classes [] = []
match_rules action classes (r ∷ rest) =
    let matched = match_rules action classes rest in
    elim (via_of action classes r) [
      | some via ↦
          record {
            id = r.id;
            via = via;
            decision = r.decision;
            placement = r.placement;
            reason = r.reason;
          }
          ∷ matched
      | none ↦ matched
    ]

-- `filter_map(|r| r.decision).max()`, and the same for placements: a rule that decides nothing is
-- passed over.
abbrev pub later_decision : Option Decision → Option Decision → Option Decision
later_decision none later = later
later_decision (some d) none = some d
later_decision (some d) (some e) = some (max_decision d e)

unfoldable pub max_rule_decision : List MatchedRule → Option Decision
max_rule_decision [] = none
max_rule_decision (r ∷ rest) = later_decision r.decision (max_rule_decision rest)

abbrev pub later_placement : Option Placement → Option Placement → Option Placement
later_placement none later = later
later_placement (some d) none = some d
later_placement (some d) (some e) = some (max_placement d e)

unfoldable pub max_rule_placement : List MatchedRule → Option Placement
max_rule_placement [] = none
max_rule_placement (r ∷ rest) = later_placement r.placement (max_rule_placement rest)

abbrev pub configured_decision : Option ModePolicy → Option Decision
configured_decision none = none
configured_decision (some p) = p.default_decision

abbrev pub configured_placement : Option ModePolicy → Option Placement
configured_placement none = none
configured_placement (some p) = p.default_placement

-- The strictest matched rule, else the mode's default, else the built-in default.
abbrev pub first_set {ℓ} : {A : Type ℓ} → Option A → Option A → A → A × Source
first_set (some a) configured builtin = (a, rule)
first_set none (some a) builtin = (a, mode_default)
first_set none none builtin = (builtin, builtin_default)

unfoldable pub base_decision : List MatchedRule → Option ModePolicy → Mode → Decision × Source
base_decision matched policy mode =
    first_set (max_rule_decision matched) (configured_decision policy)
      (builtin_default_decision mode)

unfoldable pub base_placement : List MatchedRule → Option ModePolicy → Mode → Placement × Source
base_placement matched policy mode =
    first_set (max_rule_placement matched) (configured_placement policy)
      (builtin_default_placement mode)

-- The variables that the safety floors change.
pub record Verdict : Type 0 where
  pub decision : Decision
  pub decision_source : Source
  pub placement : Placement
  pub placement_source : Source
  pub notes : List String

unfoldable pub raise_decision : Decision → Verdict → Verdict
raise_decision floor v = record v {
  decision_source = if decision_lt v.decision floor then safety_floor else v.decision_source;
  decision = max_decision v.decision floor;
}

unfoldable pub raise_placement : Placement → Verdict → Verdict
raise_placement floor v = record v {
  placement_source = if placement_lt v.placement floor then safety_floor else v.placement_source;
  placement = max_placement v.placement floor;
}

abbrev pub note : String → Verdict → Verdict
note text v = record v { notes = v.notes ++ text ∷ [] }

-- The block for `git.push_force`: both sources change, whatever the verdict was.
unfoldable pub action_floor : String → Verdict → Verdict
action_floor action v =
    if action == "git.push_force"
    then record {
      decision_source = safety_floor;
      placement_source = safety_floor;
      decision = max_decision v.decision deny;
      placement = max_placement v.placement blocked;
      notes =
          v.notes
          ++ "action git.push_force: safety floor keeps decision deny and placement blocked" ∷ [];
    }
    else v

-- The body of the loop over the effective classes.
unfoldable pub class_floor : ActionClass → Verdict → Verdict
class_floor class v =
    if class == "destructive"
    then note "class destructive: safety floor keeps decision deny and placement blocked"
        (raise_placement blocked (raise_decision deny v))
    else if class == "secret_bearing"
    then note "class secret_bearing: safety floor keeps placement at least dedicated_run_runtime"
        (raise_placement dedicated_run_runtime v)
    else if not (is_known class)
    then note
        (concat ("class " ∷ class ∷ ": unknown safety vocabulary treated as protected/unsafe" ∷ []))
        (raise_placement dedicated_run_runtime (raise_decision deny v))
    else v

unfoldable pub class_floors : List ActionClass → Verdict → Verdict
class_floors [] v = v
class_floors (class ∷ rest) v = class_floors rest (class_floor class v)

-- The verdict before the floors.
unfoldable pub base_verdict : PolicyDoc → EvalRequest → Verdict
base_verdict doc req =
    let c = effective doc req in
    let policy = mode_policy doc req.mode in
    let matched = match_rules req.action c.classes (rules_of policy) in
    let d = base_decision matched policy req.mode in
    let p = base_placement matched policy req.mode in
    record {
      decision = d.0;
      decision_source = d.1;
      placement = p.0;
      placement_source = p.1;
      notes = c.notes;
    }

unfoldable pub evaluate : PolicyDoc → EvalRequest → Evaluation
evaluate doc req =
    let c = effective doc req in
    let v = class_floors c.classes (action_floor req.action (base_verdict doc req)) in
    record {
      mode = req.mode;
      action = req.action;
      classes = c.classes;
      env = env_reports_from doc.env [] req.env;
      matched_rules = match_rules req.action c.classes (rules_of (mode_policy doc req.mode));
      decision = v.decision;
      decision_source = v.decision_source;
      placement = v.placement;
      placement_source = v.placement_source;
      class_notes = v.notes;
    }
