-- ===== src/PolicyReport/Run.antt =====
-- `load` and `run` of policy.rs. Reading the file is given as its outcome, and `config::parse_jsonc`,
-- which rests on the jsonc_parser crate, is a parameter.
use nopal.Prelude.{
  ◌≡◌, refl, String, Bool, true, false, not, ◌&&◌, ◌==◌, ◌⊎◌, inl, inr, Option, none, some, List,
  [], ◌∷◌, ◌++◌, any, if◌then◌else◌, concat,
}
use nopal.Json.{Json}
use nopal.Diagnostics.Codes.{module_missing, policy_mode_unknown, policy_class_unknown}
use nopal.Diagnostics.Report.{Diagnostic, error_diagnostic, warning_diagnostic, sort_diagnostics}
use nopal.Diagnostics.Errors.{is_error}
use nopal.Policy.Vocabulary.{
  Mode, ActionClass, Decision, decision_text, Placement, placement_text, is_builtin, is_known,
}
use nopal.Policy.Doc.{
  PolicyDoc, Source, rule, mode_default, builtin_default, safety_floor, EvalRequest, EnvRefReport,
  MatchedRule, Evaluation,
}
use nopal.Policy.Evaluate.{evaluate}
use nopal.Parse.Modes.{validate_policy}

-- What reading a file gives.
pub data ReadFile : Type 0 where
  found : String → ReadFile
  not_found : ReadFile
  unreadable : ReadFile

pub data IoResult {ℓ} (A : Type ℓ) : Type ℓ where
  done : A → IoResult A
  io_error : IoResult A

abbrev pub map_result {ℓ κ} : {A : Type ℓ} {B : Type κ} → (A → B) → IoResult A → IoResult B
map_result f (done a) = done (f a)
map_result f io_error = io_error

pub map_result-done :
    {A B : Type 0} (f : A → B) (r : IoResult A) {b : B}
    → map_result f r ≡ done b
    → (a : A) × (r ≡ done a) × (f a ≡ b)
map_result-done f (done a) e = (a, refl, cc)
map_result-done f io_error e = cc

pub record PolicyLoad : Type 0 where
  pub doc : Option PolicyDoc
  pub diagnostics : List Diagnostic

pub data View : Type 0 where
  evaluation placement decide : View

unfoldable pub view_kind : View → String
view_kind evaluation = "nopal.policy_evaluation/v1"
view_kind placement = "nopal.policy_placement/v1"
view_kind decide = "nopal.policy_decision/v1"

unfoldable pub includes_decision : View → Bool
includes_decision placement = false
includes_decision _ = true

unfoldable pub includes_placement : View → Bool
includes_placement evaluation = false
includes_placement _ = true

pub record PolicyReport : Type 0 where
  pub kind : String
  pub ok : Bool
  pub mode : Option Mode
  pub action : Option String
  pub classes : Option (List ActionClass)
  pub env : Option (List EnvRefReport)
  pub decision : Option Decision
  pub decision_source : Option Source
  pub placement : Option Placement
  pub placement_source : Option Source
  pub matched_rules : Option (List MatchedRule)
  pub diagnostics : List Diagnostic
  pub explanation : Option (List String)

-- `discover::module_rel_path(Module::Policy)`
abbrev pub policy_path : String
policy_path = ".nopal/policy.jsonc"

-- `bool::then_some`
abbrev pub then_some {ℓ} : {A : Type ℓ} → Bool → A → Option A
then_some true a = some a
then_some false a = none

unfoldable pub explain : String → String → Source → Mode → String → String
explain what verdict rule mode phrase = concat (what ∷ " " ∷ verdict ∷ ": " ∷ phrase ∷ [])
explain what verdict mode_default mode phrase = concat (
    what ∷ " " ∷ verdict ∷ ": configured default for mode " ∷ mode ∷ " (no matched rule sets a "
    ∷ what ∷ ")" ∷ [])
explain what verdict builtin_default mode phrase = concat (
    what ∷ " " ∷ verdict ∷ ": built-in default for mode " ∷ mode
    ∷ " (no matched rule or configured default)" ∷ [])
explain what verdict safety_floor mode phrase =
    concat (what ∷ " " ∷ verdict ∷ ": protected safety floor" ∷ [])

module _ (json : Json) (parse_jsonc : String → json.Value ⊎ Diagnostic) where
  unfoldable pub load_text : String → PolicyLoad
  load_text text = elim (parse_jsonc text) [
    | inl value ↦
        let parsed = validate_policy json policy_path value in
        record { doc = parsed.value; diagnostics = sort_diagnostics parsed.diags }
    | inr diagnostic ↦ record { doc = none; diagnostics = diagnostic ∷ [] }
  ]

  unfoldable pub load : ReadFile → IoResult PolicyLoad
  load (found text) = done (load_text text)
  load unreadable = io_error
  load not_found = done (record {
    doc = none;
    diagnostics =
        error_diagnostic module_missing policy_path
          (concat ("policy evaluation requires " ∷ policy_path ∷ []))
        ∷ [];
  })

  -- The report without verdicts.
  unfoldable pub refused : View → List Diagnostic → PolicyReport
  refused view diagnostics = record {
    kind = view_kind view;
    ok = false;
    mode = none;
    action = none;
    classes = none;
    env = none;
    decision = none;
    decision_source = none;
    placement = none;
    placement_source = none;
    matched_rules = none;
    diagnostics = diagnostics;
    explanation = none;
  }

  unfoldable pub mode_warning : PolicyDoc → EvalRequest → List Diagnostic
  mode_warning doc req =
      if not (is_builtin req.mode) && not (any (λ m. m.0 == req.mode) doc.modes)
      then warning_diagnostic policy_mode_unknown policy_path (
          concat (
            "unknown mode "
            ∷ json.debug req.mode
            ∷ "; using automation-safe fallback defaults"
            ∷ []))
        ∷ []
      else []

  unfoldable pub class_warnings : List ActionClass → List Diagnostic
  class_warnings [] = []
  class_warnings (class ∷ rest) =
      let later = class_warnings rest in
      if is_known class
      then later
      else warning_diagnostic policy_class_unknown policy_path
          (concat ("unknown class " ∷ json.debug class ∷ "; treating as protected/unsafe" ∷ []))
        ∷ later

  unfoldable pub explanations : View → Evaluation → List String
  explanations view e =
      e.class_notes
      ++ ((if includes_decision view
            then explain "decision" (decision_text e.decision) e.decision_source e.mode
                "most restrictive decision from matched rules"
              ∷ []
            else [])
          ++ (if includes_placement view
              then explain "placement" (placement_text e.placement) e.placement_source e.mode
                  "strongest placement from matched rules"
                ∷ []
              else []))

  unfoldable pub evaluated : View → EvalRequest → PolicyDoc → List Diagnostic → PolicyReport
  evaluated view req doc diagnostics =
      let e = evaluate doc req in
      record {
        kind = view_kind view;
        ok = true;
        mode = some e.mode;
        action = some e.action;
        classes = some e.classes;
        env = some e.env;
        decision = then_some (includes_decision view) e.decision;
        decision_source = then_some (includes_decision view) e.decision_source;
        placement = then_some (includes_placement view) e.placement;
        placement_source = then_some (includes_placement view) e.placement_source;
        matched_rules = some e.matched_rules;
        diagnostics =
            sort_diagnostics (diagnostics ++ (mode_warning doc req ++ class_warnings req.classes));
        explanation = some (explanations view e);
      }

  unfoldable pub report : View → EvalRequest → PolicyLoad → PolicyReport
  report view req loaded = elim loaded.doc [
    | some doc ↦
        if any is_error loaded.diagnostics
        then refused view loaded.diagnostics
        else evaluated view req doc loaded.diagnostics
    | none ↦ refused view loaded.diagnostics
  ]

  unfoldable pub run : View → EvalRequest → ReadFile → IoResult PolicyReport
  run view req file = map_result (report view req) (load file)
