-- ===== src/Enforcement/Plan.antt =====
-- `plan_for_intent` of enforcement.rs, from the loaded contract on.
use nopal.Prelude.{
  ℕ, String, Bool, true, false, not, ◌==◌, ◌&&◌, ◌||◌, Option, none, some, List, [], ◌∷◌, ◌++◌, map,
  if◌then◌else◌, is_empty, is_some_and, eqb, all, keep, concat,
}
use nopal.Diagnostics.Codes.{module_parse_error, field_invalid}
use nopal.Diagnostics.Report.{Diagnostic, error_diagnostic}
use nopal.Diagnostics.Errors.{is_error}
use nopal.Diagnostics.Said.{Said, say, quiet}
use nopal.Policy.Vocabulary.{
  Decision, allow, ask, deny, decision_rank, Placement, shared_user_runtime, blocked,
  placement_rank, max_decision, max_placement,
}
use nopal.Policy.Doc.{PolicyDoc, Source, safety_floor, EvalRequest, MatchedRule, Evaluation}
use nopal.Policy.Evaluate.{evaluate}
use nopal.Parse.Lists.{join}
use nopal.PolicyReport.Run.{IoResult, done, map_result}
use nopal.Gates.{stage_text, GatesConfig}
use nopal.Selection.Globs.{Globset, sort, dedup}
use nopal.Selection.Types.{SelectedGate}
use nopal.Enforcement.Intent.{
  EnforcementRequest, EnforcementIntent, validate_intent, action_classes_valid, required_stages,
}
use nopal.Enforcement.Isolation.{AgentIsolation}
use nopal.Enforcement.Required.{Required, select_required_gates}
use nopal.Enforcement.World.{Hashing, World, digest_bytes}
use nopal.Enforcement.Receipts.{gate_digest, receipt_is_current, approval_is_current}

pub record EffectiveContract : Type 0 where
  pub policies : List (String × PolicyDoc)
  pub gate_sources : List (String × GatesConfig)
  pub isolation : Option AgentIsolation
  pub diagnostics : List Diagnostic
  pub contract_digest : String

pub record DecisionSource : Type 0 where
  pub source : String
  pub decision : Decision
  pub decision_source : Source
  pub placement : Placement
  pub placement_source : Source
  pub matched_rules : List MatchedRule
  pub explanation : List String

pub record ReceiptStatus : Type 0 where
  pub gate_id : String
  pub current : Bool
  pub gate_definition_digest : String

pub record EnforcementPlan : Type 0 where
  pub kind : String
  pub ok : Bool
  pub root : String
  pub action : String
  pub decision : Decision
  pub decision_winners : List String
  pub placement : Placement
  pub placement_winners : List String
  pub decisions : List DecisionSource
  pub required_stages : List String
  pub required_gates : List SelectedGate
  pub receipts : List ReceiptStatus
  pub contract_digest : String
  pub workspace_fingerprint : String
  pub authorization_binding : String
  pub approval_current : Bool
  pub authorized : Bool
  pub intent : EnforcementIntent
  pub diagnostics : List Diagnostic

abbrev pub plan_kind : String
plan_kind = "nopal.enforcement.plan/v2"

-- The derived equalities.
abbrev pub decision_eq : Decision → Decision → Bool
decision_eq a b = eqb (decision_rank a) (decision_rank b)

abbrev pub placement_eq : Placement → Placement → Bool
placement_eq a b = eqb (placement_rank a) (placement_rank b)

abbrev pub is_floor : Source → Bool
is_floor safety_floor = true
is_floor _ = false

-- No diagnostic is an error.
unfoldable pub is_clean : List Diagnostic → Bool
is_clean diagnostics = all (λ d. not (is_error d)) diagnostics

unfoldable pub intent_diagnostics :
    (String → String) → EnforcementRequest → EnforcementIntent → List Diagnostic
intent_diagnostics debug request intent =
    (elim (validate_intent debug intent) [
      | some message ↦ error_diagnostic module_parse_error "enforcement.intent" message ∷ []
      | none ↦ []
    ])
    ++ (if action_classes_valid request.action request.classes
        then []
        else error_diagnostic field_invalid "enforcement.intent" (
            concat (
              "action "
              ∷ debug request.action
              ∷ " does not match the adapter-declared classes ["
              ∷ join request.classes
              ∷ "]"
              ∷ []))
          ∷ [])

-- One policy's verdict on the action.
abbrev pub policy_request : EnforcementRequest → EvalRequest
policy_request request = record {
  mode = request.mode;
  action = request.action;
  classes = request.classes;
  env = [];
}

abbrev pub decision_of : String → Evaluation → DecisionSource
decision_of source e = record {
  source = source;
  decision = e.decision;
  decision_source = e.decision_source;
  placement = e.placement;
  placement_source = e.placement_source;
  matched_rules = e.matched_rules;
  explanation = e.class_notes;
}

-- The three variables of the loop over the policies.
pub record Judged : Type 0 where
  pub decision : Decision
  pub placement : Placement
  pub decisions : List DecisionSource

unfoldable pub judge_policies : EvalRequest → Judged → List (String × PolicyDoc) → Judged
judge_policies request j [] = j
judge_policies request j (p ∷ policies) =
    let e = evaluate p.1 request in
    judge_policies request
      (record {
        decision = max_decision j.decision e.decision;
        placement = max_placement j.placement e.placement;
        decisions = j.decisions ++ decision_of p.0 e ∷ [];
      })
      policies

abbrev pub isolate : Option AgentIsolation → Placement → Placement
isolate none placement = placement
isolate (some isolation) placement = max_placement placement shared_user_runtime

unfoldable pub judge : EffectiveContract → EnforcementRequest → Bool → Judged
judge contract request contract_ok =
    let j =
      if contract_ok
      then judge_policies (policy_request request)
          (record { decision = allow; placement = shared_user_runtime; decisions = [] })
          contract.policies
      else record { decision = deny; placement = blocked; decisions = [] } in
    record j { placement = isolate contract.isolation j.placement }

abbrev pub winner_name : Source → String → String
winner_name by source = if is_floor by then "built-in safety floor" else source

unfoldable pub decision_winners : Judged → List String
decision_winners j = dedup (
    sort (
      map (λ (s : DecisionSource). winner_name s.decision_source s.source)
        (keep (λ (s : DecisionSource). decision_eq s.decision j.decision) j.decisions)))

unfoldable pub placement_winners : Judged → List String
placement_winners j = dedup (
    sort (
      map (λ (s : DecisionSource). winner_name s.placement_source s.source)
        (keep (λ (s : DecisionSource). placement_eq s.placement j.placement) j.decisions)))

-- The gates whose receipt is not current: `zip` and `filter_map`.
unfoldable pub pending : List SelectedGate → List ReceiptStatus → List SelectedGate
pending (gate ∷ gates) (receipt ∷ receipts) =
    let rest = pending gates receipts in if receipt.current then rest else gate ∷ rest
pending _ _ = []

module _ (hashing : Hashing) (globset : Globset) (world : World) where
  unfoldable pub selected_gates :
      EffectiveContract → EnforcementRequest → EnforcementIntent → Judged → Bool → Required
  selected_gates contract request intent j contract_ok =
      if decision_eq j.decision deny || not contract_ok
      then record { selected = []; said = [] }
      else select_required_gates hashing.debug globset intent.changed_files contract.gate_sources
          (required_stages request.action request.classes)

  unfoldable pub fingerprint_of : EnforcementRequest → EnforcementIntent → IoResult (Said String)
  fingerprint_of request intent = elim intent.workspace_fingerprint [
    | some fingerprint ↦ done (
        if fingerprint == ""
        then say "" (
            error_diagnostic field_invalid "enforcement.intent"
              "workspace_fingerprint must not be empty when supplied"
            ∷ [])
        else quiet fingerprint)
    | none ↦ map_result quiet (world.workspace_fingerprint request.root)
  ]

  unfoldable pub authorization_binding :
      EnforcementRequest → EnforcementIntent → Judged → String → String → List SelectedGate → String
  authorization_binding request intent j contract_digest fingerprint gates = digest_bytes hashing (
      hashing.binding_json (record {
        action = request.action;
        classes = request.classes;
        mode = request.mode;
        intent = intent;
        decision = j.decision;
        placement = j.placement;
        contract_digest = contract_digest;
        workspace_fingerprint = fingerprint;
        gates = map (gate_digest hashing) gates;
      }))

  -- A test that needs the run directory and the key.
  abbrev pub with_run : EnforcementRequest → (String → List ℕ → Bool) → Bool
  with_run request test =
      is_some_and request.run_dir (λ dir. is_some_and request.receipt_key (λ key. test dir key))

  unfoldable pub receipt_status :
      EnforcementRequest → String → String → String → SelectedGate → ReceiptStatus
  receipt_status request contract_digest fingerprint binding gate = record {
    gate_id = gate.id;
    current = with_run request (λ dir key.
        receipt_is_current hashing world dir request.action gate contract_digest fingerprint binding
          key);
    gate_definition_digest = gate_digest hashing gate;
  }

  -- The plan, once the gates are selected and the workspace has its fingerprint.
  unfoldable pub finish_plan :
      EffectiveContract
      → EnforcementRequest
      → EnforcementIntent
      → Judged
      → List SelectedGate
      → String
      → List Diagnostic
      → EnforcementPlan
  finish_plan contract request intent j gates fingerprint diagnostics =
      let binding =
        authorization_binding request intent j contract.contract_digest fingerprint gates in
      let receipts =
        map (receipt_status request contract.contract_digest fingerprint binding) gates in
      let required = pending gates receipts in
      let approved =
        decision_eq j.decision ask
        && with_run request
            (λ dir key. approval_is_current hashing world dir request.action binding key) in
      let ok = is_clean diagnostics in
      record {
        kind = plan_kind;
        ok = ok;
        root = request.root;
        action = request.action;
        decision = if ok then j.decision else deny;
        decision_winners = decision_winners j;
        placement = if ok then j.placement else blocked;
        placement_winners = placement_winners j;
        decisions = j.decisions;
        required_stages = map stage_text (required_stages request.action request.classes);
        required_gates = if ok then required else [];
        receipts = receipts;
        contract_digest = contract.contract_digest;
        workspace_fingerprint = fingerprint;
        authorization_binding = binding;
        approval_current = approved;
        authorized =
            ok
            && not (placement_eq j.placement blocked)
            && is_empty required
            && (decision_eq j.decision allow || approved);
        intent = intent;
        diagnostics = diagnostics;
      }

  unfoldable pub plan_contract :
      EffectiveContract → EnforcementRequest → EnforcementIntent → IoResult EnforcementPlan
  plan_contract contract request intent =
      let diagnosed = contract.diagnostics ++ intent_diagnostics hashing.debug request intent in
      let contract_ok = is_clean diagnosed in
      let j = judge contract request contract_ok in
      let required = selected_gates contract request intent j contract_ok in
      map_result
        (λ (fingerprint : Said String).
          finish_plan contract request intent j
            (map (λ (g : String × SelectedGate). g.1) required.selected) fingerprint.value
            (diagnosed ++ required.said ++ fingerprint.said))
        (fingerprint_of request intent)
