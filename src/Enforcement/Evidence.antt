-- ===== src/Enforcement/Evidence.antt =====
-- The evidence of enforcement.rs: gate attempts and receipts, approvals, releases and outcomes, as
-- the effects that the adapter is to apply.
use nopal.Prelude.{
  ℕ, String, Bool, true, false, not, ◌==◌, ◌&&◌, ◌||◌, Option, none, some, List, [], ◌∷◌, ◌++◌, eqb,
  ltb, if◌then◌else◌, find, length, concat, any,
}
use nopal.Ledger.Names.{codes}
use nopal.LedgerJson.Value.{Bytes, Value, bool, number, string, object}
use nopal.Policy.Vocabulary.{ask}
use nopal.PolicyReport.Run.{done, io_error}
use nopal.Selection.Globs.{Globset}
use nopal.Selection.Types.{SelectedGate}
use nopal.Enforcement.Intent.{EnforcementRequest, EnforcementIntent, intent_kind}
use nopal.Enforcement.World.{Hashing, World, as_bytes, digest_bytes}
use nopal.Enforcement.Signature.{ReceiptSignatureSubject, receipt_signature, constant_time_eq}
use nopal.Enforcement.Receipts.{
  json_object, exit_code_text, enforcement_path, approval_relative_path, receipt_relative_path,
  gate_digest, approval_signature, release_signature,
}
use nopal.Enforcement.Plan.{EffectiveContract, EnforcementPlan, decision_eq, plan_contract}

pub data EvidenceEffect : Type 0 where
  append_event : String → Value → EvidenceEffect
  write_json : String → Value → EvidenceEffect
  create_json : String → Value → EvidenceEffect
  remove_file : String → Bool → EvidenceEffect

-- The result of a function that returns `io::Result`: a value, an error with this message, or an
-- error of reading.
pub data Recorded {ℓ} (A : Type ℓ) : Type ℓ where
  recorded : A → Recorded A
  refused : String → Recorded A
  unreadable : Recorded A

abbrev pub EvidenceDirective : Type 0
EvidenceDirective = List EvidenceEffect

pub record GateExecutionContext : Type 0 where
  pub contract_digest : String
  pub workspace_fingerprint : String
  pub gate_definition_digest : String
  pub authorization_binding : String

abbrev pub text : String → Value
text s = string (codes s)

abbrev pub is_write_class : String → Bool
is_write_class class = not (class == "read") && not (class == "network_read")

-- `classes.join(",")`
unfoldable pub join_comma : List String → String
join_comma [] = ""
join_comma (c ∷ []) = c
join_comma (c ∷ d ∷ rest) = concat (c ∷ "," ∷ join_comma (d ∷ rest) ∷ [])

pub data ToolOutcome : Type 0 where
  success error cancelled interrupted : ToolOutcome

unfoldable pub parse_outcome : String → Option ToolOutcome
parse_outcome value =
    if value == "success"
    then some success
    else if value == "error"
    then some error
    else if value == "cancelled"
    then some cancelled
    else if value == "interrupted"
    then some interrupted
    else none

unfoldable pub tool_outcome_text : ToolOutcome → String
tool_outcome_text success = "success"
tool_outcome_text error = "error"
tool_outcome_text cancelled = "cancelled"
tool_outcome_text interrupted = "interrupted"

unfoldable pub tool_outcome_payload : String → String → String → String → ToolOutcome → Value
tool_outcome_payload action binding tool_call_id release_id outcome = object (
    json_object (
      ("action", text action)
      ∷ ("authorization_binding", text binding)
      ∷ ("tool_call_id", text tool_call_id)
      ∷ ("release_id", text release_id)
      ∷ ("outcome", text (tool_outcome_text outcome))
      ∷ []))

module _ (hashing : Hashing) where
  unfoldable pub legacy_intent : EnforcementRequest → EnforcementIntent
  legacy_intent request = record {
    kind = intent_kind;
    launch_id = "legacy";
    session_id = "legacy";
    tool_call_id = concat ("legacy:" ∷ request.action ∷ []);
    tool_name = "legacy";
    input_digest =
        digest_bytes hashing
          (as_bytes (concat (request.action ∷ ":" ∷ join_comma request.classes ∷ [])));
    target_digest = digest_bytes hashing (as_bytes request.root);
    executor_digest = "legacy-executor";
    changed_files = [];
    workspace_fingerprint = none;
    mutates = any is_write_class request.classes;
  }

  unfoldable pub approval_payload : EnforcementPlan → Bool → String → String → Value
  approval_payload plan approved by signature = object (
      json_object (
        ("action", text plan.action)
        ∷ ("approved", bool approved)
        ∷ ("authorization_binding", text plan.authorization_binding)
        ∷ ("by", text by)
        ∷ ("signature", text signature)
        ∷ []))

  -- `by` is the name after `redact_text`.
  unfoldable pub approval_evidence :
      EnforcementPlan → Bool → String → Bytes → Recorded EvidenceDirective
  approval_evidence plan approved by key =
      if not plan.ok || not (decision_eq plan.decision ask)
      then refused "human approval can resolve only a current policy ask"
      else if ltb (length key) 32
      then refused "recording approval requires the active adapter receipt capability"
      else let signature =
          approval_signature hashing key plan.action plan.authorization_binding approved in
        let payload = approval_payload plan approved by signature in
        let path = approval_relative_path plan.authorization_binding in
        recorded (
          (if approved then write_json path payload else remove_file path true)
          ∷ append_event "action_approval" payload
          ∷ [])

  unfoldable pub authorization_release_id : EnforcementPlan → Bytes → Recorded String
  authorization_release_id plan key =
      if not plan.authorized
      then refused
          "authorization is not current: policy, approval, gates, or placement still blocks"
      else if ltb (length key) 32
      then refused "authorization release requires the active adapter receipt capability"
      else recorded (
          release_signature hashing key plan.action plan.authorization_binding
            plan.intent.tool_call_id)

  unfoldable pub release_payload : EnforcementPlan → String → Value
  release_payload plan release_id = object (
      json_object (
        ("action", text plan.action)
        ∷ ("authorization_binding", text plan.authorization_binding)
        ∷ ("tool_call_id", text plan.intent.tool_call_id)
        ∷ ("release_id", text release_id)
        ∷ []))

  unfoldable pub release_effects : EnforcementPlan → String → EvidenceDirective
  release_effects plan release_id =
      create_json (enforcement_path "releases" release_id) (release_payload plan release_id)
      ∷ ((if decision_eq plan.decision ask
            then remove_file (approval_relative_path plan.authorization_binding) false ∷ []
            else [])
          ++ append_event "authorization_release" (release_payload plan release_id) ∷ [])

  unfoldable pub authorization_release_evidence :
      EnforcementPlan → Bytes → Recorded EvidenceDirective
  authorization_release_evidence plan key = elim (authorization_release_id plan key) [
    | recorded release_id ↦ recorded (release_effects plan release_id)
    | refused message ↦ refused message
    | unreadable ↦ unreadable
  ]

  unfoldable pub tool_outcome_evidence :
      String → String → String → String → ToolOutcome → Bytes → Recorded EvidenceDirective
  tool_outcome_evidence action binding tool_call_id release_id outcome key =
      let expected = release_signature hashing key action binding tool_call_id in
      if ltb (length key) 32
      then refused "tool outcome requires the active adapter receipt capability"
      else if not (constant_time_eq (as_bytes expected) (as_bytes release_id))
      then refused "tool outcome does not match the exact authorization release"
      else let payload = tool_outcome_payload action binding tool_call_id release_id outcome in
        recorded (
          create_json (enforcement_path "outcomes" release_id) payload
          ∷ append_event "tool_outcome" payload
          ∷ [])

  -- What a gate attempt signs.
  abbrev pub attempt_subject : EnforcementPlan → SelectedGate → String → ℕ → ReceiptSignatureSubject
  attempt_subject plan gate gate_id exit_code = record {
    action = plan.action;
    contract_digest = plan.contract_digest;
    workspace_fingerprint = plan.workspace_fingerprint;
    authorization_binding = plan.authorization_binding;
    gate_id = gate_id;
    gate_definition_digest = gate_digest hashing gate;
    exit_code = exit_code;
  }

  unfoldable pub attempt_payload : ReceiptSignatureSubject → String → Value
  attempt_payload s signature = object (
      json_object (
        ("action", text s.action)
        ∷ ("contract_digest", text s.contract_digest)
        ∷ ("exit_code", number (exit_code_text s.exit_code))
        ∷ ("gate_id", text s.gate_id)
        ∷ ("gate_definition_digest", text s.gate_definition_digest)
        ∷ ("workspace_fingerprint", text s.workspace_fingerprint)
        ∷ ("authorization_binding", text s.authorization_binding)
        ∷ ("signature", text signature)
        ∷ []))

  unfoldable pub attempt_effects : Bytes → ReceiptSignatureSubject → EvidenceDirective
  attempt_effects key s =
      let payload = attempt_payload s (receipt_signature hashing key s) in
      let path = receipt_relative_path hashing s.gate_id s.authorization_binding in
      append_event "gate_attempt" payload
      ∷ (if eqb s.exit_code 0
          then create_json path payload
            ∷ append_event "gate_receipt" (
                object (
                  json_object (
                    ("gate_id", text s.gate_id) ∷ ("path", text path) ∷ ("receipt", payload) ∷ [])))
            ∷ []
          else [])

  -- The checks of an attempt against a plan that was made without the run directory.
  unfoldable pub record_gate :
      EnforcementPlan → String → ℕ → GateExecutionContext → Bytes → Recorded EvidenceDirective
  record_gate plan gate_id exit_code expected key =
      if not plan.ok
      then refused "cannot record a gate for an invalid enforcement contract"
      else elim (find (λ (gate : SelectedGate). gate.id == gate_id) plan.required_gates) [
        | none ↦
            refused
              (concat ("gate " ∷ hashing.debug gate_id ∷ " is not required for this action" ∷ []))
        | some gate ↦
            if not (plan.contract_digest == expected.contract_digest)
              || not (plan.workspace_fingerprint == expected.workspace_fingerprint)
              || not (plan.authorization_binding == expected.authorization_binding)
              || not (gate_digest hashing gate == expected.gate_definition_digest)
            then refused
                "the enforcement contract, workspace, or gate definition changed during execution"
            else recorded (attempt_effects key (attempt_subject plan gate gate_id exit_code))
      ]

  module _ (globset : Globset) (world : World) where
    unfoldable pub gate_evidence_with :
        EffectiveContract
        → EnforcementRequest
        → EnforcementIntent
        → String
        → ℕ
        → GateExecutionContext
        → Bytes
        → Recorded EvidenceDirective
    gate_evidence_with contract request intent gate_id exit_code expected key =
        elim (plan_contract hashing globset world contract (record request { run_dir = none })
          intent) [
            | done plan ↦ record_gate plan gate_id exit_code expected key
            | io_error ↦ unreadable
          ]

    unfoldable pub gate_evidence_contract :
        EffectiveContract
        → EnforcementRequest
        → EnforcementIntent
        → String
        → ℕ
        → GateExecutionContext
        → Recorded EvidenceDirective
    gate_evidence_contract contract request intent gate_id exit_code expected =
        elim request.receipt_key [
          | none ↦ refused "recording a gate requires the active adapter receipt capability"
          | some key ↦
              let made =
                gate_evidence_with contract request intent gate_id exit_code expected key in
              if ltb (length key) 32
              then refused "the adapter receipt capability must contain at least 256 bits"
              else made
        ]
