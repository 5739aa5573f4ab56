-- ===== src/Enforcement/EvidenceSamples.antt =====
-- Evidence on the small contract, and the theorems on enforcement at it.
use nopal.Prelude.{
  ◌≡◌, refl, arith, true, false, ◌↔◌, none, some, [], ◌∷◌, ◌==◌, if◌then◌else◌, any, ltb, length,
}
use nopal.Policy.Vocabulary.{ask}
use nopal.Gates.{pre_commit, command}
use nopal.Selection.Types.{SelectedGate, default}
use nopal.Selection.Samples.{prefixes}
use nopal.Enforcement.Intent.{EnforcementRequest}
use nopal.Enforcement.World.{World}
use nopal.Enforcement.Receipts.{release_signature, approval_is_current}
use nopal.Enforcement.Plan.{EnforcementPlan, decision_eq}
use nopal.Enforcement.Evidence.{
  EvidenceDirective, GateExecutionContext, recorded, success, write_json, append_event,
  approval_payload, approval_evidence, release_payload, release_effects,
  authorization_release_evidence, tool_outcome_evidence, attempt_payload, attempt_effects,
  gate_evidence_contract,
}
use nopal.Enforcement.Outcomes.{is_recorded, tool_outcome_evidence_exactly, release_uses_approval}
use nopal.Enforcement.Frames.{IsSignable, subject_bytes_injective}
use nopal.Enforcement.Constant.{capability_matches_eq}
use nopal.Enforcement.Added.{has_id}
use nopal.Enforcement.Applied.{IsApplied}
use nopal.Enforcement.Gated.{gate_evidence_settles}
use nopal.Enforcement.Approved.{approval_evidence_current}
use nopal.Enforcement.Signature.{ReceiptSignatureSubject, capability_matches, receipt_signature}
use nopal.Enforcement.Samples.{
  program, hashing, contract, key, request, intent, empty_world, plan_on, plan_in, first_plan,
}

abbrev lint_gate : SelectedGate
lint_gate = record {
  id = "lint";
  stage = pre_commit;
  run = command "make lint";
  cwd = none;
  autofix = none;
  parallel_safe = none;
  mutates = none;
  via = default;
}

-- What a passing run of the gate signs, and a store with its receipt.
abbrev lint_subject : ReceiptSignatureSubject
lint_subject = record {
  action = "git.commit";
  contract_digest = "c";
  workspace_fingerprint = "w";
  authorization_binding = "d";
  gate_id = "lint";
  gate_definition_digest = "d";
  exit_code = 0;
}

abbrev receipt_world : World
receipt_world = record empty_world {
  read_json = λ path.
      if path == "run/artifacts/enforcement/receipts/lint/d.json"
      then some (attempt_payload hashing lint_subject (receipt_signature hashing key lint_subject))
      else none;
}

abbrev lint_context : GateExecutionContext
lint_context = record {
  contract_digest = "c";
  workspace_fingerprint = "w";
  gate_definition_digest = "d";
  authorization_binding = "d";
}

lint_recorded :
    gate_evidence_contract hashing prefixes receipt_world contract request intent "lint" 0
      lint_context
    ≡ recorded (attempt_effects hashing key lint_subject)
unfolding program
lint_recorded = refl

lint-IsApplied : IsApplied receipt_world "run" (attempt_effects hashing key lint_subject)
unfolding program
lint-IsApplied = (tt, (refl, (tt, tt)))

gate_evidence_settles_example :
    any (has_id "lint") (plan_in receipt_world request).required_gates ≡ false
gate_evidence_settles_example =
    gate_evidence_settles hashing prefixes receipt_world contract request intent "lint" lint_context
      refl lint_recorded lint-IsApplied (first_plan receipt_world request)

-- In this mode the policy asks.
abbrev ask_request : EnforcementRequest
ask_request = record request { mode = "supervised_auto" }

abbrev asked_plan : World → EnforcementPlan
asked_plan world = plan_in world ask_request

abbrev approval_world : World
approval_world = record empty_world {
  read_json = λ path.
      if path == "run/artifacts/enforcement/approvals/d.json"
      then some (approval_payload hashing (asked_plan empty_world) true "ann" "d")
      else none;
}

abbrev approval_directive : EvidenceDirective
approval_directive =
    write_json "artifacts/enforcement/approvals/d.json"
      (approval_payload hashing (asked_plan empty_world) true "ann" "d")
    ∷ append_event "action_approval"
        (approval_payload hashing (asked_plan empty_world) true "ann" "d")
    ∷ []

approval_recorded :
    approval_evidence hashing
      (plan_on contract empty_world (record ask_request { run_dir = none }))
      true
      "ann"
      key
    ≡ recorded approval_directive
unfolding program
approval_recorded = refl

approval-IsApplied : IsApplied approval_world "run" approval_directive
unfolding program
approval-IsApplied = (refl, (tt, tt))

approval_evidence_current_example :
    (decision_eq (asked_plan approval_world).decision ask ≡ true)
    × ((asked_plan approval_world).authorization_binding
        ≡ (plan_on contract empty_world
            (record ask_request { run_dir = none })).authorization_binding)
    × ((asked_plan approval_world).approval_current ≡ true)
approval_evidence_current_example =
    approval_evidence_current hashing prefixes contract intent empty_world approval_world none
      ask_request refl true "ann" refl refl
      (first_plan empty_world (record ask_request { run_dir = none })) approval_recorded
      approval-IsApplied (first_plan approval_world ask_request)

-- An approved plan without gates, and the store after its release.
abbrev approved_plan : EnforcementPlan
approved_plan = plan_on (record contract { gate_sources = [] }) approval_world ask_request

abbrev released_world : World
released_world = record empty_world {
  read_json = λ path.
      if path == "run/artifacts/enforcement/releases/d.json"
      then some (release_payload hashing approved_plan "d")
      else none;
}

approved_asks : decision_eq approved_plan.decision ask ≡ true
unfolding program
approved_asks = refl

approved_releases :
    authorization_release_evidence hashing approved_plan key
    ≡ recorded (release_effects hashing approved_plan "d")
unfolding program
approved_releases = refl

release-IsApplied : IsApplied released_world "run" (release_effects hashing approved_plan "d")
unfolding program
release-IsApplied = (refl, (refl, (tt, tt)))

release_uses_approval_example :
    (approved_plan.authorized ≡ true)
    × (approval_is_current hashing released_world "run" approved_plan.action
          approved_plan.authorization_binding key
        ≡ false)
release_uses_approval_example =
    release_uses_approval hashing key released_world "run" approved_plan approved_asks
      approved_releases release-IsApplied

tool_outcome_evidence_exactly_example :
    (is_recorded (tool_outcome_evidence hashing "git.commit" "d" "t" "d" success key) ≡ true)
    ↔ ((ltb (length key) 32 ≡ false) × (release_signature hashing key "git.commit" "d" "t" ≡ "d"))
tool_outcome_evidence_exactly_example =
    tool_outcome_evidence_exactly hashing key "git.commit" "d" "t" "d" success

lint-IsSignable : IsSignable lint_subject
unfolding program
lint-IsSignable =
    (omega arith, omega arith, omega arith, omega arith, omega arith, omega arith, omega arith)

subject_bytes_injective_example : lint_subject ≡ lint_subject
subject_bytes_injective_example =
    subject_bytes_injective lint_subject lint_subject lint-IsSignable lint-IsSignable refl

capability_matches_eq_example : (capability_matches key (0 ∷ []) ≡ true) ↔ (key ≡ (0 ∷ []))
capability_matches_eq_example = capability_matches_eq key (0 ∷ [])
