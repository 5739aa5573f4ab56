-- ===== src/Enforcement/Samples.antt =====
-- A small contract, plans on it, and the theorems on enforcement at these inputs.
use nopal.Prelude.{
  ◌≡◌, ◌⊎◌, ◌&&◌, sym, subst, refl, String, true, false, none, some, List, [], ◌∷◌, ◌++◌, map, any,
  all, find, keep, contains, concat,
}
use nopal.Ledger.Names.{is_ascii_alphanumeric}
use nopal.LedgerJson.Value.{
  Bytes, insert_field, chars_lt, chars_eq, field_value, get_value, value_str,
}
use nopal.Diagnostics.Report.{error_diagnostic, new_diagnostic}
use nopal.Policy.Vocabulary.{
  max_decision, max_placement, builtin_default_decision, builtin_default_placement, is_known,
}
use nopal.Policy.Doc.{PolicyDoc}
use nopal.PolicyReport.Run.{done}
use nopal.Gates.{
  GateStage, pre_commit, continuous, stage_eq, stage_text, command, Gate, GatesConfig, get_set,
  generated_gate_ids,
}
use nopal.Selection.Types.{SelectedGate, default}
use nopal.Selection.Samples.{prefixes}
use nopal.Enforcement.Intent.{
  EnforcementRequest, EnforcementIntent, is_whitespace, is_blank, split_slash, is_unconfined,
  named_fields, validate_intent, expected_class, action_classes_valid, required_stages,
}
use nopal.Enforcement.Required.{
  Sourced, text_option_eq, bool_option_eq, texts_eq, run_eq, gate_semantics, semantics_eq, conflict,
  add_gate, add_gates, add_sources, stage_sources, add_stage, add_stages, select_required_gates,
}
use nopal.Enforcement.World.{Hashing, World, join_path, utf8, encode, digest_bytes}
use nopal.Enforcement.Receipts.{
  digits_value, parse_i64, as_i64, decimal, exit_code_text, field_is_text, field_is_true,
  field_is_zero, field_is_signed, approval_relative_path, safe_id, strip_prefix,
  receipt_relative_path, gate_digest, approval_signature, release_signature, receipt_holds,
  approval_holds, receipt_is_current, approval_is_current,
}
use nopal.Enforcement.Plan.{
  EffectiveContract, EnforcementPlan, is_clean, intent_diagnostics, judge_policies, judge,
  decision_winners, placement_winners, pending, selected_gates, fingerprint_of,
  authorization_binding, receipt_status, finish_plan, plan_contract,
}
use nopal.Enforcement.Evidence.{
  tool_outcome_payload, approval_payload, approval_evidence, authorization_release_id,
  release_payload, release_effects, authorization_release_evidence, tool_outcome_evidence,
  attempt_payload, attempt_effects, record_gate, gate_evidence_with, gate_evidence_contract,
}
use nopal.Policy.Evaluate.{
  mode_policy, via_of, match_rules, max_rule_decision, max_rule_placement, base_decision,
  base_placement, raise_decision, raise_placement, action_floor, class_floor, class_floors,
  base_verdict, evaluate,
}
use nopal.Policy.Classes.{
  env_report, env_reports_from, add_class, add_declared, add_from_env, add_report, add_reports,
  position, class_sort_key, key_lt, insert_class, sort_classes, effective,
}
use nopal.Selection.Select.{
  is_explicit_at, selects_explicit_gate, covered_files, explicit_authority_covers_selection,
  decide_gate, decide_pulled, skip_unpulled, suppressed_generated, select,
}
use nopal.Selection.Pull.{
  find_gate, pull_default, pull_gate, pull_gates, pull_set, pull_sets, scan_selector,
  scan_selectors, scan,
}
use nopal.Selection.Globs.{insert_file, sort, dedup, compile, glob_set, matching_files}
use nopal.Enforcement.Complete.{chosen}
use nopal.Enforcement.Same.{IsSame}
use nopal.Enforcement.Asked.{has_own, generates, select_required_gates-covers_stage}
use mathlib.Core.List.{Memᴰ}
use mathlib.Core.List.Memᴰ.{head, tail}
use nopal.Diagnostics.Errors.{is_error}
use nopal.Enforcement.Authorized.{IsDecided, IsClosed, plan_contract-IsDecided}
use nopal.Enforcement.Closed.{has_fault, plan_contract-IsClosed}
use nopal.Enforcement.Strictest.{IsStrict, plan_contract-IsStrict}
use nopal.Enforcement.Signature.{
  to_be_bytes, framed, padded, subject_bytes, difference, constant_time_eq, normalized_key,
  receipt_signature,
}

unfoldable pub program : Unit {0}
unfolding is_ascii_alphanumeric insert_field chars_lt chars_eq field_value get_value value_str
    error_diagnostic new_diagnostic max_decision max_placement builtin_default_decision
    builtin_default_placement is_known stage_eq stage_text get_set generated_gate_ids any all find
    keep contains concat to_be_bytes framed padded subject_bytes difference constant_time_eq
    normalized_key receipt_signature is_whitespace is_blank split_slash is_unconfined named_fields
    validate_intent expected_class action_classes_valid required_stages text_option_eq
    bool_option_eq texts_eq run_eq gate_semantics semantics_eq conflict add_gate add_gates
    add_sources stage_sources add_stage add_stages select_required_gates join_path utf8 encode
    digest_bytes digits_value parse_i64 as_i64 decimal exit_code_text field_is_text field_is_true
    field_is_zero field_is_signed approval_relative_path safe_id strip_prefix receipt_relative_path
    gate_digest approval_signature release_signature receipt_holds approval_holds receipt_is_current
    approval_is_current is_clean intent_diagnostics judge_policies judge decision_winners
    placement_winners pending selected_gates fingerprint_of authorization_binding receipt_status
    finish_plan plan_contract tool_outcome_payload approval_payload approval_evidence
    authorization_release_id release_payload release_effects authorization_release_evidence
    tool_outcome_evidence attempt_payload attempt_effects record_gate gate_evidence_with
    gate_evidence_contract mode_policy via_of match_rules max_rule_decision max_rule_placement
    base_decision base_placement raise_decision raise_placement action_floor class_floor
    class_floors base_verdict evaluate env_report env_reports_from add_class add_declared
    add_from_env add_report add_reports position class_sort_key key_lt insert_class sort_classes
    effective is_explicit_at selects_explicit_gate covered_files explicit_authority_covers_selection
    decide_gate decide_pulled skip_unpulled suppressed_generated select find_gate pull_default
    pull_gate pull_gates pull_set pull_sets scan_selector scan_selectors scan insert_file sort dedup
    compile glob_set matching_files
program = tt

-- Digests that are always the same.
abbrev pub hashing : Hashing
hashing = record {
  sha256 = λ bytes. [];
  lower_hex = λ bytes. "d";
  semantics_json = λ s. [];
  binding_json = λ s. [];
  debug = λ s. s;
}

abbrev pub lint : Gate
lint = record {
  id = "lint";
  stage = pre_commit;
  run = command "make lint";
  cwd = none;
  autofix = none;
  parallel_safe = none;
  mutates = none;
}

abbrev pub config : GatesConfig
config = record {
  scaffold = none;
  preflights = [];
  gates = lint ∷ record lint { id = "docs"; stage = continuous } ∷ [];
  gate_sets = [];
  selectors = [];
}

abbrev pub bare_doc : PolicyDoc
bare_doc = record { modes = []; env = [] }

abbrev pub contract : EffectiveContract
contract = record {
  policies = ("repository policy", bare_doc) ∷ [];
  gate_sources = ("repository gates", config) ∷ ("workflow gates", config) ∷ [];
  isolation = none;
  diagnostics = [];
  contract_digest = "c";
}

abbrev pub key : Bytes
key =
    1 ∷ 2 ∷ 3 ∷ 4 ∷ 5 ∷ 6 ∷ 7 ∷ 8 ∷ 9 ∷ 10 ∷ 11 ∷ 12 ∷ 13 ∷ 14 ∷ 15 ∷ 16 ∷ 17 ∷ 18 ∷ 19 ∷ 20 ∷ 21
    ∷ 22 ∷ 23 ∷ 24 ∷ 25 ∷ 26 ∷ 27 ∷ 28 ∷ 29 ∷ 30 ∷ 31 ∷ 32 ∷ []

abbrev pub request : EnforcementRequest
request = record {
  root = "repo";
  config_dir = none;
  mode = "manual";
  action = "git.commit";
  classes = "git_local" ∷ [];
  run_dir = some "run";
  receipt_key = some key;
}

abbrev pub intent : EnforcementIntent
intent = record {
  kind = "nopal.enforcement.intent/v1";
  launch_id = "l";
  session_id = "s";
  tool_call_id = "t";
  tool_name = "bash";
  input_digest = "i";
  target_digest = "g";
  executor_digest = "e";
  changed_files = "src/a.rs" ∷ [];
  workspace_fingerprint = some "w";
  mutates = true;
}

-- No file can be read.
abbrev pub empty_world : World
empty_world = record {
  read_json = λ path. none;
  read_bytes = λ directory relative. done none;
  workspace_fingerprint = λ root. done "w";
}

abbrev pub plan_on : EffectiveContract → World → EnforcementRequest → EnforcementPlan
plan_on given world r =
    let diagnosed = given.diagnostics ++ intent_diagnostics hashing.debug r intent in
    let j = judge given r (is_clean diagnosed) in
    let required = selected_gates hashing prefixes world given r intent j (is_clean diagnosed) in
    finish_plan hashing prefixes world given r intent j
      (map (λ (g : String × SelectedGate). g.1) required.selected) "w"
      (diagnosed ++ required.said ++ [])

abbrev pub plan_in : World → EnforcementRequest → EnforcementPlan
plan_in = plan_on contract

pub first_plan :
    (world : World) (r : EnforcementRequest)
    → plan_contract hashing prefixes world contract r intent ≡ done (plan_in world r)
unfolding plan_contract fingerprint_of
first_plan world r = refl

gates_required :
    map (λ (g : SelectedGate). g.id) (plan_in empty_world request).required_gates
    ≡ "docs" ∷ "lint" ∷ []
unfolding program
gates_required = refl

plan_contract-IsDecided_example :
    IsDecided hashing prefixes empty_world contract request intent (plan_in empty_world request)
plan_contract-IsDecided_example =
    plan_contract-IsDecided hashing prefixes empty_world contract request intent
      (first_plan empty_world request)

-- The class is not that of the action.
abbrev misdeclared : EnforcementRequest
misdeclared = record request { classes = "read" ∷ [] }

misdeclared-has_fault : has_fault hashing prefixes empty_world contract misdeclared intent ≡ true
unfolding program
misdeclared-has_fault = refl

plan_contract-IsClosed_example : IsClosed (plan_in empty_world misdeclared)
plan_contract-IsClosed_example =
    plan_contract-IsClosed hashing prefixes empty_world contract misdeclared intent
      misdeclared-has_fault (first_plan empty_world misdeclared)

plan_contract-IsStrict_example :
    IsStrict request
      (plan_in empty_world request).decision
      (plan_in empty_world request).placement
      contract.policies
plan_contract-IsStrict_example =
    plan_contract-IsStrict hashing prefixes empty_world contract request intent
      (first_plan empty_world request)

-- The gate as a source selects it.
abbrev lint_required : SelectedGate
lint_required = record {
  id = "lint";
  stage = pre_commit;
  run = command "make lint";
  cwd = none;
  autofix = none;
  parallel_safe = none;
  mutates = none;
  via = default;
}

abbrev stages : List GateStage
stages = continuous ∷ pre_commit ∷ []

lint_selected :
    (select prefixes config pre_commit intent.changed_files).selected ≡ lint_required ∷ []
unfolding program
lint_selected = refl

lint_kept :
    (has_own hashing.debug prefixes intent.changed_files contract.gate_sources pre_commit
      && generates hashing.debug prefixes intent.changed_files contract.gate_sources
          ("workflow gates", config)
          "lint")
    ≡ false
unfolding program
lint_kept = refl

select_required_gates-covers_stage_example :
    (any is_error
        (chosen hashing.debug prefixes intent.changed_files contract.gate_sources stages).said
      ≡ true)
    ⊎ ((p : Sourced) × Memᴰ p
          (chosen hashing.debug prefixes intent.changed_files contract.gate_sources stages).selected
        × IsSame p.1 lint_required)
select_required_gates-covers_stage_example =
    select_required_gates-covers_stage hashing.debug prefixes intent.changed_files
      contract.gate_sources stages {stage = pre_commit} {source = ("workflow gates", config)}
      {gate = lint_required} (tail (head refl)) (tail (head refl))
      (subst (Memᴰ lint_required) (sym lint_selected) (head refl)) lint_kept
