-- ===== src/Diagnostics/Distinct.antt =====
-- The text of a code names that code alone.
use nopal.Prelude.{String, ◌≡◌, refl, sym, ap, ◌∙◌, Option, none, some, ◌==◌, find}
use nopal.Diagnostics.Codes.{
  Code, code_text, all_codes, manifest_missing, manifest_parse_error, version_unsupported,
  profile_unknown, module_missing, module_parse_error, duplicate_id, stage_unknown, command_missing,
  command_conflict, command_invalid, placeholder_invalid, placeholder_unknown, gate_ref_unknown,
  gate_set_unknown, field_invalid, product_surface_removed, workflow_event_unknown,
  workflow_action_type_unknown, integration_provider_invalid, guidance_authority_invalid,
  policy_shape_invalid, policy_mode_unknown, policy_rule_invalid, policy_rule_duplicate_id,
  policy_decision_invalid, policy_placement_invalid, policy_class_unknown, policy_env_invalid,
  policy_key_unknown, run_id_invalid, run_id_collision, run_not_found, run_ambiguous,
  ledger_status_invalid, ledger_entry_invalid, ledger_transition_invalid, ledger_limit_exceeded,
  process_artifact_missing, process_artifact_parse_error, process_artifact_drift,
  process_artifact_redacted, beislid_import_parse_error, beislid_import_unsupported,
  beislid_import_overwrite_blocked, beislid_import_missing, beislid_import_check_parse_error,
  beislid_import_drift, bundle_missing, bundle_parse_error, bundle_resource_missing,
  bundle_ambient_kind_unknown, distribution_lock_missing, distribution_lock_parse_error,
  distribution_lock_drift, distribution_package_invalid, distribution_package_missing,
  distribution_source_unsupported, distribution_integrity_mismatch, distribution_boundary_failure,
  scaffold_incomplete, scaffold_legacy_detected, scaffold_defaults, scaffold_template_invalid,
  gate_scaffold_evidence_invalid, gate_scaffold_ambiguous, gate_configuration_required,
  gate_workspace_invalid, gate_scaffold_drift,
}

-- The first code with the text.
abbrev pub code_of : String → Option Code
code_of text = find (λ c. code_text c == text) all_codes

code_of-code_text : (c : Code) → code_of (code_text c) ≡ some c
unfolding find code_text
code_of-code_text manifest_missing = refl
code_of-code_text manifest_parse_error = refl
code_of-code_text version_unsupported = refl
code_of-code_text profile_unknown = refl
code_of-code_text module_missing = refl
code_of-code_text module_parse_error = refl
code_of-code_text duplicate_id = refl
code_of-code_text stage_unknown = refl
code_of-code_text command_missing = refl
code_of-code_text command_conflict = refl
code_of-code_text command_invalid = refl
code_of-code_text placeholder_invalid = refl
code_of-code_text placeholder_unknown = refl
code_of-code_text gate_ref_unknown = refl
code_of-code_text gate_set_unknown = refl
code_of-code_text field_invalid = refl
code_of-code_text product_surface_removed = refl
code_of-code_text workflow_event_unknown = refl
code_of-code_text workflow_action_type_unknown = refl
code_of-code_text integration_provider_invalid = refl
code_of-code_text guidance_authority_invalid = refl
code_of-code_text policy_shape_invalid = refl
code_of-code_text policy_mode_unknown = refl
code_of-code_text policy_rule_invalid = refl
code_of-code_text policy_rule_duplicate_id = refl
code_of-code_text policy_decision_invalid = refl
code_of-code_text policy_placement_invalid = refl
code_of-code_text policy_class_unknown = refl
code_of-code_text policy_env_invalid = refl
code_of-code_text policy_key_unknown = refl
code_of-code_text run_id_invalid = refl
code_of-code_text run_id_collision = refl
code_of-code_text run_not_found = refl
code_of-code_text run_ambiguous = refl
code_of-code_text ledger_status_invalid = refl
code_of-code_text ledger_entry_invalid = refl
code_of-code_text ledger_transition_invalid = refl
code_of-code_text ledger_limit_exceeded = refl
code_of-code_text process_artifact_missing = refl
code_of-code_text process_artifact_parse_error = refl
code_of-code_text process_artifact_drift = refl
code_of-code_text process_artifact_redacted = refl
code_of-code_text beislid_import_parse_error = refl
code_of-code_text beislid_import_unsupported = refl
code_of-code_text beislid_import_overwrite_blocked = refl
code_of-code_text beislid_import_missing = refl
code_of-code_text beislid_import_check_parse_error = refl
code_of-code_text beislid_import_drift = refl
code_of-code_text bundle_missing = refl
code_of-code_text bundle_parse_error = refl
code_of-code_text bundle_resource_missing = refl
code_of-code_text bundle_ambient_kind_unknown = refl
code_of-code_text distribution_lock_missing = refl
code_of-code_text distribution_lock_parse_error = refl
code_of-code_text distribution_lock_drift = refl
code_of-code_text distribution_package_invalid = refl
code_of-code_text distribution_package_missing = refl
code_of-code_text distribution_source_unsupported = refl
code_of-code_text distribution_integrity_mismatch = refl
code_of-code_text distribution_boundary_failure = refl
code_of-code_text scaffold_incomplete = refl
code_of-code_text scaffold_legacy_detected = refl
code_of-code_text scaffold_defaults = refl
code_of-code_text scaffold_template_invalid = refl
code_of-code_text gate_scaffold_evidence_invalid = refl
code_of-code_text gate_scaffold_ambiguous = refl
code_of-code_text gate_configuration_required = refl
code_of-code_text gate_workspace_invalid = refl
code_of-code_text gate_scaffold_drift = refl

unwrap : Code → Option Code → Code
unwrap c none = c
unwrap c (some d) = d

-- No two codes share a text, so that a consumer who matches on the text matches on the code.
pub code_text-injective : (c d : Code) → code_text c ≡ code_text d → c ≡ d
unfolding unwrap
code_text-injective c d h =
    ap (unwrap c) (sym (code_of-code_text c) ∙ ap code_of h ∙ code_of-code_text d)
