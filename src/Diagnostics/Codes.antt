-- ===== src/Diagnostics/Codes.antt =====
-- The codes of crates/nopal-core/src/diagnostics.rs, in the order of their declaration.
use nopal.Prelude.{ℕ, String, List, [], ◌∷◌}

pub data Code : Type 0 where
  manifest_missing manifest_parse_error version_unsupported profile_unknown module_missing
        module_parse_error duplicate_id stage_unknown command_missing command_conflict
        command_invalid placeholder_invalid placeholder_unknown gate_ref_unknown gate_set_unknown
        field_invalid product_surface_removed workflow_event_unknown workflow_action_type_unknown
        integration_provider_invalid guidance_authority_invalid policy_shape_invalid
        policy_mode_unknown policy_rule_invalid policy_rule_duplicate_id policy_decision_invalid
        policy_placement_invalid policy_class_unknown policy_env_invalid policy_key_unknown
        run_id_invalid run_id_collision run_not_found run_ambiguous ledger_status_invalid
        ledger_entry_invalid ledger_transition_invalid ledger_limit_exceeded
        process_artifact_missing process_artifact_parse_error process_artifact_drift
        process_artifact_redacted beislid_import_parse_error beislid_import_unsupported
        beislid_import_overwrite_blocked beislid_import_missing beislid_import_check_parse_error
        beislid_import_drift bundle_missing bundle_parse_error bundle_resource_missing
        bundle_ambient_kind_unknown distribution_lock_missing distribution_lock_parse_error
        distribution_lock_drift distribution_package_invalid distribution_package_missing
        distribution_source_unsupported distribution_integrity_mismatch
        distribution_boundary_failure scaffold_incomplete scaffold_legacy_detected scaffold_defaults
        scaffold_template_invalid gate_scaffold_evidence_invalid gate_scaffold_ambiguous
        gate_configuration_required gate_workspace_invalid gate_scaffold_drift :
      Code

unfoldable pub code_text : Code → String
code_text manifest_missing = "manifest_missing"
code_text manifest_parse_error = "manifest_parse_error"
code_text version_unsupported = "version_unsupported"
code_text profile_unknown = "profile_unknown"
code_text module_missing = "module_missing"
code_text module_parse_error = "module_parse_error"
code_text duplicate_id = "duplicate_id"
code_text stage_unknown = "stage_unknown"
code_text command_missing = "command_missing"
code_text command_conflict = "command_conflict"
code_text command_invalid = "command_invalid"
code_text placeholder_invalid = "placeholder_invalid"
code_text placeholder_unknown = "placeholder_unknown"
code_text gate_ref_unknown = "gate_ref_unknown"
code_text gate_set_unknown = "gate_set_unknown"
code_text field_invalid = "field_invalid"
code_text product_surface_removed = "product_surface_removed"
code_text workflow_event_unknown = "workflow_event_unknown"
code_text workflow_action_type_unknown = "workflow_action_type_unknown"
code_text integration_provider_invalid = "integration_provider_invalid"
code_text guidance_authority_invalid = "guidance_authority_invalid"
code_text policy_shape_invalid = "policy_shape_invalid"
code_text policy_mode_unknown = "policy_mode_unknown"
code_text policy_rule_invalid = "policy_rule_invalid"
code_text policy_rule_duplicate_id = "policy_rule_duplicate_id"
code_text policy_decision_invalid = "policy_decision_invalid"
code_text policy_placement_invalid = "policy_placement_invalid"
code_text policy_class_unknown = "policy_class_unknown"
code_text policy_env_invalid = "policy_env_invalid"
code_text policy_key_unknown = "policy_key_unknown"
code_text run_id_invalid = "run_id_invalid"
code_text run_id_collision = "run_id_collision"
code_text run_not_found = "run_not_found"
code_text run_ambiguous = "run_ambiguous"
code_text ledger_status_invalid = "ledger_status_invalid"
code_text ledger_entry_invalid = "ledger_entry_invalid"
code_text ledger_transition_invalid = "ledger_transition_invalid"
code_text ledger_limit_exceeded = "ledger_limit_exceeded"
code_text process_artifact_missing = "process_artifact_missing"
code_text process_artifact_parse_error = "process_artifact_parse_error"
code_text process_artifact_drift = "process_artifact_drift"
code_text process_artifact_redacted = "process_artifact_redacted"
code_text beislid_import_parse_error = "beislid_import_parse_error"
code_text beislid_import_unsupported = "beislid_import_unsupported"
code_text beislid_import_overwrite_blocked = "beislid_import_overwrite_blocked"
code_text beislid_import_missing = "beislid_import_missing"
code_text beislid_import_check_parse_error = "beislid_import_check_parse_error"
code_text beislid_import_drift = "beislid_import_drift"
code_text bundle_missing = "bundle_missing"
code_text bundle_parse_error = "bundle_parse_error"
code_text bundle_resource_missing = "bundle_resource_missing"
code_text bundle_ambient_kind_unknown = "bundle_ambient_kind_unknown"
code_text distribution_lock_missing = "distribution_lock_missing"
code_text distribution_lock_parse_error = "distribution_lock_parse_error"
code_text distribution_lock_drift = "distribution_lock_drift"
code_text distribution_package_invalid = "distribution_package_invalid"
code_text distribution_package_missing = "distribution_package_missing"
code_text distribution_source_unsupported = "distribution_source_unsupported"
code_text distribution_integrity_mismatch = "distribution_integrity_mismatch"
code_text distribution_boundary_failure = "distribution_boundary_failure"
code_text scaffold_incomplete = "scaffold_incomplete"
code_text scaffold_legacy_detected = "scaffold_legacy_detected"
code_text scaffold_defaults = "scaffold_defaults"
code_text scaffold_template_invalid = "scaffold_template_invalid"
code_text gate_scaffold_evidence_invalid = "gate_scaffold_evidence_invalid"
code_text gate_scaffold_ambiguous = "gate_scaffold_ambiguous"
code_text gate_configuration_required = "gate_configuration_required"
code_text gate_workspace_invalid = "gate_workspace_invalid"
code_text gate_scaffold_drift = "gate_scaffold_drift"

-- The derived order is that of the declaration.
unfoldable pub code_rank : Code → ℕ
code_rank manifest_missing = 0
code_rank manifest_parse_error = 1
code_rank version_unsupported = 2
code_rank profile_unknown = 3
code_rank module_missing = 4
code_rank module_parse_error = 5
code_rank duplicate_id = 6
code_rank stage_unknown = 7
code_rank command_missing = 8
code_rank command_conflict = 9
code_rank command_invalid = 10
code_rank placeholder_invalid = 11
code_rank placeholder_unknown = 12
code_rank gate_ref_unknown = 13
code_rank gate_set_unknown = 14
code_rank field_invalid = 15
code_rank product_surface_removed = 16
code_rank workflow_event_unknown = 17
code_rank workflow_action_type_unknown = 18
code_rank integration_provider_invalid = 19
code_rank guidance_authority_invalid = 20
code_rank policy_shape_invalid = 21
code_rank policy_mode_unknown = 22
code_rank policy_rule_invalid = 23
code_rank policy_rule_duplicate_id = 24
code_rank policy_decision_invalid = 25
code_rank policy_placement_invalid = 26
code_rank policy_class_unknown = 27
code_rank policy_env_invalid = 28
code_rank policy_key_unknown = 29
code_rank run_id_invalid = 30
code_rank run_id_collision = 31
code_rank run_not_found = 32
code_rank run_ambiguous = 33
code_rank ledger_status_invalid = 34
code_rank ledger_entry_invalid = 35
code_rank ledger_transition_invalid = 36
code_rank ledger_limit_exceeded = 37
code_rank process_artifact_missing = 38
code_rank process_artifact_parse_error = 39
code_rank process_artifact_drift = 40
code_rank process_artifact_redacted = 41
code_rank beislid_import_parse_error = 42
code_rank beislid_import_unsupported = 43
code_rank beislid_import_overwrite_blocked = 44
code_rank beislid_import_missing = 45
code_rank beislid_import_check_parse_error = 46
code_rank beislid_import_drift = 47
code_rank bundle_missing = 48
code_rank bundle_parse_error = 49
code_rank bundle_resource_missing = 50
code_rank bundle_ambient_kind_unknown = 51
code_rank distribution_lock_missing = 52
code_rank distribution_lock_parse_error = 53
code_rank distribution_lock_drift = 54
code_rank distribution_package_invalid = 55
code_rank distribution_package_missing = 56
code_rank distribution_source_unsupported = 57
code_rank distribution_integrity_mismatch = 58
code_rank distribution_boundary_failure = 59
code_rank scaffold_incomplete = 60
code_rank scaffold_legacy_detected = 61
code_rank scaffold_defaults = 62
code_rank scaffold_template_invalid = 63
code_rank gate_scaffold_evidence_invalid = 64
code_rank gate_scaffold_ambiguous = 65
code_rank gate_configuration_required = 66
code_rank gate_workspace_invalid = 67
code_rank gate_scaffold_drift = 68

abbrev pub all_codes : List Code
all_codes =
    manifest_missing ∷ manifest_parse_error ∷ version_unsupported ∷ profile_unknown ∷ module_missing
    ∷ module_parse_error ∷ duplicate_id ∷ stage_unknown ∷ command_missing ∷ command_conflict
    ∷ command_invalid ∷ placeholder_invalid ∷ placeholder_unknown ∷ gate_ref_unknown
    ∷ gate_set_unknown ∷ field_invalid ∷ product_surface_removed ∷ workflow_event_unknown
    ∷ workflow_action_type_unknown ∷ integration_provider_invalid ∷ guidance_authority_invalid
    ∷ policy_shape_invalid ∷ policy_mode_unknown ∷ policy_rule_invalid ∷ policy_rule_duplicate_id
    ∷ policy_decision_invalid ∷ policy_placement_invalid ∷ policy_class_unknown ∷ policy_env_invalid
    ∷ policy_key_unknown ∷ run_id_invalid ∷ run_id_collision ∷ run_not_found ∷ run_ambiguous
    ∷ ledger_status_invalid ∷ ledger_entry_invalid ∷ ledger_transition_invalid
    ∷ ledger_limit_exceeded ∷ process_artifact_missing ∷ process_artifact_parse_error
    ∷ process_artifact_drift ∷ process_artifact_redacted ∷ beislid_import_parse_error
    ∷ beislid_import_unsupported ∷ beislid_import_overwrite_blocked ∷ beislid_import_missing
    ∷ beislid_import_check_parse_error ∷ beislid_import_drift ∷ bundle_missing ∷ bundle_parse_error
    ∷ bundle_resource_missing ∷ bundle_ambient_kind_unknown ∷ distribution_lock_missing
    ∷ distribution_lock_parse_error ∷ distribution_lock_drift ∷ distribution_package_invalid
    ∷ distribution_package_missing ∷ distribution_source_unsupported
    ∷ distribution_integrity_mismatch ∷ distribution_boundary_failure ∷ scaffold_incomplete
    ∷ scaffold_legacy_detected ∷ scaffold_defaults ∷ scaffold_template_invalid
    ∷ gate_scaffold_evidence_invalid ∷ gate_scaffold_ambiguous ∷ gate_configuration_required
    ∷ gate_workspace_invalid ∷ gate_scaffold_drift ∷ []
