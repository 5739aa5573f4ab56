-- ===== src/PolicyReport/Samples.antt =====
-- The policy commands on a document and on a missing one, and the theorems on them.
use nopal.Prelude.{
  String, true, ◌≡◌, ◌⊎◌, refl, inl, inr, [], ◌∷◌, ◌==◌, contains, if◌then◌else◌, Bool-cases,
  concat,
}
use nopal.Json.Tree.{
  Tree, word, object, no_field, field, tree_str, tree_object, tree_array, tree_entries, field_value,
  field_names, field_list, plain,
}
use nopal.Diagnostics.Codes.{module_parse_error, module_missing}
use nopal.Diagnostics.Report.{
  Diagnostic, new_diagnostic, error_diagnostic, sort_diagnostics, insert_diagnostic,
}
use nopal.Diagnostics.Errors.{is_error}
use nopal.Policy.Vocabulary.{parse_mode}
use nopal.Policy.Doc.{EvalRequest, PolicyDoc}
use nopal.Parse.Rules.{unknown_keys, warn_unknown_keys}
use nopal.Parse.Modes.{
  mode_entries, parse_modes, named_ref, ref_object, ref_entry, ref_entries, parse_env_refs,
  check_policy_version, read_policy, validate_policy,
}
use nopal.PolicyReport.Run.{not_found, done, decide, PolicyReport, load, refused, report, run}
use nopal.PolicyReport.Closed.{FailsClosed, run-FailsClosed}

program : Unit {0}
unfolding tree_str tree_object tree_array tree_entries field_value field_names field_list contains
    sort_diagnostics insert_diagnostic parse_mode unknown_keys warn_unknown_keys mode_entries
    parse_modes named_ref ref_object ref_entry ref_entries parse_env_refs check_policy_version
    read_policy validate_policy load refused report run concat
program = tt

-- A document without modes and references.
abbrev bare : Tree
bare = object (field "version" (word "nopal.policy/v1") (field "modes" (object no_field) no_field))

abbrev bad_text : Diagnostic
bad_text = error_diagnostic module_parse_error ".nopal/policy.jsonc" "unexpected token"

-- A reader that knows one text.
abbrev reader : String → Tree ⊎ Diagnostic
reader text = if text == "{}" then inl bare else inr bad_text

abbrev bare_doc : PolicyDoc
bare_doc = record { modes = []; env = [] }

abbrev push_request : EvalRequest
push_request = record { mode = "ci"; action = "git.push"; classes = "git_remote" ∷ []; env = [] }

abbrev missing_report : PolicyReport
missing_report = refused plain reader decide (
    error_diagnostic module_missing ".nopal/policy.jsonc"
      "policy evaluation requires .nopal/policy.jsonc"
    ∷ [])

run-missing : run plain reader decide push_request not_found ≡ done missing_report
unfolding program
run-missing = refl

reader_reports : (text : String) (d : Diagnostic) → reader text ≡ inr d → is_error d ≡ true
reader_reports text d h = elim (Bool-cases (text == "{}")) [
  | inl e ↦ absurd (cc (rw e at h))
  | inr e ↦
      let same : bad_text ≡ d = cc (rw e at h) in
      rw (← same) (unfold error_diagnostic new_diagnostic in refl)
]

run-FailsClosed_example : FailsClosed plain reader decide missing_report
run-FailsClosed_example =
    run-FailsClosed plain reader reader_reports decide push_request not_found missing_report
      run-missing
