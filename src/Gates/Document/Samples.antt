-- ===== src/Gates/Document/Samples.antt =====
-- A generated gates document with a selector, tests, and the theorems at this input.
use nopal.Prelude.{
  ◌+◌, ◌≤◌, ◌==◌, String, true, ◌&&◌, ◌≡◌, refl, some, [], ◌∷◌, map, any, all, find, contains,
  concat,
}
use nopal.Json.Tree.{
  Tree, word, array, object, no_entry, entry, no_field, field, tree_str, tree_bool, tree_object,
  tree_entries, tree_array, field_value, field_names, field_list, plain,
}
use nopal.Diagnostics.Codes.{Code, duplicate_id, gate_ref_unknown, placeholder_invalid}
use nopal.Diagnostics.Report.{Diagnostic, new_diagnostic, error_diagnostic, warning_diagnostic}
use nopal.Diagnostics.Errors.{errors}
use nopal.Gates.Provenance.{ready, generated, ScaffoldProvenance}
use nopal.Gates.{Gate, parse_stage, parse_preflight_stage, get_set, generated_gate_ids}
use nopal.Gates.Document.Fields.{
  enum_names, collect_strs, required_str, optional_str, optional_bool, required_str_list,
  entry_list,
}
use nopal.Gates.Document.Placeholders.{
  all_placeholder_chars, is_placeholder_name, check_name, scan_placeholders, check_placeholders,
}
use nopal.Gates.Document.Entries.{
  is_blank, check_id, entry_id, check_words, parse_command_run, parse_argv_run, choose_run,
  parse_run, check_preflight_stage, check_gate_stage, preflight_rest, preflight_body, gate_rest,
  gate_body, parse_entries, parse_preflights, parse_gates,
}
use nopal.Gates.Document.Sets.{
  filter_strs, is_declared, check_refs, parse_gate_set, parse_set_entries, parse_gate_sets,
  check_sets, parse_exclude, finish_selector, parse_selector, parse_selector_entries,
  parse_selectors,
}
use nopal.Gates.Document.Scaffold.{
  known_template_id, Read, readable, is_detected, declared_gate_ids, check_version, check_templates,
  check_generated, check_declared, check_ready, check_provenance, read_provenance,
  parse_scaffold_provenance,
}
use nopal.Gates.Document.Validate.{check_kind, validate_document}
use nopal.Gates.Document.Unique.{preflight_id, validate_document_unique}
use nopal.Gates.Document.Closed.{sets_closed, selectors_closed, validate_document_closed}
use nopal.Gates.Document.Detected.{validate_document_detected}
use nopal.Selection.Globs.{insert_file, sort, dedup}
use nopal.Selection.Partition.{count, gate_id}

program : Unit {0}
unfolding tree_str tree_bool tree_object tree_entries tree_array field_value field_names field_list
    new_diagnostic error_diagnostic warning_diagnostic parse_stage parse_preflight_stage get_set
    generated_gate_ids enum_names collect_strs required_str optional_str optional_bool
    required_str_list entry_list all_placeholder_chars is_placeholder_name check_name
    scan_placeholders check_placeholders is_blank check_id entry_id check_words parse_command_run
    parse_argv_run choose_run parse_run check_preflight_stage check_gate_stage preflight_rest
    preflight_body gate_rest gate_body parse_entries parse_preflights parse_gates filter_strs
    is_declared check_refs parse_gate_set parse_set_entries parse_gate_sets check_sets parse_exclude
    finish_selector parse_selector parse_selector_entries parse_selectors known_template_id
    declared_gate_ids check_version check_templates check_generated check_declared check_ready
    check_provenance read_provenance parse_scaffold_provenance check_kind validate_document
    insert_file sort dedup any all find contains concat
program = tt

abbrev gate : String → String → Tree
gate id run =
    object
      (field "id" (word id) (field "stage" (word "pre_pr") (field "command" (word run) no_field)))

abbrev one : String → Tree
one name = array (entry (word name) no_entry)

abbrev provenance : ScaffoldProvenance
provenance = record {
  version = "nopal.gate-scaffold/v1";
  readiness = ready;
  authority = generated;
  templates = record { id = "rust.cargo/v1"; scope = "."; evidence = [] } ∷ [];
  generated_gate_ids = "detected.rust" ∷ [];
  decisions = [];
}

abbrev from_value : Tree → Read
from_value value = readable provenance

abbrev root : Tree
root = object (
    field "version" (word "nopal.gates/v2") (
      field "gates"
        (array (
          entry (gate "detected.rust" "cargo test")
            (entry (gate "lint" "lint {changed_files}") no_entry)))
        (field "gate_sets"
          (object (field "code" (object (field "gates" (one "lint") no_field)) no_field))
          (field "selectors"
            (array (
              entry
                (object (
                  field "name" (word "rust")
                    (field "paths" (one "src/") (field "gate_sets" (one "code") no_field))))
                no_entry))
            (field "scaffold" (object no_field) no_field)))))

-- The same id twice, a set that names no gate, and a brace that is not closed.
abbrev broken : Tree
broken = object (
    field "version" (word "nopal.gates/v1") (
      field "gates" (array (entry (gate "lint" "lint {") (entry (gate "lint" "lint") no_entry))) (
        field "gate_sets"
          (object (field "code" (object (field "gates" (one "test") no_field)) no_field))
          no_field)))

root_clean : errors (validate_document plain from_value "gates.jsonc" root).said ≡ 0
unfolding program
root_clean = refl

root_ids :
    map (λ (g : Gate). g.id) (validate_document plain from_value "gates.jsonc" root).value.gates
    ≡ "detected.rust" ∷ "lint" ∷ []
unfolding program
root_ids = refl

root_scaffold :
    (validate_document plain from_value "gates.jsonc" root).value.scaffold ≡ some provenance
unfolding program
root_scaffold = refl

broken_codes :
    map {B = Code}
      (λ (d : Diagnostic). d.code)
      (validate_document plain from_value "gates.jsonc" broken).said
    ≡ placeholder_invalid ∷ duplicate_id ∷ gate_ref_unknown ∷ []
unfolding program
broken_codes = refl

validate_document_unique_example :
    count preflight_id "lint"
        (validate_document plain from_value "gates.jsonc" broken).value.preflights
      + count gate_id "lint" (validate_document plain from_value "gates.jsonc" broken).value.gates
    ≤ 1
validate_document_unique_example =
    validate_document_unique plain "gates.jsonc" from_value broken "lint"

validate_document_closed_example :
    (sets_closed
        (validate_document plain from_value "gates.jsonc" root).value.gates
        (validate_document plain from_value "gates.jsonc" root).value.gate_sets
      ≡ true)
    × (selectors_closed
          (validate_document plain from_value "gates.jsonc" root).value.gate_sets
          (validate_document plain from_value "gates.jsonc" root).value.selectors
        ≡ true)
validate_document_closed_example =
    validate_document_closed plain "gates.jsonc" from_value root root_clean

validate_document_detected_example :
    contains
      (generated_gate_ids (validate_document plain from_value "gates.jsonc" root).value)
      "lint"
    ≡ (any
          (λ (g : Gate). g.id == "lint")
          (validate_document plain from_value "gates.jsonc" root).value.gates
        && is_detected "lint")
validate_document_detected_example =
    validate_document_detected plain "gates.jsonc" from_value root provenance "lint" root_clean
      root_scaffold
