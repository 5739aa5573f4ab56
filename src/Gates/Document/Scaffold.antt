-- ===== src/Gates/Document/Scaffold.antt =====
-- The provenance of a generated gates document (`parse_scaffold_provenance` of gates.rs). A set of
-- ids is the list of its elements, in the order of the set where it is iterated.
use text.Mathlib.Text.{starts_with}
use nopal.Prelude.{
  ◌==◌, not, ◌&&◌, String, Bool, true, false, Option, none, some, List, [], ◌∷◌, ◌++◌, map, any,
  if◌then◌else◌, is_empty, is_some, is_some_and, contains, concat,
}
use nopal.Json.{Json, get_field}
use nopal.Diagnostics.Codes.{
  field_invalid, version_unsupported, scaffold_template_invalid, duplicate_id, gate_ref_unknown,
  gate_configuration_required,
}
use nopal.Diagnostics.Report.{Diagnostic, error_diagnostic}
use nopal.Diagnostics.Said.{Said, say, quiet}
use nopal.Gates.Provenance.{
  Readiness, ready, Authority, generated, TemplateSelection, ScaffoldProvenance,
}
use nopal.Gates.{Gate}
use nopal.Selection.Globs.{sort, dedup}

abbrev pub template_ids : List String
template_ids =
    "baseline.git/v1" ∷ "task.make/v1" ∷ "task.just/v1" ∷ "task.taskfile/v1" ∷ "task.mise/v1"
    ∷ "javascript.npm/v1" ∷ "javascript.pnpm/v1" ∷ "javascript.yarn/v1" ∷ "javascript.bun/v1"
    ∷ "rust.cargo/v1" ∷ "python.pytest/v1" ∷ "python.ruff/v1" ∷ "python.mypy/v1" ∷ "go.test/v1"
    ∷ "elixir.mix/v1" ∷ "ruby.rspec/v1" ∷ "java.maven/v1" ∷ "java.gradle/v1" ∷ "dotnet.test/v1"
    ∷ "swift.spm/v1" ∷ "php.composer/v1" ∷ "cpp.cmake/v1" ∷ "cpp.meson/v1" ∷ []

unfoldable pub known_template_id : String → Bool
known_template_id id = contains template_ids id

-- What `serde_json::from_value` makes of a value: a provenance, or the text of an error.
pub data Read : Type 0 where
  readable : ScaffoldProvenance → Read
  unreadable : String → Read

abbrev pub is_generated_authority : Authority → Bool
is_generated_authority generated = true
is_generated_authority _ = false

abbrev pub is_ready : Readiness → Bool
is_ready ready = true
is_ready _ = false

abbrev pub is_detected : String → Bool
is_detected id = starts_with id "detected."

-- `BTreeSet` of the ids of the gates
unfoldable pub declared_gate_ids : List Gate → List String
declared_gate_ids gates = dedup (sort (map (λ (gate : Gate). gate.id) gates))

abbrev pub when : Bool → Diagnostic → List Diagnostic
when test d = if test then d ∷ [] else []

module _ (json : Json) (path : String) where
  unfoldable pub check_version : ScaffoldProvenance → List Diagnostic
  check_version provenance =
      when (not (provenance.version == "nopal.gate-scaffold/v1")) (
        error_diagnostic version_unsupported path (
          concat (
            "unsupported scaffold provenance version "
            ∷ json.debug provenance.version
            ∷ "; expected "
            ∷ json.debug "nopal.gate-scaffold/v1"
            ∷ [])))
      ++ when (is_empty provenance.templates) (
          error_diagnostic field_invalid path
            "scaffold provenance must identify at least the baseline template")
      ++ when (not (is_generated_authority provenance.authority)) (
          error_diagnostic field_invalid path
            "nopal.gates/v2 provenance authority must be \"generated\"; add explicit gates as ordinary gate entries")

  unfoldable pub check_templates : List TemplateSelection → List Diagnostic
  check_templates [] = []
  check_templates (template ∷ rest) =
      when (not (known_template_id template.id)) (
        error_diagnostic scaffold_template_invalid path
          (concat ("unknown generated gate template " ∷ json.debug template.id ∷ [])))
      ++ check_templates rest

  -- The loop over the generated ids; `seen` holds those before this one.
  unfoldable pub check_generated : List String → List String → List String → List Diagnostic
  check_generated declared seen [] = []
  check_generated declared seen (id ∷ rest) =
      when (contains seen id) (
        error_diagnostic duplicate_id path (
          concat ("duplicate generated gate id " ∷ json.debug id ∷ " in scaffold provenance" ∷ [])))
      ++ (when (not (is_detected id)) (
            error_diagnostic field_invalid path (
              concat (
                "generated gate id "
                ∷ json.debug id
                ∷ " must use the reserved detected.* namespace"
                ∷ [])))
          ++ (when (not (contains declared id)) (
                error_diagnostic gate_ref_unknown path (
                  concat (
                    "scaffold provenance references missing generated gate " ∷ json.debug id ∷ [])))
              ++ check_generated declared (id ∷ seen) rest))

  unfoldable pub check_declared : List String → List String → List Diagnostic
  check_declared generated_ids [] = []
  check_declared generated_ids (id ∷ rest) =
      when (is_detected id && not (contains generated_ids id)) (
        error_diagnostic field_invalid path (
          concat (
            "generated gate "
            ∷ json.debug id
            ∷ " is missing from scaffold.generated_gate_ids"
            ∷ [])))
      ++ check_declared generated_ids rest

  unfoldable pub check_ready : ScaffoldProvenance → List String → List Diagnostic
  check_ready provenance declared =
      when
        (is_ready provenance.readiness
          && not (
              any (λ (t : TemplateSelection). not (t.id == "baseline.git/v1")) provenance.templates)
          && not (any (λ id. not (contains provenance.generated_gate_ids id)) declared))
        (error_diagnostic gate_configuration_required path
          "generated readiness cannot be \"ready\" with only the baseline diff template")

  unfoldable pub check_provenance : List String → ScaffoldProvenance → List Diagnostic
  check_provenance declared provenance =
      check_version provenance
      ++ (check_templates provenance.templates
          ++ (check_generated declared [] provenance.generated_gate_ids
              ++ (check_declared provenance.generated_gate_ids declared
                  ++ check_ready provenance declared)))

  unfoldable pub read_provenance : List Gate → Read → Said (Option ScaffoldProvenance)
  read_provenance gates (unreadable error) = say none (
      error_diagnostic field_invalid path (concat ("invalid scaffold provenance: " ∷ error ∷ []))
      ∷ [])
  read_provenance gates (readable provenance) =
      say (some provenance) (check_provenance (declared_gate_ids gates) provenance)

  -- `serde_json::from_value` is the parameter.
  unfoldable pub parse_scaffold_provenance :
      (json.Value → Read)
      → json.Value
      → Option String
      → List Gate
      → Said (Option ScaffoldProvenance)
  parse_scaffold_provenance from_value root version gates =
      if is_some_and version (λ v. v == "nopal.gates/v1")
      then say none (
          when (is_some (get_field json root "scaffold")) (
            error_diagnostic field_invalid path
              "nopal.gates/v1 cannot carry scaffold readiness metadata; use nopal.gates/v2"))
      else if not (is_some_and version (λ v. v == "nopal.gates/v2"))
      then quiet none
      else elim (get_field json root "scaffold") [
        | none ↦ say none (
            error_diagnostic field_invalid path
              "nopal.gates/v2 requires an object field \"scaffold\""
            ∷ [])
        | some value ↦ read_provenance gates (from_value value)
      ]
