-- ===== src/Gates/Document/Validate.antt =====
-- `validate_document` of gates.rs.
use nopal.Prelude.{
  ◌==◌, ◌||◌, String, Option, none, some, List, [], ◌∷◌, ◌++◌, if◌then◌else◌, concat,
}
use nopal.Json.{Json, and_then, get_field}
use nopal.Diagnostics.Codes.{version_unsupported}
use nopal.Diagnostics.Report.{Diagnostic, error_diagnostic}
use nopal.Diagnostics.Said.{Said, say}
use nopal.Gates.{GatesConfig}
use nopal.Gates.Document.Fields.{entry_list}
use nopal.Gates.Document.Entries.{parse_preflights, parse_gates}
use nopal.Gates.Document.Sets.{parse_gate_sets, parse_selectors}
use nopal.Gates.Document.Scaffold.{Read, parse_scaffold_provenance}

module _ (json : Json) (from_value : json.Value → Read) (path : String) where
  unfoldable pub check_kind : Option String → List Diagnostic
  check_kind none =
      error_diagnostic version_unsupported path (
        concat (
          "missing string field \"version\"; expected "
          ∷ json.debug "nopal.gates/v1"
          ∷ " or "
          ∷ json.debug "nopal.gates/v2"
          ∷ []))
      ∷ []
  check_kind (some kind) =
      if kind == "nopal.gates/v1" || kind == "nopal.gates/v2"
      then []
      else error_diagnostic version_unsupported path (
          concat (
            "unsupported gates version "
            ∷ json.debug kind
            ∷ "; expected "
            ∷ json.debug "nopal.gates/v1"
            ∷ " or "
            ∷ json.debug "nopal.gates/v2"
            ∷ []))
        ∷ []

  unfoldable pub validate_document : json.Value → Said GatesConfig
  validate_document root =
      let version = and_then (get_field json root "version") json.as_str in
      let preflight_entries = entry_list json path root "preflights" in
      let preflights = parse_preflights json path [] preflight_entries.value in
      let gate_entries = entry_list json path root "gates" in
      let gates = parse_gates json path preflights.seen_ids gate_entries.value in
      let gate_sets = parse_gate_sets json path root gates.kept in
      let selectors = parse_selectors json path root gate_sets.value in
      let scaffold = parse_scaffold_provenance json path from_value root version gates.kept in
      say
        (record {
          scaffold = scaffold.value;
          preflights = preflights.kept;
          gates = gates.kept;
          gate_sets = gate_sets.value;
          selectors = selectors.value;
        })
        (check_kind version
          ++ (preflight_entries.said
              ++ (preflights.said
                  ++ (gate_entries.said
                      ++ (gates.said ++ (gate_sets.said ++ (selectors.said ++ scaffold.said)))))))
