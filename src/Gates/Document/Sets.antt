-- ===== src/Gates/Document/Sets.antt =====
-- The gate sets and the selectors of a gates document (gates.rs).
use nopal.Prelude.{
  ℕ, suc, ◌==◌, not, String, Bool, Option, none, some, List, [], ◌∷◌, if◌then◌else◌, any, concat,
  is_some,
}
use nopal.Json.{Json, and_then, get_field}
use nopal.Diagnostics.Codes.{field_invalid, gate_ref_unknown, gate_set_unknown}
use nopal.Diagnostics.Report.{Diagnostic, error_diagnostic}
use nopal.Diagnostics.Said.{Said, say, quiet, bind, try}
use nopal.Gates.{Gate, GateSet, Selector, get_set}
use nopal.Gates.Document.Fields.{required_str, required_str_list, entry_list}
use nopal.Gates.Document.Entries.{add_some}

abbrev pub Sets : Type 0
Sets = List (String × GateSet)

-- `filter_map(|item| item.as_str().map(str::to_owned))`
unfoldable pub filter_strs : (json : Json) → List json.Value → List String
filter_strs json [] = []
filter_strs json (item ∷ items) = add_some (json.as_str item) (filter_strs json items)

-- `gates.iter().any(|gate| gate.id == *id)`
unfoldable pub is_declared : List Gate → String → Bool
is_declared gates id = any (λ (gate : Gate). gate.id == id) gates

module _ (json : Json) (path : String) where
  unfoldable pub check_refs : List Gate → String → List String → List Diagnostic
  check_refs gates at [] = []
  check_refs gates at (id ∷ ids) =
      let rest = check_refs gates at ids in
      if not (is_declared gates id)
      then error_diagnostic gate_ref_unknown path
          (concat (at ∷ ": references unknown gate id " ∷ json.debug id ∷ []))
        ∷ rest
      else rest

  unfoldable pub parse_gate_set : List Gate → String → json.Value → Said (Option GateSet)
  parse_gate_set gates name entry =
      let at = concat ("gate_sets." ∷ name ∷ []) in
      elim (and_then (get_field json entry "gates") json.as_array) [
        | some items ↦
            say (some (record { gates = filter_strs json items }))
              (check_refs gates at (filter_strs json items))
        | none ↦ say none (
            error_diagnostic field_invalid path
              (concat (at ∷ ": requires a \"gates\" array of gate ids" ∷ []))
            ∷ [])
      ]

  abbrev pub named : String → Option GateSet → Option (String × GateSet)
  named name none = none
  named name (some set) = some (name, set)

  unfoldable pub parse_set_entries : List Gate → List (String × json.Value) → Said Sets
  parse_set_entries gates [] = quiet []
  parse_set_entries gates ((name, entry) ∷ rest) =
      bind (parse_gate_set gates name entry) (λ set.
        bind (parse_set_entries gates rest) (λ sets. quiet (add_some (named name set) sets)))

  unfoldable pub parse_gate_sets : json.Value → List Gate → Said Sets
  parse_gate_sets root gates = elim (get_field json root "gate_sets") [
    | none ↦ quiet []
    | some value ↦ elim (json.as_object value) [
      | some object ↦ parse_set_entries gates (json.entries object)
      | none ↦ say [] (
          error_diagnostic field_invalid path "\"gate_sets\" must be an object of set name to set"
          ∷ [])
    ]
  ]

  unfoldable pub check_sets : Sets → String → List String → List Diagnostic
  check_sets sets at [] = []
  check_sets sets at (set ∷ rest) =
      let later = check_sets sets at rest in
      if not (is_some (get_set sets set))
      then error_diagnostic gate_set_unknown path
          (concat (at ∷ ": references unknown gate set " ∷ json.debug set ∷ []))
        ∷ later
      else later

  -- `exclude` may be missing.
  unfoldable pub parse_exclude : json.Value → String → Said (Option (List String))
  parse_exclude entry at = elim (get_field json entry "exclude") [
    | none ↦ quiet (some [])
    | some value ↦ required_str_list json path entry "exclude" at
  ]

  unfoldable pub finish_selector :
      Sets → String → String → List String → List String → List String → Said (Option Selector)
  finish_selector sets at name paths exclude gate_sets =
      say (some (record { name = name; paths = paths; exclude = exclude; gate_sets = gate_sets }))
        (check_sets sets at gate_sets)

  unfoldable pub parse_selector : Sets → json.Value → String → Said (Option Selector)
  parse_selector sets entry at = try (required_str json path entry "name" at) (λ name.
      try (required_str_list json path entry "paths" at) (λ paths.
        try (parse_exclude entry at) (λ exclude.
          try (required_str_list json path entry "gate_sets" at)
            (λ gate_sets. finish_selector sets at name paths exclude gate_sets))))

  unfoldable pub parse_selector_entries : Sets → ℕ → List json.Value → Said (List Selector)
  parse_selector_entries sets index [] = quiet []
  parse_selector_entries sets index (entry ∷ rest) =
      bind (parse_selector sets entry (concat ("selectors[" ∷ json.decimal index ∷ "]" ∷ [])))
        (λ selector.
          bind (parse_selector_entries sets (suc index) rest)
            (λ selectors. quiet (add_some selector selectors)))

  unfoldable pub parse_selectors : json.Value → Sets → Said (List Selector)
  parse_selectors root sets =
      bind (entry_list json path root "selectors") (parse_selector_entries sets 0)
