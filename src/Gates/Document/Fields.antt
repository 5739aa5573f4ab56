-- ===== src/Gates/Document/Fields.antt =====
-- How gates.rs reads one field of an entry, and what it says if the field is not as it should be.
use nopal.Prelude.{
  ◌==◌, not, all, map, String, Bool, Option, none, some, List, [], ◌∷◌, if◌then◌else◌, concat,
}
use nopal.Json.{Json, and_then, get_field}
use nopal.Diagnostics.Codes.{field_invalid}
use nopal.Diagnostics.Report.{error_diagnostic}
use nopal.Diagnostics.Said.{Said, say, quiet}
use nopal.Parse.Lists.{join}

-- `enum_names`
unfoldable pub enum_names : Json → List String → String
enum_names json names = join (map json.debug names)

abbrev pub is_non_empty : String → Bool
is_non_empty s = not (s == "")

-- `items.iter().map(|item| item.as_str().map(str::to_owned)).collect()`
unfoldable pub collect_strs : (json : Json) → List json.Value → Option (List String)
collect_strs json [] = some []
collect_strs json (item ∷ items) =
    let rest = collect_strs json items in
    and_then (json.as_str item) (λ text. and_then rest (λ texts. some (text ∷ texts)))

module _ (json : Json) (path : String) where
  abbrev pub invalid {ℓ} : {A : Type ℓ} → List String → Said (Option A)
  invalid message = say none (error_diagnostic field_invalid path (concat message) ∷ [])

  unfoldable pub required_str : json.Value → String → String → Said (Option String)
  required_str entry field at = elim (and_then (get_field json entry field) json.as_str) [
    | some text ↦
        if is_non_empty text
        then quiet (some text)
        else invalid (at ∷ ": requires a non-empty string \"" ∷ field ∷ "\"" ∷ [])
    | none ↦ invalid (at ∷ ": requires a non-empty string \"" ∷ field ∷ "\"" ∷ [])
  ]

  abbrev pub not_a_str : String → String → Said (Option String)
  not_a_str field at =
      invalid (at ∷ ": \"" ∷ field ∷ "\" must be a non-empty string when present" ∷ [])

  unfoldable pub optional_str : json.Value → String → String → Said (Option String)
  optional_str entry field at = elim (get_field json entry field) [
    | none ↦ quiet none
    | some value ↦ elim (json.as_str value) [
      | some text ↦ if is_non_empty text then quiet (some text) else not_a_str field at
      | none ↦ not_a_str field at
    ]
  ]

  unfoldable pub optional_bool : json.Value → String → String → Said (Option Bool)
  optional_bool entry field at = elim (get_field json entry field) [
    | none ↦ quiet none
    | some value ↦ elim (json.as_bool value) [
      | some b ↦ quiet (some b)
      | none ↦ invalid (at ∷ ": \"" ∷ field ∷ "\" must be a bool when present" ∷ [])
    ]
  ]

  abbrev pub list_invalid : String → String → Said (Option (List String))
  list_invalid field at =
      invalid (at ∷ ": requires a \"" ∷ field ∷ "\" array of non-empty strings" ∷ [])

  unfoldable pub required_str_list : json.Value → String → String → Said (Option (List String))
  required_str_list entry field at =
      elim (and_then (and_then (get_field json entry field) json.as_array) (collect_strs json)) [
        | some items ↦ if all is_non_empty items then quiet (some items) else list_invalid field at
        | none ↦ list_invalid field at
      ]

  -- A missing field is an empty list.
  unfoldable pub entry_list : json.Value → String → Said (List json.Value)
  entry_list root field = elim (get_field json root field) [
    | none ↦ quiet []
    | some value ↦ elim (json.as_array value) [
      | some items ↦ quiet items
      | none ↦ say [] (
          error_diagnostic field_invalid path (concat ("\"" ∷ field ∷ "\" must be an array" ∷ []))
          ∷ [])
    ]
  ]
