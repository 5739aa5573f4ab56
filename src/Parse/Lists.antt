-- ===== src/Parse/Lists.antt =====
-- The lists of a rule and of an env ref: `parse_class_list` and `parse_action_list` of policy.rs.
-- The diagnostics that the source pushes on a borrowed list are passed along.
use nopal.Prelude.{
  ◌==◌, map, String, Option, none, some, List, [], ◌∷◌, ◌++◌, if◌then◌else◌, contains, concat,
}
use nopal.Json.{Json, and_then}
use nopal.Diagnostics.Codes.{policy_class_unknown, policy_shape_invalid, policy_rule_invalid}
use nopal.Diagnostics.Report.{Diagnostic, error_diagnostic, warning_diagnostic}
use nopal.Policy.Vocabulary.{ActionClass, parse_class, is_known, known_classes}

-- A list that a loop fills, and the diagnostics so far.
pub record Filled : Type 0 where
  pub items : List String
  pub diags : List Diagnostic

abbrev pub push_diag : Diagnostic → Filled → Filled
push_diag d f = record f { diags = f.diags ++ d ∷ [] }

-- `if !items.contains(item) { items.push(item) }`
abbrev pub push_new : String → Filled → Filled
push_new item f = if contains f.items item then f else record f { items = f.items ++ item ∷ [] }

-- `join(", ")`
unfoldable pub join : List String → String
join [] = ""
join (s ∷ []) = s
join (s ∷ t ∷ rest) = concat (s ∷ ", " ∷ join (t ∷ rest) ∷ [])

-- `quoted_list`: the names as Debug prints them.
unfoldable pub quoted_list : Json → List String → String
quoted_list json names = join (map json.debug names)

module _ (json : Json) (ctx path : String) where
  unfoldable pub push_class : json.Value → ActionClass → Filled → Filled
  push_class value class f = push_new class (
      if is_known class
      then f
      else push_diag
          (warning_diagnostic policy_class_unknown path (
            concat (
              ctx
              ∷ ": unknown class "
              ∷ json.display value
              ∷ "; treating as protected/unsafe policy data"
              ∷ [])))
          f)

  unfoldable pub class_entry : json.Value → Filled → Filled
  class_entry value f = elim (and_then (json.as_str value) parse_class) [
    | some class ↦ push_class value class f
    | none ↦
        push_diag
          (error_diagnostic policy_class_unknown path (
            concat (
              ctx
              ∷ ": unknown class "
              ∷ json.display value
              ∷ "; expected one of "
              ∷ quoted_list json known_classes
              ∷ [])))
          f
  ]

  unfoldable pub class_entries : List json.Value → Filled → Filled
  class_entries [] f = f
  class_entries (value ∷ rest) f = class_entries rest (class_entry value f)

  unfoldable pub parse_class_list : Option json.Value → List Diagnostic → Filled
  parse_class_list none diags = record { items = []; diags = diags }
  parse_class_list (some value) diags = elim (json.as_array value) [
    | some entries ↦ class_entries entries (record { items = []; diags = diags })
    | none ↦
        push_diag
          (error_diagnostic policy_shape_invalid path
            (concat (ctx ∷ ".classes must be an array of class names" ∷ [])))
          (record { items = []; diags = diags })
  ]

  abbrev pub bad_action : json.Value → Filled → Filled
  bad_action value f =
      push_diag
        (error_diagnostic policy_rule_invalid path (
          concat
            (ctx ∷ ".actions entries must be non-empty strings, got " ∷ json.display value ∷ [])))
        f

  unfoldable pub action_entry : json.Value → Filled → Filled
  action_entry value f = elim (json.as_str value) [
    | some action ↦ if action == "" then bad_action value f else push_new action f
    | none ↦ bad_action value f
  ]

  unfoldable pub action_entries : List json.Value → Filled → Filled
  action_entries [] f = f
  action_entries (value ∷ rest) f = action_entries rest (action_entry value f)

  unfoldable pub parse_action_list : Option json.Value → List Diagnostic → Filled
  parse_action_list none diags = record { items = []; diags = diags }
  parse_action_list (some value) diags = elim (json.as_array value) [
    | some entries ↦ action_entries entries (record { items = []; diags = diags })
    | none ↦
        push_diag
          (error_diagnostic policy_shape_invalid path
            (concat (ctx ∷ ".actions must be an array of action ids" ∷ [])))
          (record { items = []; diags = diags })
  ]
