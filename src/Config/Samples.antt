-- ===== src/Config/Samples.antt =====
-- Runs of the manifest parser and of the check for commas, and the theorems on them.
use nopal.Prelude.{
  ℕ, true, false, not, ◌≡◌, refl, inl, none, some, List, [], ◌∷◌, map, any, is_some, contains,
}
use nopal.Json.Tree.{
  Tree, word, array, object, no_entry, entry, no_field, field, tree_str, tree_object, tree_array,
  tree_entries, field_value, plain,
}
use nopal.Diagnostics.Codes.{product_surface_removed}
use nopal.Diagnostics.Report.{Diagnostic, error_diagnostic, new_diagnostic}
use nopal.Config.Commas.{
  Token, open_brace, close_brace, open_bracket, close_bracket, comma, colon, string, number,
  is_scalar, await_any, await_key, await_colon, await_value, await_comma, await_element,
  await_separator, step, scan, strict_comma_violation,
}
use nopal.Config.Trees.{
  Document, a_string, a_number, scalar, object, array, no_property, property, no_element, element,
  scalar_token, tokens, property_tokens, element_tokens, has_commas, property_commas,
  element_commas,
}
use nopal.Config.Strict.{strict_comma_violation-has_commas}
use nopal.Config.Modules.{
  gates, workflow, builtin_required_modules, parse_module, module_text, module_tag, known_names,
}
use nopal.Config.Manifest.{
  Manifest, removed_module_migration, check_module, check_item, check_items, read_modules,
  profile_required_modules, choose_modules, choose_profile, read_manifest, parse_manifest,
  check_manifest_version, removed_module,
}

program : Unit {0}
unfolding any contains tree_str tree_object tree_array tree_entries field_value is_scalar await_any
    await_key await_colon await_value await_comma await_element await_separator step scan
    strict_comma_violation scalar_token tokens property_tokens element_tokens has_commas
    property_commas element_commas builtin_required_modules parse_module module_text module_tag
    known_names removed_module_migration check_module check_item check_items read_modules
    profile_required_modules choose_modules choose_profile read_manifest parse_manifest
    check_manifest_version removed_module error_diagnostic new_diagnostic
program = tt

-- {"k": 1 "k": [1, 1,]}
abbrev gap : Document
gap = object (
    property a_string (scalar a_number) false (
      property a_string
        (array (element (scalar a_number) true (element (scalar a_number) true no_element))) false
        no_property))

abbrev gap_tokens : List (Token × ℕ)
gap_tokens =
    (open_brace, 0)
    ∷ (string, 1)
    ∷ (colon, 4)
    ∷ (number, 6)
    ∷ (string, 8)
    ∷ (colon, 11)
    ∷ (open_bracket, 13)
    ∷ (number, 14)
    ∷ (comma, 15)
    ∷ (number, 17)
    ∷ (comma, 18)
    ∷ (close_bracket, 19)
    ∷ (close_brace, 20)
    ∷ []

strict_comma_violation-gap :
    strict_comma_violation gap_tokens ≡ some (8, "missing comma between object properties")
unfolding program
strict_comma_violation-gap = refl

strict_comma_violation-has_commas_example :
    is_some (strict_comma_violation gap_tokens) ≡ not (has_commas gap)
strict_comma_violation-has_commas_example =
    strict_comma_violation-has_commas gap gap_tokens (unfold program in refl)

-- A profile that names gates twice, and a module that was removed.
abbrev root : Tree
root = object (
    field "version" (word "nopal.project/v1") (
      field "profile" (word "mine") (
        field "profiles"
          (object (
            field "mine"
              (object (
                field "required_modules"
                  (array (
                    entry (word "workflow") (
                      entry (word "gates")
                        (entry (word "workflow") (entry (word "plot") no_entry)))))
                  no_field))
              no_field))
          no_field)))

abbrev manifest : Manifest
manifest = record {
  project_name = none;
  profile = some "mine";
  required_modules = workflow ∷ gates ∷ [];
}

parse_manifest-root : (parse_manifest plain "nopal.jsonc" (inl root)).value ≡ some manifest
unfolding program
parse_manifest-root = refl

parse_manifest-removed :
    map (λ (d : Diagnostic). d.code) (parse_manifest plain "nopal.jsonc" (inl root)).said
    ≡ product_surface_removed ∷ []
unfolding program
parse_manifest-removed = refl
