-- ===== src/Config/Manifest.antt =====
-- `parse_manifest` of config.rs on a value that the JSONC reader gave.
use nopal.Prelude.{
  String, Option, none, some, List, [], ◌∷◌, ◌++◌, ◌==◌, ◌||◌, if◌then◌else◌, concat, ◌⊎◌, inl, inr,
}
use nopal.Json.{Json, and_then, get_field}
use nopal.Diagnostics.Codes.{
  field_invalid, version_unsupported, profile_unknown, product_surface_removed,
}
use nopal.Diagnostics.Report.{Diagnostic, error_diagnostic}
use nopal.Diagnostics.Said.{Said, say, quiet, after, bind}
use nopal.Config.Modules.{
  Module, builtin_required_modules, parse_module, known_names, contains_module,
}

-- A profile is its name.
pub record Manifest : Type 0 where
  pub project_name : Option String
  pub profile : Option String
  pub required_modules : List Module

unfoldable pub removed_module_migration : String → Option String
removed_module_migration name =
    if name == "field" || name == "plot" || name == "session"
    then some "remove the module and use bare `nopal` for an enforced Pi session"
    else if name == "rondo" || name == "memento" || name == "herdr"
    then some "remove the module; optional external profiles are not part of the v0.3 distribution"
    else if name == "integrations"
    then some "keep tracker, review, and lifecycle integration meaning in `.beislid/workflow.md`"
    else none

abbrev pub known_profiles : String
known_profiles = "\"minimal\", \"portable\""

module _ (json : Json) (path : String) where
  abbrev pub refuse : List String → List Diagnostic
  refuse message = error_diagnostic field_invalid path (concat message) ∷ []

  unfoldable pub unknown_module : String → json.Value → List Diagnostic
  unknown_module profile_name item = refuse (
      "profiles."
      ∷ profile_name
      ∷ ".required_modules contains unknown module "
      ∷ json.debug_value item
      ∷ "; expected one of "
      ∷ known_names json
      ∷ [])

  unfoldable pub removed_module : String → String → String → List Diagnostic
  removed_module profile_name name migration =
      error_diagnostic product_surface_removed path (
        concat (
          "profiles."
          ∷ profile_name
          ∷ ".required_modules still names removed v0.2 module "
          ∷ json.debug name
          ∷ "; "
          ∷ migration
          ∷ []))
      ∷ []

  abbrev pub add_module : List Module → Module → List Module
  add_module modules m = if contains_module modules m then modules else modules ++ m ∷ []

  -- One name of the list, given the modules so far.
  unfoldable pub check_module : String → json.Value → List Module → String → Said (List Module)
  check_module profile_name item modules name = elim (removed_module_migration name) [
    | some migration ↦ say modules (removed_module profile_name name migration)
    | none ↦ elim (parse_module name) [
      | some m ↦ quiet (add_module modules m)
      | none ↦ say modules (unknown_module profile_name item)
    ]
  ]

  unfoldable pub check_item : String → List Module → json.Value → Said (List Module)
  check_item profile_name modules item = elim (json.as_str item) [
    | some name ↦ check_module profile_name item modules name
    | none ↦ say modules (unknown_module profile_name item)
  ]

  unfoldable pub check_items : String → List Module → List json.Value → Said (List Module)
  check_items profile_name modules [] = quiet modules
  check_items profile_name modules (item ∷ rest) =
      bind (check_item profile_name modules item) (λ found. check_items profile_name found rest)

  abbrev pub not_an_array : String → Said (Option (List Module))
  not_an_array profile_name = say (some []) (
      refuse
        ("profiles." ∷ profile_name ∷ ".required_modules must be an array of module names" ∷ []))

  unfoldable pub read_modules : String → json.Value → Said (Option (List Module))
  read_modules profile_name profile_value = elim (get_field json profile_value "required_modules") [
    | none ↦ not_an_array profile_name
    | some items ↦ elim (json.as_array items) [
      | none ↦ not_an_array profile_name
      | some values ↦ bind (check_items profile_name [] values) (λ modules. quiet (some modules))
    ]
  ]

  unfoldable pub profile_required_modules : json.Value → String → Said (Option (List Module))
  profile_required_modules root profile_name =
      elim (and_then (get_field json root "profiles") (λ ps. get_field json ps profile_name)) [
        | none ↦ quiet none
        | some profile_value ↦ read_modules profile_name profile_value
      ]

  unfoldable pub check_manifest_version : Option String → List Diagnostic
  check_manifest_version none =
      error_diagnostic version_unsupported path (
        concat ("missing string field \"version\"; expected " ∷ json.debug "nopal.project/v1" ∷ []))
      ∷ []
  check_manifest_version (some other) =
      if other == "nopal.project/v1"
      then []
      else error_diagnostic version_unsupported path (
          concat (
            "unsupported manifest version "
            ∷ json.debug other
            ∷ "; expected "
            ∷ json.debug "nopal.project/v1"
            ∷ []))
        ∷ []

  -- The modules of the manifest win over the built-in ones.
  unfoldable pub choose_modules :
      String → Option (List Module) → Option (List Module) → Said (Option String × List Module)
  choose_modules name builtin (some modules) = quiet (some name, modules)
  choose_modules name (some modules) none = quiet (some name, modules)
  choose_modules name none none =
      say (none, [])
        (error_diagnostic profile_unknown path (
            concat (
              "unknown profile "
              ∷ json.debug name
              ∷ "; declare profiles."
              ∷ name
              ∷ ".required_modules or use a built-in profile ("
              ∷ known_profiles
              ∷ ")"
              ∷ []))
          ∷ [])

  unfoldable pub choose_profile : json.Value → Option String → Said (Option String × List Module)
  choose_profile root none =
      say (none, [])
        (error_diagnostic profile_unknown path (
            concat (
              "missing string field \"profile\"; expected a built-in profile (" ∷ known_profiles
              ∷ ") or profiles.<name>.required_modules" ∷ []))
          ∷ [])
  choose_profile root (some name) =
      bind (profile_required_modules root name)
        (λ modules. choose_modules name (builtin_required_modules name) modules)

  unfoldable pub read_manifest : json.Value → Said Manifest
  read_manifest root =
      after (check_manifest_version (and_then (get_field json root "version") json.as_str)) (
        bind (choose_profile root (and_then (get_field json root "profile") json.as_str))
          (λ (profile, modules). quiet (record {
            project_name =
                and_then (and_then (get_field json root "project") (λ p. get_field json p "name"))
                  json.as_str;
            profile = profile;
            required_modules = modules;
          })))

  -- `parse_manifest`; what `parse_jsonc` makes of the text is the argument.
  unfoldable pub parse_manifest : json.Value ⊎ Diagnostic → Said (Option Manifest)
  parse_manifest (inl root) = bind (read_manifest root) (λ manifest. quiet (some manifest))
  parse_manifest (inr diagnostic) = say none (diagnostic ∷ [])
