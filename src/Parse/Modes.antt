-- ===== src/Parse/Modes.antt =====
-- The modes, the environment references and the whole of a policy document (policy.rs).
use nopal.Prelude.{
  ℕ, suc, String, not, Option, none, some, List, [], ◌∷◌, ◌++◌, ◌==◌, any, if◌then◌else◌, concat,
}
use nopal.Json.{Json, contains_key, and_then}
use nopal.Diagnostics.Codes.{
  Code, policy_shape_invalid, policy_mode_unknown, policy_env_invalid, version_unsupported,
}
use nopal.Diagnostics.Report.{Diagnostic, error_diagnostic}
use nopal.Policy.Vocabulary.{Mode, builtin_modes, parse_mode}
use nopal.Policy.Doc.{ModePolicy, EnvRef, PolicyDoc}
use nopal.Parse.Lists.{quoted_list, parse_class_list}
use nopal.Parse.Rules.{
  Parsed, Rules, warn_unknown_keys, parse_decision_field, parse_placement_field, parse_rules,
}

-- The modes, and the references, that a loop has kept.
pub record Modes : Type 0 where
  pub modes : List (Mode × ModePolicy)
  pub diags : List Diagnostic

pub record Refs : Type 0 where
  pub env : List EnvRef
  pub diags : List Diagnostic

module _ (json : Json) (path : String) where
  abbrev pub push_error : Code → List String → List Diagnostic → List Diagnostic
  push_error code message diags = diags ++ error_diagnostic code path (concat message) ∷ []

  -- The rules of a mode: a missing field is an empty list.
  unfoldable pub parse_rules_field : String → Option json.Value → List Diagnostic → Rules
  parse_rules_field ctx none diags = record { rules = []; seen_ids = []; diags = diags }
  parse_rules_field ctx (some value) diags = elim (json.as_array value) [
    | some entries ↦
        parse_rules json path ctx 0 entries (record { rules = []; seen_ids = []; diags = diags })
    | none ↦ record {
      rules = [];
      seen_ids = [];
      diags = push_error policy_shape_invalid (ctx ∷ ".rules must be an array" ∷ []) diags;
    }
  ]

  unfoldable pub parse_mode_object : String → json.Object → List Diagnostic → Parsed ModePolicy
  parse_mode_object ctx fields diags =
      let decision =
        parse_decision_field json path (concat (ctx ∷ ".default_decision" ∷ []))
          (json.get fields "default_decision")
          (warn_unknown_keys json path fields
            ("default_decision" ∷ "default_placement" ∷ "rules" ∷ []) (some ctx) diags) in
      let placement =
        parse_placement_field json path (concat (ctx ∷ ".default_placement" ∷ []))
          (json.get fields "default_placement") decision.diags in
      let rules = parse_rules_field ctx (json.get fields "rules") placement.diags in
      record {
        value = some (record {
          default_decision = decision.value;
          default_placement = placement.value;
          rules = rules.rules;
        });
        diags = rules.diags;
      }

  unfoldable pub parse_mode_policy : json.Value → String → List Diagnostic → Parsed ModePolicy
  parse_mode_policy value mode_name diags =
      let ctx = concat ("modes." ∷ mode_name ∷ []) in
      elim (json.as_object value) [
        | some fields ↦ parse_mode_object ctx fields diags
        | none ↦ record {
          value = none;
          diags = push_error policy_shape_invalid (ctx ∷ " must be an object" ∷ []) diags;
        }
      ]

  abbrev pub add_mode :
      Mode → Option ModePolicy → List (Mode × ModePolicy) → List (Mode × ModePolicy)
  add_mode mode none modes = modes
  add_mode mode (some policy) modes = modes ++ (mode, policy) ∷ []

  -- One entry of `modes`.
  unfoldable pub mode_entry : String → json.Value → Modes → Modes
  mode_entry name value s = elim (parse_mode name) [
    | none ↦ record s {
      diags =
          push_error policy_mode_unknown
            ("unknown mode "
              ∷ json.debug name
              ∷ "; expected one of "
              ∷ quoted_list json builtin_modes
              ∷ [])
            s.diags;
    }
    | some mode ↦
        let parsed = parse_mode_policy value name s.diags in
        record { modes = add_mode mode parsed.value s.modes; diags = parsed.diags }
  ]

  unfoldable pub mode_entries : List (String × json.Value) → Modes → Modes
  mode_entries [] s = s
  mode_entries ((name, value) ∷ rest) s = mode_entries rest (mode_entry name value s)

  unfoldable pub parse_modes : Option json.Value → List Diagnostic → Modes
  parse_modes none diags = record {
    modes = [];
    diags = push_error policy_shape_invalid ("missing object field \"modes\"" ∷ []) diags;
  }
  parse_modes (some value) diags = elim (json.as_object value) [
    | some map ↦ mode_entries (json.entries map) (record { modes = []; diags = diags })
    | none ↦ record {
      modes = [];
      diags =
          push_error policy_shape_invalid ("\"modes\" must be an object keyed by mode name" ∷ [])
            diags;
    }
  ]

  -- A reference with a name, given those before it.
  unfoldable pub named_ref : String → json.Object → String → Refs → Refs
  named_ref ctx fields name s =
      let classes = parse_class_list json ctx path (json.get fields "classes") s.diags in
      if any (λ (e : EnvRef). e.name == name) s.env
      then record s {
        diags =
            push_error policy_env_invalid (ctx ∷ ": duplicate env ref " ∷ json.debug name ∷ [])
              s.diags;
      }
      else if not (contains_key json fields "classes")
      then record s {
        diags =
            push_error policy_env_invalid
              (ctx
                ∷ ": missing \"classes\"; classify explicitly (an empty array means known and benign)"
                ∷ [])
              s.diags;
      }
      else record {
        env = s.env ++ record { name = name; classes = classes.items } ∷ [];
        diags = classes.diags;
      }

  abbrev pub name_missing : String → Refs → Refs
  name_missing ctx s = record s {
    diags =
        push_error policy_env_invalid (ctx ∷ ": missing non-empty string field \"name\"" ∷ [])
          s.diags;
  }

  unfoldable pub ref_object : String → json.Object → Refs → Refs
  ref_object ctx fields s = elim (and_then (json.get fields "name") json.as_str) [
    | none ↦ name_missing ctx s
    | some name ↦ if name == "" then name_missing ctx s else named_ref ctx fields name s
  ]

  unfoldable pub ref_entry : String → json.Value → Refs → Refs
  ref_entry ctx entry s = elim (json.as_object entry) [
    | none ↦ record s {
      diags =
          push_error policy_env_invalid
            (ctx ∷ " must be an object with \"name\" and \"classes\"" ∷ []) s.diags;
    }
    | some fields ↦ ref_object ctx fields (record s {
      diags = warn_unknown_keys json path fields ("name" ∷ "classes" ∷ []) (some ctx) s.diags;
    })
  ]

  unfoldable pub ref_entries : ℕ → List json.Value → Refs → Refs
  ref_entries index [] s = s
  ref_entries index (entry ∷ rest) s =
      ref_entries (suc index) rest
        (ref_entry (concat ("env[" ∷ json.decimal index ∷ "]" ∷ [])) entry s)

  unfoldable pub parse_env_refs : Option json.Value → List Diagnostic → Refs
  parse_env_refs none diags = record { env = []; diags = diags }
  parse_env_refs (some value) diags = elim (json.as_array value) [
    | some entries ↦ ref_entries 0 entries (record { env = []; diags = diags })
    | none ↦ record {
      env = [];
      diags = push_error policy_shape_invalid ("\"env\" must be an array of env refs" ∷ []) diags;
    }
  ]

  unfoldable pub check_policy_version : Option String → List Diagnostic → List Diagnostic
  check_policy_version none diags =
      push_error version_unsupported
        ("missing string field \"version\"; expected " ∷ json.debug "nopal.policy/v1" ∷ []) diags
  check_policy_version (some other) diags =
      if other == "nopal.policy/v1"
      then diags
      else push_error version_unsupported
          ("unsupported policy version "
            ∷ json.debug other
            ∷ "; expected "
            ∷ json.debug "nopal.policy/v1"
            ∷ [])
          diags

  unfoldable pub read_policy : json.Object → Parsed PolicyDoc
  read_policy fields =
      let known = warn_unknown_keys json path fields ("version" ∷ "modes" ∷ "env" ∷ []) none [] in
      let checked = check_policy_version (and_then (json.get fields "version") json.as_str) known in
      let modes = parse_modes (json.get fields "modes") checked in
      let refs = parse_env_refs (json.get fields "env") modes.diags in
      record { value = some (record { modes = modes.modes; env = refs.env }); diags = refs.diags }

  -- `validate_document` of policy.rs
  unfoldable pub validate_policy : json.Value → Parsed PolicyDoc
  validate_policy root = elim (json.as_object root) [
    | some fields ↦ read_policy fields
    | none ↦ record {
      value = none;
      diags = push_error policy_shape_invalid ("policy document must be a JSON object" ∷ []) [];
    }
  ]
