-- ===== src/Parse/Samples.antt =====
-- Rules as JSON values, and the theorems at these inputs.
use nopal.Prelude.{
  List, true, ◌≡◌, refl, some, none, [], ◌∷◌, map, contains, concat, any, all, find,
}
use nopal.Json.Tree.{
  Tree, word, array, object, no_entry, entry, no_field, field, tree_str, tree_object, tree_array,
  tree_entries, field_value, field_names, field_list, plain,
}
use nopal.Diagnostics.Codes.{Code, policy_class_unknown, policy_rule_invalid}
use nopal.Diagnostics.Report.{Diagnostic, new_diagnostic, error_diagnostic, warning_diagnostic}
use nopal.Policy.Vocabulary.{
  deny, parse_decision, parse_placement, parse_class, is_known, parse_mode,
}
use nopal.Parse.Lists.{
  join, quoted_list, push_class, class_entry, class_entries, parse_class_list, action_entry,
  action_entries, parse_action_list,
}
use nopal.Parse.Rules.{
  Rules, unknown_keys, warn_unknown_keys, parse_decision_field, parse_placement_field,
  check_matchers, check_effect, parse_rule_fields, parse_rule_object, parse_rule, keep_rule,
  parse_rules,
}
use nopal.Parse.Modes.{
  parse_rules_field, parse_mode_object, parse_mode_policy, mode_entry, mode_entries, parse_modes,
  named_ref, ref_object, ref_entry, ref_entries, parse_env_refs, check_policy_version, read_policy,
  validate_policy,
}
use nopal.Policy.Classes.{env_report}
use nopal.Policy.Doc.{EnvRef, PolicyDoc}
use nopal.Parse.Keys.{names, all_distinct_ids, validate_policy_distinct}
use nopal.Parse.Distinct.{is_distinct, ids}

program : Unit {0}
unfolding parse_mode any all find env_report tree_array field_list parse_rules_field
    parse_mode_object parse_mode_policy mode_entry mode_entries parse_modes named_ref ref_object
    ref_entry ref_entries parse_env_refs check_policy_version read_policy validate_policy tree_str
    tree_object tree_entries field_value field_names new_diagnostic error_diagnostic
    warning_diagnostic parse_decision parse_placement parse_class is_known join quoted_list
    push_class class_entry class_entries parse_class_list action_entry action_entries
    parse_action_list unknown_keys warn_unknown_keys parse_decision_field parse_placement_field
    check_matchers check_effect parse_rule_fields parse_rule_object parse_rule keep_rule parse_rules
    contains concat
program = tt

-- A rule that names a class twice and one that is not known.
abbrev pushing : Tree
pushing = object (
    field "id" (word "push") (
      field "decision" (word "deny") (
        field "classes"
          (array
            (entry (word "git_remote") (entry (word "git_remote") (entry (word "moon") no_entry))))
          no_field)))

abbrev idle : Tree
idle = object (field "id" (word "idle") no_field)

pushing_rule :
    (parse_rule plain "policy.jsonc" pushing "r" []).value
    ≡ some (record {
      id = "push";
      decision = some deny;
      placement = none;
      classes = "git_remote" ∷ "moon" ∷ [];
      actions = [];
      reason = none;
    })
unfolding program
pushing_rule = refl

pushing_codes :
    map {B = Code}
      (λ (d : Diagnostic). d.code)
      (parse_rule plain "policy.jsonc" pushing "r" []).diags
    ≡ policy_class_unknown ∷ []
unfolding program
pushing_codes = refl

-- No matcher and no effect: both are reported.
idle_codes :
    map {B = Code} (λ (d : Diagnostic). d.code) (parse_rule plain "policy.jsonc" idle "r" []).diags
    ≡ policy_rule_invalid ∷ policy_rule_invalid ∷ []
unfolding program
idle_codes = refl

abbrev twice : List Tree
twice = pushing ∷ pushing ∷ []

abbrev start : Rules
start = record { rules = []; seen_ids = []; diags = [] }

twice_kept : ids (parse_rules plain "policy.jsonc" "m" 0 twice start).rules ≡ "push" ∷ []
unfolding program
twice_kept = refl

-- A reference is repeated, and so is a rule.
abbrev reference : Tree
reference = object (
    field "name" (word "API_KEY")
      (field "classes" (array (entry (word "credential") no_entry)) no_field))

abbrev policy : Tree
policy = object (
    field "version" (word "nopal.policy/v1") (
      field "modes"
        (object (
          field "ci"
            (object (field "rules" (array (entry pushing (entry pushing no_entry))) no_field))
            no_field))
        (field "env" (array (entry reference (entry reference no_entry))) no_field)))

abbrev key : EnvRef
key = record { name = "API_KEY"; classes = "credential" ∷ [] }

abbrev doc : PolicyDoc
doc = record {
  modes =
      (
        "ci",
        record {
          default_decision = none;
          default_placement = none;
          rules =
              record {
                id = "push";
                decision = some deny;
                placement = none;
                classes = "git_remote" ∷ "moon" ∷ [];
                actions = [];
                reason = none;
              }
              ∷ [];
        },
      )
      ∷ [];
  env = key ∷ [];
}

validate_policy-policy : (validate_policy plain "policy.jsonc" policy).value ≡ some doc
unfolding program
validate_policy-policy = refl

validate_policy_distinct_example :
    (is_distinct (names doc.env) ≡ true) × (all_distinct_ids doc.modes ≡ true)
validate_policy_distinct_example =
    validate_policy_distinct plain "policy.jsonc" policy doc validate_policy-policy
