-- ===== src/Parse/Rules.antt =====
-- `parse_rule` and the loop over the rules of a mode in `parse_mode_policy` of policy.rs.
use nopal.Prelude.{
  ℕ, suc, eqb, String, not, ◌&&◌, Option, none, some, List, [], ◌∷◌, ◌++◌, map, ◌==◌, if◌then◌else◌,
  is_empty, length, contains, concat,
}
use nopal.Json.{Json, contains_key, and_then}
use nopal.Diagnostics.Codes.{
  policy_rule_invalid, policy_decision_invalid, policy_placement_invalid, policy_key_unknown,
  policy_rule_duplicate_id,
}
use nopal.Diagnostics.Report.{Diagnostic, error_diagnostic, warning_diagnostic}
use nopal.Policy.Vocabulary.{Decision, parse_decision, Placement, parse_placement}
use nopal.Policy.Doc.{Rule}
use nopal.Parse.Lists.{Filled, join, quoted_list, parse_class_list, parse_action_list}

-- A value, if there is one, and the diagnostics so far.
pub record Parsed (A : Type 0) : Type 0 where
  pub value : Option A
  pub diags : List Diagnostic

-- The rules that the loop keeps; `seen_ids` of the source are their ids.
pub record Rules : Type 0 where
  pub rules : List Rule
  pub seen_ids : List String
  pub diags : List Diagnostic

module _ (json : Json) (path : String) where
  abbrev pub complain : String → List Diagnostic → List Diagnostic
  complain message diags = diags ++ error_diagnostic policy_rule_invalid path message ∷ []

  unfoldable pub unknown_keys : List String → String → List String → List Diagnostic
  unknown_keys allowed location [] = []
  unknown_keys allowed location (key ∷ rest) =
      let later = unknown_keys allowed location rest in
      if contains allowed key
      then later
      else warning_diagnostic policy_key_unknown path (
          concat (
            "unknown key "
            ∷ json.debug key
            ∷ location
            ∷ "; expected "
            ∷ join (map json.debug allowed)
            ∷ []))
        ∷ later

  unfoldable pub warn_unknown_keys :
      json.Object → List String → Option String → List Diagnostic → List Diagnostic
  warn_unknown_keys fields allowed ctx diags =
      diags
      ++ unknown_keys allowed (elim ctx [ some name ↦ concat (" in " ∷ name ∷ []) | none ↦ "" ])
          (json.keys fields)

  unfoldable pub parse_decision_field :
      String → Option json.Value → List Diagnostic → Parsed Decision
  parse_decision_field field none diags = record { value = none; diags = diags }
  parse_decision_field field (some value) diags =
      elim (and_then (json.as_str value) parse_decision) [
        | some decision ↦ record { value = some decision; diags = diags }
        | none ↦ record {
          value = none;
          diags =
              diags
              ++ error_diagnostic policy_decision_invalid path (
                  concat (
                    field
                    ∷ " must be one of "
                    ∷ quoted_list json ("allow" ∷ "ask" ∷ "deny" ∷ [])
                    ∷ ", got "
                    ∷ json.display value
                    ∷ []))
                ∷ [];
        }
      ]

  unfoldable pub parse_placement_field :
      String → Option json.Value → List Diagnostic → Parsed Placement
  parse_placement_field field none diags = record { value = none; diags = diags }
  parse_placement_field field (some value) diags =
      elim (and_then (json.as_str value) parse_placement) [
        | some placement ↦ record { value = some placement; diags = diags }
        | none ↦ record {
          value = none;
          diags =
              diags
              ++ error_diagnostic policy_placement_invalid path (
                  concat (
                    field
                    ∷ " must be one of "
                    ∷ quoted_list json (
                        "shared_user_runtime" ∷ "dedicated_repo_runtime" ∷ "dedicated_run_runtime"
                        ∷ "blocked" ∷ [])
                    ∷ ", got "
                    ∷ json.display value
                    ∷ []))
                ∷ [];
        }
      ]

  -- The two complaints at the end of `parse_rule`.
  unfoldable pub check_matchers : String → ℕ → Filled → Filled → List Diagnostic
  check_matchers ctx before classes actions =
      if is_empty classes.items && is_empty actions.items && eqb (length actions.diags) before
      then complain
          (concat (ctx ∷ ": rule matches nothing; declare \"classes\" and/or \"actions\"" ∷ []))
          actions.diags
      else actions.diags

  unfoldable pub check_effect : String → json.Object → List Diagnostic → List Diagnostic
  check_effect ctx fields diags =
      if not (contains_key json fields "decision") && not (contains_key json fields "placement")
      then complain
          (concat (ctx ∷ ": rule has no effect; declare \"decision\" and/or \"placement\"" ∷ []))
          diags
      else diags

  unfoldable pub parse_rule_fields : String → json.Object → String → List Diagnostic → Parsed Rule
  parse_rule_fields ctx fields id diags =
      let decision =
        parse_decision_field (concat (ctx ∷ ".decision" ∷ [])) (json.get fields "decision") diags in
      let placement =
        parse_placement_field (concat (ctx ∷ ".placement" ∷ [])) (json.get fields "placement")
          decision.diags in
      let classes = parse_class_list json ctx path (json.get fields "classes") placement.diags in
      let actions = parse_action_list json ctx path (json.get fields "actions") classes.diags in
      record {
        value = some (record {
          id = id;
          decision = decision.value;
          placement = placement.value;
          classes = classes.items;
          actions = actions.items;
          reason = and_then (json.get fields "reason") json.as_str;
        });
        diags =
            check_effect ctx fields (check_matchers ctx (length placement.diags) classes actions);
      }

  abbrev pub id_missing : String → List Diagnostic → Parsed Rule
  id_missing ctx diags = record {
    value = none;
    diags = complain (concat (ctx ∷ ": missing non-empty string field \"id\"" ∷ [])) diags;
  }

  unfoldable pub parse_rule_object : String → json.Object → List Diagnostic → Parsed Rule
  parse_rule_object ctx fields diags = elim (and_then (json.get fields "id") json.as_str) [
    | none ↦ id_missing ctx diags
    | some id ↦ if id == "" then id_missing ctx diags else parse_rule_fields ctx fields id diags
  ]

  unfoldable pub parse_rule : json.Value → String → List Diagnostic → Parsed Rule
  parse_rule value ctx diags = elim (json.as_object value) [
    | none ↦ record {
      value = none;
      diags = complain (concat (ctx ∷ " must be an object" ∷ [])) diags;
    }
    | some fields ↦ parse_rule_object ctx fields (
        warn_unknown_keys fields
          ("id" ∷ "decision" ∷ "placement" ∷ "classes" ∷ "actions" ∷ "reason" ∷ []) (some ctx)
          diags)
  ]

  -- What the loop does with a rule that was read.
  unfoldable pub keep_rule : String → Option Rule → Rules → Rules
  keep_rule ctx none s = s
  keep_rule ctx (some rule) s =
      if contains s.seen_ids rule.id
      then record s {
        diags =
            s.diags
            ++ error_diagnostic policy_rule_duplicate_id path
                (concat (ctx ∷ ": duplicate rule id " ∷ json.debug rule.id ∷ []))
              ∷ [];
      }
      else record s { seen_ids = s.seen_ids ++ rule.id ∷ []; rules = s.rules ++ rule ∷ [] }

  unfoldable pub parse_rules : String → ℕ → List json.Value → Rules → Rules
  parse_rules ctx index [] s = s
  parse_rules ctx index (value ∷ rest) s =
      let name = concat (ctx ∷ ".rules[" ∷ json.decimal index ∷ "]" ∷ []) in
      let parsed = parse_rule value name s.diags in
      parse_rules ctx (suc index) rest
        (keep_rule name parsed.value (record s { diags = parsed.diags }))
