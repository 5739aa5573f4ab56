-- ===== src/Policy/Samples.antt =====
-- A small policy, requests to it, tests, and the theorems at these inputs.
use nopal.Prelude.{
  String, ◌||◌, ◌≡◌, refl, ◌≢◌, ◌≤◌, none, some, List, [], ◌∷◌, arith, any, find, contains, concat,
  All,
}
use nopal.Prelude.Sets.{SameSet, IsSubset}
use nopal.Policy.Vocabulary.{
  is_known, allow, ask, deny, blocked, dedicated_run_runtime, dedicated_repo_runtime, decision_rank,
  max_decision, max_placement, builtin_default_decision, builtin_default_placement,
}
use nopal.Policy.Doc.{
  Rule, PolicyDoc, rule, mode_default, builtin_default, safety_floor, EvalRequest,
}
use nopal.Policy.Classes.{
  env_report, env_reports_from, add_class, add_declared, add_from_env, add_report, add_reports,
  position, class_sort_key, key_lt, insert_class, sort_classes, effective,
}
use nopal.Policy.Evaluate.{
  mode_policy, via_of, match_rules, max_rule_decision, max_rule_placement, base_decision,
  base_placement, raise_decision, raise_placement, action_floor, class_floor, class_floors,
  base_verdict, evaluate,
}
use nopal.Policy.Floors.{floor_decision, floor_placement}
use nopal.Policy.Verdicts.{evaluate_floors}
use nopal.Policy.Rules.{AtMost, evaluate_strictest}
use nopal.Policy.Explained.{DecisionExplained, evaluate_explained}
use nopal.Policy.Membership.{classified, contains-classes}
use nopal.Policy.Sameness.{evaluate_order}
use nopal.Policy.Monotone.{evaluate_monotone}

abbrev fetch : Rule
fetch = record {
  id = "fetch";
  decision = some allow;
  placement = none;
  classes = "network_read" ∷ [];
  actions = "cargo.fetch" ∷ [];
  reason = none;
}

abbrev pushes : Rule
pushes = record {
  id = "pushes";
  decision = some ask;
  placement = some dedicated_run_runtime;
  classes = "git_remote" ∷ "git_local" ∷ [];
  actions = [];
  reason = some "a person looks first";
}

abbrev doc : PolicyDoc
doc = record {
  modes =
      (
        "unattended_auto",
        record {
          default_decision = some deny;
          default_placement = none;
          rules = fetch ∷ pushes ∷ [];
        },
      )
      ∷ [];
  env = record { name = "TOKEN"; classes = "secret_bearing" ∷ [] } ∷ [];
}

abbrev request : String → List String → List String → EvalRequest
request action classes env = record {
  mode = "unattended_auto";
  action = action;
  classes = classes;
  env = env;
}

abbrev fetching : EvalRequest
fetching = request "cargo.fetch" ("network_read" ∷ []) ("TOKEN" ∷ "TOKEN" ∷ "HOME" ∷ [])

abbrev pushing : EvalRequest
pushing = request "git.push" ("network_read" ∷ "git_remote" ∷ []) []

abbrev wiping : EvalRequest
wiping = request "cargo.fetch" ("network_read" ∷ "destructive" ∷ []) ("HOME" ∷ "TOKEN" ∷ [])

program : Unit {0}
unfolding is_known max_decision max_placement builtin_default_decision builtin_default_placement
    env_report env_reports_from add_class add_declared add_from_env add_report add_reports position
    class_sort_key key_lt insert_class sort_classes effective mode_policy via_of match_rules
    max_rule_decision max_rule_placement base_decision base_placement raise_decision raise_placement
    action_floor class_floor class_floors base_verdict evaluate any find contains concat
program = tt

fetching_classes : (evaluate doc fetching).classes ≡ "network_read" ∷ "secret_bearing" ∷ []
unfolding program
fetching_classes = refl

fetching_verdict :
    ((evaluate doc fetching).decision ≡ allow)
    × ((evaluate doc fetching).decision_source ≡ rule)
    × ((evaluate doc fetching).placement ≡ dedicated_run_runtime)
    × ((evaluate doc fetching).placement_source ≡ safety_floor)
unfolding program
fetching_verdict = (refl, refl, refl, refl)

fetching_notes :
    (evaluate doc fetching).class_notes
    ≡ "class network_read: declared by caller" ∷ "class secret_bearing: added by env ref TOKEN"
      ∷ "env ref HOME: not classified in policy env refs"
      ∷ "class secret_bearing: safety floor keeps placement at least dedicated_run_runtime" ∷ []
unfolding program
fetching_notes = refl

pushing_verdict :
    ((evaluate doc pushing).decision ≡ ask)
    × ((evaluate doc pushing).placement ≡ dedicated_run_runtime)
unfolding program
pushing_verdict = (refl, refl)

wiping_verdict :
    ((evaluate doc wiping).decision ≡ deny)
    × ((evaluate doc wiping).decision_source ≡ safety_floor)
    × ((evaluate doc wiping).placement ≡ blocked)
unfolding program
wiping_verdict = (refl, refl, refl)

unmatched_verdict :
    ((evaluate doc (request "x" ("read" ∷ []) [])).decision ≡ deny)
    × ((evaluate doc (request "x" ("read" ∷ []) [])).decision_source ≡ mode_default)
    × ((evaluate doc (request "x" ("read" ∷ []) [])).placement ≡ dedicated_repo_runtime)
    × ((evaluate doc (request "x" ("read" ∷ []) [])).placement_source ≡ builtin_default)
unfolding program
unmatched_verdict = (refl, refl, refl, refl)

evaluate_floors_example :
    ((evaluate doc wiping).decision
      ≡ max_decision
          (base_verdict doc wiping).decision
          (floor_decision "cargo.fetch" (evaluate doc wiping).classes))
    × ((evaluate doc wiping).placement
        ≡ max_placement
            (base_verdict doc wiping).placement
            (floor_placement "cargo.fetch" (evaluate doc wiping).classes))
evaluate_floors_example = evaluate_floors doc wiping

evaluate_strictest_example :
    All (AtMost (evaluate doc pushing)) (evaluate doc pushing).matched_rules
evaluate_strictest_example = evaluate_strictest doc pushing

evaluate_explained_example :
    DecisionExplained
      (evaluate doc pushing).matched_rules
      (mode_policy doc "unattended_auto")
      "unattended_auto"
      (floor_decision "git.push" (evaluate doc pushing).classes)
      (evaluate doc pushing).decision
      (evaluate doc pushing).decision_source
evaluate_explained_example = evaluate_explained doc pushing

contains-classes_example : contains (evaluate doc fetching).classes "secret_bearing" ≡ (
    contains ("network_read" ∷ []) "secret_bearing"
    || any (classified doc "secret_bearing") ("TOKEN" ∷ "TOKEN" ∷ "HOME" ∷ []))
contains-classes_example = contains-classes doc fetching "secret_bearing"

abbrev reordered : EvalRequest
reordered = request "cargo.fetch" ("network_read" ∷ "network_read" ∷ []) ("HOME" ∷ "TOKEN" ∷ [])

same_classes : SameSet ("network_read" ∷ []) ("network_read" ∷ "network_read" ∷ [])
unfolding contains
same_classes c = ground arith

same_env : SameSet ("TOKEN" ∷ "TOKEN" ∷ "HOME" ∷ []) ("HOME" ∷ "TOKEN" ∷ [])
unfolding contains
same_env c = ground arith

evaluate_order_example :
    ((evaluate doc fetching).decision ≡ (evaluate doc reordered).decision)
    × ((evaluate doc fetching).placement ≡ (evaluate doc reordered).placement)
evaluate_order_example = evaluate_order doc fetching reordered refl refl same_classes same_env

more_classes : IsSubset ("network_read" ∷ []) ("network_read" ∷ "destructive" ∷ [])
unfolding contains
more_classes c h = ground arith

more_env : IsSubset ("TOKEN" ∷ "TOKEN" ∷ "HOME" ∷ []) ("HOME" ∷ "TOKEN" ∷ [])
unfolding contains
more_env c h = ground arith

by_rule_not_default :
    ((evaluate doc fetching).decision_source ≢ mode_default)
    × ((evaluate doc fetching).decision_source ≢ builtin_default)
by_rule_not_default = (λ e. cc (e, fetching_verdict.1), λ e. cc (e, fetching_verdict.1))

evaluate_monotone_example :
    decision_rank (evaluate doc fetching).decision ≤ decision_rank (evaluate doc wiping).decision
evaluate_monotone_example =
    evaluate_monotone doc fetching wiping refl refl more_classes more_env by_rule_not_default.0
      by_rule_not_default.1
