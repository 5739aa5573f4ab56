-- ===== src/Review/Samples.antt =====
-- A review policy over the sample gates, tests, and the theorems at these inputs.
use nopal.Prelude.{
  ℕ, ◌≤◌, String, Bool, true, false, ◌≡◌, refl, Option, none, some, List, [], ◌∷◌, arith, All,
  is_some, all, any, keep, length, contains, find,
}
use nopal.Gates.{pre_pr, stage_eq, get_set, generated_gate_ids}
use nopal.Selection.Globs.{insert_file, sort, dedup, compile, glob_set, matching_files}
use nopal.Selection.Pull.{
  find_gate, pull_default, pull_gate, pull_gates, pull_set, pull_sets, scan_selector,
  scan_selectors, scan,
}
use nopal.Selection.Select.{
  is_explicit_at, selects_explicit_gate, covered_files, explicit_authority_covers_selection,
  decide_gate, decide_pulled, skip_unpulled, suppressed_generated, select,
}
use nopal.Selection.Samples.{prefixes, config}
use nopal.Review.Types.{
  low, medium, high, risk_rank, RiskConfig, ReviewPolicyConfig, ReviewRiskRequest,
}
use nopal.Review.Evaluate.{
  is_high_path, is_high_risk, all_files_low, is_low_risk, classify_risk, is_parallel_safe,
  scope_reason, fast_path_reason, touched_scopes, is_violation, evaluate,
}
use nopal.Review.Risk.{is_low_file, classify_risk_mono, evaluate_unreviewed}
use nopal.Review.FastPath.{first_failing, checks, matched_selectors, evaluate_eligible}

abbrev risk_config : RiskConfig
risk_config = record {
  max_auto_closeout_risk = low;
  high_risk_paths = "src/auth" ∷ [];
  low_risk_paths = "docs/" ∷ "src/" ∷ [];
  high_risk_file_count = some 10;
  high_risk_total_changes = some 400;
  low_risk_file_count = some 3;
  low_risk_total_changes = some 50;
}

abbrev policy : ReviewPolicyConfig
policy = record {
  risk = risk_config;
  fast_path = record { max_changed_lines = 100 };
  split_policy = some "exclusive";
}

abbrev request : List String → Option ℕ → ReviewRiskRequest
request files total = record {
  changed_files = files;
  total_changes = total;
  facts = record { base_fresh = true; needs_merge = false; existing_pr = false };
  stage = pre_pr;
}

abbrev small : ReviewRiskRequest
small = request ("docs/a.md" ∷ []) (some 4)

abbrev wide : ReviewRiskRequest
wide = request ("docs/a.md" ∷ "src/a.rs" ∷ []) (some 4)

program : Unit {0}
unfolding stage_eq get_set generated_gate_ids insert_file sort dedup compile glob_set matching_files
    find_gate pull_default pull_gate pull_gates pull_set pull_sets scan_selector scan_selectors scan
    is_explicit_at selects_explicit_gate covered_files explicit_authority_covers_selection
    decide_gate decide_pulled skip_unpulled suppressed_generated select any all find keep contains
    is_high_path is_high_risk all_files_low is_low_risk classify_risk is_parallel_safe scope_reason
    fast_path_reason touched_scopes is_violation evaluate
program = tt

auth_high :
    classify_risk prefixes risk_config ("docs/a.md" ∷ "src/auth/key.rs" ∷ []) (some 1) ≡ high
unfolding program
auth_high = refl

unknown_medium : classify_risk prefixes risk_config ("docs/a.md" ∷ []) none ≡ medium
unfolding program
unknown_medium = refl

small_eligible : (evaluate prefixes policy config small).fast_path.eligible ≡ true
unfolding program
small_eligible = refl

wide_reason :
    (evaluate prefixes policy config wide).fast_path.reason ≡ some "split_policy_violation"
unfolding program
wide_reason = refl

small_unreviewed : (evaluate prefixes policy config small).risk.agentic_reviewer_required ≡ false
unfolding program
small_unreviewed = refl

wide_matches : length (matched_selectors prefixes policy config wide) ≡ 2
unfolding program
wide_matches = refl

classify_risk_mono_example :
    risk_rank (classify_risk prefixes risk_config ("docs/a.md" ∷ []) (some 4))
    ≤ risk_rank (classify_risk prefixes risk_config ("docs/a.md" ∷ "src/auth/key.rs" ∷ []) (some 9))
classify_risk_mono_example =
    classify_risk_mono prefixes risk_config ("docs/a.md" ∷ []) ("src/auth/key.rs" ∷ []) 4 9
      (omega arith)

evaluate_unreviewed_example :
    All (λ file. is_low_file prefixes risk_config file ≡ true) ("docs/a.md" ∷ [])
    × (is_some {A = ℕ} (some 4) ≡ true)
    × (is_high_risk prefixes risk_config ("docs/a.md" ∷ []) (some 4) ≡ false)
evaluate_unreviewed_example = evaluate_unreviewed prefixes policy config small refl small_unreviewed

evaluate_eligible_example :
    ((evaluate prefixes policy config wide).fast_path.reason
      ≡ first_failing (checks prefixes policy config wide))
    × ((evaluate prefixes policy config wide).fast_path.eligible
        ≡ all (λ (c : Bool × String). c.0) (checks prefixes policy config wide))
evaluate_eligible_example = evaluate_eligible prefixes policy config wide
