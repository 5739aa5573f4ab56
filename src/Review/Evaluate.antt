-- ===== src/Review/Evaluate.antt =====
-- The verdicts of review_policy.rs: the risk class, the fast path and the touched scopes.
use nopal.Prelude.{
  ℕ, ltb, leb, String, Bool, false, not, ◌&&◌, ◌||◌, Option, none, some, List, ◌==◌, map,
  if◌then◌else◌, is_empty, length, any, all, keep, is_some, is_some_and, is_none_or,
}
use nopal.Gates.{GatesConfig}
use nopal.Selection.Types.{SelectedGate, SelectorMatch, Selection}
use nopal.Selection.Globs.{Globset, glob_set}
use nopal.Selection.Select.{select}
use nopal.Review.Types.{
  RiskClass, low, medium, high, risk_lt, RiskConfig, ReviewPolicyConfig, ReviewRiskRequest, Verdict,
}

module _ (globset : Globset) where
  unfoldable pub is_high_path : RiskConfig → String → Bool
  is_high_path config file =
      is_some_and (glob_set globset config.high_risk_paths) (λ set. globset.is_match set file)

  -- The three high-risk signals.
  unfoldable pub is_high_risk : RiskConfig → List String → Option ℕ → Bool
  is_high_risk config changed_files total_changes =
      any (is_high_path config) changed_files
      || is_some_and config.high_risk_file_count (λ max. leb max (length changed_files))
      || is_some_and total_changes
          (λ total. is_some_and config.high_risk_total_changes (λ max. leb max total))

  unfoldable pub all_files_low : RiskConfig → List String → Bool
  all_files_low config changed_files =
      not (is_empty config.low_risk_paths)
      && is_some_and (glob_set globset config.low_risk_paths) (λ set.
        all (λ file. not (is_high_path config file) && globset.is_match set file) changed_files)

  unfoldable pub is_low_risk : RiskConfig → List String → Option ℕ → Bool
  is_low_risk config changed_files total_changes =
      all_files_low config changed_files
      && is_none_or config.low_risk_file_count (λ max. leb (length changed_files) max)
      && is_some total_changes
      && is_none_or config.low_risk_total_changes
          (λ max. is_some_and total_changes (λ total. leb total max))

  unfoldable pub classify_risk : RiskConfig → List String → Option ℕ → RiskClass
  classify_risk config changed_files total_changes =
      if is_high_risk config changed_files total_changes
      then high
      else if is_low_risk config changed_files total_changes
      then low
      else medium

abbrev pub is_true : Option Bool → Bool
is_true none = false
is_true (some b) = b

-- A selected gate that may run beside others.
unfoldable pub is_parallel_safe : SelectedGate → Bool
is_parallel_safe gate =
    is_true gate.parallel_safe && not (is_true gate.mutates) && not (is_some gate.autofix)

-- The checks after the number of changed lines.
unfoldable pub scope_reason : Selection → List String → Bool → ReviewRiskRequest → Option String
scope_reason selection touched split_violation req =
    if ltb 1 (length touched) && not (all is_parallel_safe selection.selected)
    then some "multi_scope_gates_not_parallel_safe"
    else if split_violation
    then some "split_policy_violation"
    else if not req.facts.base_fresh
    then some "base_not_fresh"
    else if req.facts.needs_merge
    then some "needs_merge"
    else none

unfoldable pub fast_path_reason :
    ReviewPolicyConfig → Selection → List String → Bool → ReviewRiskRequest → Option String
fast_path_reason policy selection touched split_violation req =
    if req.facts.existing_pr then some "existing_pr" else elim req.total_changes [
      | none ↦ some "changed_lines_unknown"
      | some total_changes ↦
          if ltb policy.fast_path.max_changed_lines total_changes
          then some "changed_lines_exceed_max"
          else scope_reason selection touched split_violation req
    ]

-- `selection.selectors.iter().filter(|s| s.matched).map(|s| s.name.clone())`
unfoldable pub touched_scopes : Selection → List String
touched_scopes selection =
    map (λ (s : SelectorMatch). s.name)
      (keep (λ (s : SelectorMatch). s.matched) selection.selectors)

unfoldable pub is_violation : Option String → List String → Bool
is_violation split_policy touched =
    is_some_and split_policy (λ policy. policy == "exclusive") && leb 2 (length touched)

unfoldable pub evaluate : Globset → ReviewPolicyConfig → GatesConfig → ReviewRiskRequest → Verdict
evaluate globset policy gates req =
    let class = classify_risk globset policy.risk req.changed_files req.total_changes in
    let selection = select globset gates req.stage req.changed_files in
    let touched = touched_scopes selection in
    let violation = is_violation policy.split_policy touched in
    let reason = fast_path_reason policy selection touched violation req in
    record {
      risk = record {
        class = class;
        max_auto_closeout_risk = policy.risk.max_auto_closeout_risk;
        agentic_reviewer_required = risk_lt policy.risk.max_auto_closeout_risk class;
      };
      fast_path = record {
        eligible = not (is_some reason);
        reason = reason;
        max_changed_lines = policy.fast_path.max_changed_lines;
        changed_lines = req.total_changes;
      };
      scopes = record {
        model = if is_empty gates.selectors then "repo_root" else "selectors";
        touched = touched;
        policy = policy.split_policy;
        violation = violation;
      };
    }
