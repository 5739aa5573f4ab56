-- ===== src/Review/FastPath.antt =====
-- The fast path and the touched scopes of review_policy.rs, against tables that name each check.
use nopal.Prelude.{
  suc, ◌≤◌, leb, String, Bool, true, false, not, ◌||◌, ◌≡◌, refl, ap, ◌∙◌, Option, none, some, List,
  [], ◌∷◌, map, arith, if◌then◌else◌, length, all, keep, is_some, is_none_or, Bool-cases,
  Option-cases, inl, inr,
}
use nopal.Gates.{Selector, GatesConfig}
use nopal.Selection.Types.{SelectorMatch}
use nopal.Selection.Globs.{Globset, sort, dedup}
use nopal.Selection.Select.{select}
use nopal.Selection.Scanned.{match_of, is_matched, selectors-scan}
use nopal.Review.Types.{ReviewPolicyConfig, ReviewRiskRequest, Verdict}
use nopal.Review.Evaluate.{
  is_parallel_safe, scope_reason, fast_path_reason, touched_scopes, is_violation, evaluate,
}

-- The reason of the first check that does not hold.
abbrev pub first_failing : List (Bool × String) → Option String
first_failing [] = none
first_failing ((holds, reason) ∷ checks) = if holds then first_failing checks else some reason

length-map : {A B : Type 0} (f : A → B) (xs : List A) → length (map f xs) ≡ length xs
length-map f [] = refl
length-map f (x ∷ xs) = ap suc (length-map f xs)

first_failing-all :
    (checks : List (Bool × String))
    → not (is_some (first_failing checks)) ≡ all (λ (c : Bool × String). c.0) checks
unfolding all
first_failing-all [] = refl
first_failing-all ((holds, reason) ∷ checks) = ground (arith, first_failing-all checks)

module _ (globset : Globset) (policy : ReviewPolicyConfig) (gates : GatesConfig)
    (req : ReviewRiskRequest) where
  abbrev verdict : Verdict
  verdict = evaluate globset policy gates req

  -- The checks of the fast path, in the order of the design.
  abbrev pub checks : List (Bool × String)
  checks =
      (not req.facts.existing_pr, "existing_pr")
      ∷ (is_some req.total_changes, "changed_lines_unknown")
      ∷ (
        is_none_or req.total_changes (λ total. leb total policy.fast_path.max_changed_lines),
        "changed_lines_exceed_max",
      )
      ∷ (
        leb (length verdict.scopes.touched) 1
            || all is_parallel_safe (select globset gates req.stage req.changed_files).selected,
        "multi_scope_gates_not_parallel_safe",
      )
      ∷ (not verdict.scopes.violation, "split_policy_violation")
      ∷ (req.facts.base_fresh, "base_not_fresh")
      ∷ (not req.facts.needs_merge, "needs_merge")
      ∷ []

  reason_first : verdict.fast_path.reason ≡ first_failing checks
  unfolding evaluate fast_path_reason scope_reason
  reason_first = elim (Option-cases req.total_changes) [
    | inl unknown ↦ rw unknown (ground arith)
    | inr (total, known) ↦ rw known (ground arith)
  ]

  -- The reason is that of the first check that fails, and the change is eligible exactly if every
  -- check holds.
  pub evaluate_eligible :
      (verdict.fast_path.reason ≡ first_failing checks)
      × (verdict.fast_path.eligible ≡ all (λ (c : Bool × String). c.0) checks)
  unfolding evaluate
  evaluate_eligible =
      (reason_first, ap (λ r. not (is_some r)) reason_first ∙ first_failing-all checks)

  keep-match_of :
      (files : List String) (selectors : List Selector)
      → map
          (λ (s : SelectorMatch). s.name)
          (keep (λ (s : SelectorMatch). s.matched) (map (match_of globset files) selectors))
        ≡ map (λ (s : Selector). s.name) (keep (is_matched globset files) selectors)
  unfolding keep
  keep-match_of files [] = refl
  keep-match_of files (s ∷ rest) = elim (Bool-cases (is_matched globset files s)) [
    | inl e ↦ rw e (ap (λ names. s.name ∷ names) (keep-match_of files rest))
    | inr e ↦ rw e (keep-match_of files rest)
  ]

  abbrev pub matched_selectors : List Selector
  matched_selectors = keep (is_matched globset (dedup (sort req.changed_files))) gates.selectors

  -- The touched scopes are the names of the selectors that match a changed file, in the order of
  -- their declaration.
  pub evaluate_touched : verdict.scopes.touched ≡ map (λ (s : Selector). s.name) matched_selectors
  unfolding evaluate touched_scopes select
  evaluate_touched =
      ap (λ ms. map (λ (s : SelectorMatch). s.name) (keep (λ (s : SelectorMatch). s.matched) ms))
        (selectors-scan globset (dedup (sort req.changed_files)) gates)
      ∙ keep-match_of (dedup (sort req.changed_files)) gates.selectors

  exclusive_violation :
      policy.split_policy ≡ some "exclusive"
      → 2 ≤ length verdict.scopes.touched
      → verdict.scopes.violation ≡ true
  unfolding evaluate is_violation
  exclusive_violation exclusive two = rw exclusive (ground arith)

  violation_ineligible : verdict.scopes.violation ≡ true → verdict.fast_path.eligible ≡ false
  unfolding all
  violation_ineligible violated = evaluate_eligible.1 ∙ ground (arith, violated)

  -- Under an exclusive split policy a change that two selectors match is not eligible.
  pub evaluate_exclusive :
      policy.split_policy ≡ some "exclusive"
      → 2 ≤ length matched_selectors
      → verdict.fast_path.eligible ≡ false
  evaluate_exclusive exclusive two = violation_ineligible (
      exclusive_violation exclusive (
        rw evaluate_touched
          (omega (arith, two, length-map (λ (s : Selector). s.name) matched_selectors))))
