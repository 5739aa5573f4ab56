-- ===== src/Review/Risk.antt =====
-- The risk class of review_policy.rs: it grows with the change, and what the lowest class promises.
use nopal.Prelude.{
  ℕ, ◌≤◌, leb, String, Bool, true, false, not, ◌&&◌, ◌≡◌, refl, Option, none, some, List, [], ◌∷◌,
  ◌++◌, arith, length, all, any-append, all-append, length-append, All, is_some, is_some_and,
  is_none_or, Option-cases, inl, inr,
}
use nopal.Gates.{GatesConfig}
use nopal.Selection.Globs.{Globset, glob_set}
use nopal.Review.Types.{low, risk_rank, RiskConfig, ReviewPolicyConfig, ReviewRiskRequest}
use nopal.Review.Evaluate.{
  is_high_path, is_high_risk, all_files_low, is_low_risk, classify_risk, evaluate,
}

reaches_mono :
    (limit : Option ℕ) (m n : ℕ)
    → m ≤ n
    → is_some_and limit (λ max. leb max m) ≡ true
    → is_some_and limit (λ max. leb max n) ≡ true
reaches_mono none m n h e = e
reaches_mono (some max) m n h e = ground arith

within_mono :
    (limit : Option ℕ) (m n : ℕ)
    → m ≤ n
    → is_none_or limit (λ max. leb n max) ≡ true
    → is_none_or limit (λ max. leb m max) ≡ true
within_mono none m n h e = refl
within_mono (some max) m n h e = ground arith

module _ (globset : Globset) (config : RiskConfig) where
  -- The file matches the low-risk paths and not the high-risk ones.
  abbrev pub is_low_file : String → Bool
  is_low_file file =
      not (is_high_path globset config file)
      && is_some_and (glob_set globset config.low_risk_paths) (λ set. globset.is_match set file)

  all_imp :
      (p q : String → Bool)
      → ((f : String) → p f ≡ true → q f ≡ true)
      → (fs : List String) → all p fs ≡ true
      → All (λ f. q f ≡ true) fs
  unfolding all
  all_imp p q h [] e = tt
  all_imp p q h (f ∷ fs) e = (ground (arith, e, h f), all_imp p q h fs (ground arith))

  all_files_low-All :
      (files : List String)
      → all_files_low globset config files ≡ true
      → All (λ file. is_low_file file ≡ true) files
  unfolding all_files_low
  all_files_low-All files e = elim (Option-cases (glob_set globset config.low_risk_paths)) [
    | inl absent ↦ ground (arith, rw absent at e)
    | inr (set, found) ↦
        all_imp (λ file. not (is_high_path globset config file) && globset.is_match set file)
          is_low_file (λ f h. rw found h) files (ground (arith, rw found at e))
  ]

  all_files_low-append :
      (files more : List String)
      → all_files_low globset config (files ++ more) ≡ true
      → all_files_low globset config files ≡ true
  unfolding all_files_low
  all_files_low-append files more e = elim (Option-cases (glob_set globset config.low_risk_paths)) [
    | inl absent ↦ ground (arith, rw absent at e)
    | inr (set, found) ↦ rw found (
        ground (
          arith,
          rw found at e,
          all-append (λ file. not (is_high_path globset config file) && globset.is_match set file)
              files more,
        ))
  ]

  module _ (files more : List String) (a b : ℕ) (h : a ≤ b) where
    is_high_risk_mono :
        is_high_risk globset config files (some a) ≡ true
        → is_high_risk globset config (files ++ more) (some b) ≡ true
    unfolding is_high_risk
    is_high_risk_mono e = ground (
      arith,
      e,
      any-append (is_high_path globset config) files more,
      reaches_mono config.high_risk_file_count (length files) (length (files ++ more))
          (omega (arith, length-append files more)),
      reaches_mono config.high_risk_total_changes a b h,
    )

    is_low_risk_mono :
        is_low_risk globset config (files ++ more) (some b) ≡ true
        → is_low_risk globset config files (some a) ≡ true
    unfolding is_low_risk
    is_low_risk_mono e = ground (
      arith,
      e,
      all_files_low-append files more,
      within_mono config.low_risk_file_count (length files) (length (files ++ more))
          (omega (arith, length-append files more)),
      within_mono config.low_risk_total_changes a b h,
    )

    -- More changed files and more changed lines, where the number of lines is known, never lower
    -- the risk class.
    pub classify_risk_mono :
        risk_rank (classify_risk globset config files (some a))
        ≤ risk_rank (classify_risk globset config (files ++ more) (some b))
    unfolding classify_risk
    classify_risk_mono = ground (arith, is_high_risk_mono, is_low_risk_mono)

module _ (globset : Globset) (policy : ReviewPolicyConfig) (gates : GatesConfig)
    (req : ReviewRiskRequest) where
  class_low :
      classify_risk globset policy.risk req.changed_files req.total_changes ≡ low
      → (is_high_risk globset policy.risk req.changed_files req.total_changes ≡ false)
        × (is_low_risk globset policy.risk req.changed_files req.total_changes ≡ true)
  unfolding classify_risk
  class_low e = ground arith

  -- If the policy closes out only low risk and the verdict asks for no reviewer, then the number of
  -- changed lines is known, every changed file matches a low-risk path and no high-risk one, and no
  -- high-risk signal fires.
  pub evaluate_unreviewed :
      policy.risk.max_auto_closeout_risk ≡ low
      → (evaluate globset policy gates req).risk.agentic_reviewer_required ≡ false
      → All (λ file. is_low_file globset policy.risk file ≡ true) req.changed_files
        × (is_some req.total_changes ≡ true)
        × (is_high_risk globset policy.risk req.changed_files req.total_changes ≡ false)
  unfolding evaluate is_low_risk
  evaluate_unreviewed lowest e =
      let (no_signal, is_low) = class_low (ground (arith, e, lowest)) in
      (
        all_files_low-All globset policy.risk req.changed_files (ground (arith, is_low)),
        ground (arith, is_low),
        no_signal,
      )
