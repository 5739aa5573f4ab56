-- ===== src/Diagnostics/Samples.antt =====
-- A report of three diagnostics, and the theorems at these inputs.
use mathlib.Core.List.{Perm}
use nopal.Prelude.{true, keep, ◌≡◌, refl, List, [], ◌∷◌, map}
use nopal.Diagnostics.Codes.{code_text, code_rank, duplicate_id, stage_unknown, policy_env_invalid}
use nopal.Diagnostics.Report.{
  Diagnostic, new_diagnostic, error_diagnostic, warning_diagnostic, with_position, compare_position,
  compare_optional, compare_code, compare_diagnostic, insert_diagnostic, sort_diagnostics,
}
use nopal.Diagnostics.Sorted.{is_sorted, ties, sort_diagnostics-sorts}

program : Unit {0}
unfolding code_text code_rank new_diagnostic error_diagnostic warning_diagnostic with_position
    compare_position compare_optional compare_code compare_diagnostic insert_diagnostic
    sort_diagnostics
program = tt

abbrev report : List Diagnostic
unfolding program
report =
    with_position (error_diagnostic stage_unknown ".nopal/gates.jsonc" "stage") 4 2
    ∷ warning_diagnostic policy_env_invalid ".nopal/policy.jsonc" "env"
    ∷ error_diagnostic duplicate_id ".nopal/gates.jsonc" "gate"
    ∷ []

sorted_report :
    map (λ (d : Diagnostic). d.message) (sort_diagnostics report) ≡ "gate" ∷ "stage" ∷ "env" ∷ []
unfolding program
sorted_report = refl

-- Another message of the first diagnostic.
abbrev repeated : Diagnostic
unfolding program
repeated = with_position (error_diagnostic stage_unknown ".nopal/gates.jsonc" "again") 4 2

sort_diagnostics-sorts_example :
    Perm (sort_diagnostics (repeated ∷ report)) (repeated ∷ report)
    × (is_sorted (sort_diagnostics (repeated ∷ report)) ≡ true)
    × (keep (ties repeated) (sort_diagnostics (repeated ∷ report))
        ≡ keep (ties repeated) (repeated ∷ report))
sort_diagnostics-sorts_example = sort_diagnostics-sorts (repeated ∷ report) repeated
