-- ===== src/Diagnostics/Errors.antt =====
-- How many errors a list of diagnostics has (diagnostics.rs).
use nopal.Prelude.{
  ℕ, suc, ◌+◌, ◌≤◌, String, Bool, true, false, ◌≡◌, refl, List, [], ◌∷◌, ◌++◌, arith, if◌then◌else◌,
}
use nopal.Diagnostics.Codes.{Code}
use nopal.Diagnostics.Report.{
  error, Diagnostic, new_diagnostic, error_diagnostic, warning_diagnostic,
}

abbrev pub is_error : Diagnostic → Bool
is_error d = elim d.severity [ error ↦ true | _ ↦ false ]

abbrev pub errors : List Diagnostic → ℕ
errors [] = 0
errors (d ∷ ds) = (if is_error d then 1 else 0) + errors ds

pub errors-append : (xs ys : List Diagnostic) → errors (xs ++ ys) ≡ errors xs + errors ys
errors-append [] ys = omega arith
errors-append (x ∷ xs) ys = omega (arith, errors-append xs ys)

pub errors-grow : (xs : List Diagnostic) (d : Diagnostic) → errors xs ≤ errors (xs ++ d ∷ [])
errors-grow xs d = omega (arith, errors-append xs (d ∷ []))

pub errors-added :
    (xs : List Diagnostic) (d : Diagnostic)
    → is_error d ≡ true
    → errors (xs ++ d ∷ []) ≡ suc (errors xs)
errors-added xs d h = ground (arith, h, errors-append xs (d ∷ []))

pub error_counts :
    (code : Code) (path message : String) → errors (error_diagnostic code path message ∷ []) ≡ 1
unfolding error_diagnostic new_diagnostic
error_counts code path message = refl

pub warning_free :
    (code : Code) (path message : String) → errors (warning_diagnostic code path message ∷ []) ≡ 0
unfolding warning_diagnostic new_diagnostic
warning_free code path message = refl
