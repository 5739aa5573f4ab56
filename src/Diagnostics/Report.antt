-- ===== src/Diagnostics/Report.antt =====
-- The records of diagnostics.rs and the order of a report.
use Prim.Native.Nat.{compare, Ordering, lt, eq, gt}
use Prim.Native.String as Text
use nopal.Prelude.{ℕ, String, Bool, Option, none, some, List, [], ◌∷◌, if◌then◌else◌}
use nopal.Diagnostics.Codes.{Code, code_rank}

pub data Severity : Type 0 where
  error warning info : Severity

unfoldable pub severity_text : Severity → String
severity_text error = "error"
severity_text warning = "warning"
severity_text info = "info"

pub record Position : Type 0 where
  pub line : ℕ
  pub column : ℕ

pub record Diagnostic : Type 0 where
  pub severity : Severity
  pub code : Code
  pub path : String
  pub position : Option Position
  pub message : String

unfoldable pub new_diagnostic : Severity → Code → String → String → Diagnostic
new_diagnostic severity code path message = record {
  severity = severity;
  code = code;
  path = path;
  position = none;
  message = message;
}

unfoldable pub error_diagnostic : Code → String → String → Diagnostic
error_diagnostic code path message = new_diagnostic error code path message

unfoldable pub warning_diagnostic : Code → String → String → Diagnostic
warning_diagnostic code path message = new_diagnostic warning code path message

unfoldable pub with_position : Diagnostic → ℕ → ℕ → Diagnostic
with_position d line column = record d { position = some (record { line = line; column = column }) }

-- `Ordering::then`
abbrev pub and_then : Ordering → Ordering → Ordering
and_then lt next = lt
and_then eq next = next
and_then gt next = gt

-- The derived orders: of a position by line and column, and of an absent value before any other.
unfoldable pub compare_position : Position → Position → Ordering
compare_position p q = and_then (compare p.line q.line) (compare p.column q.column)

unfoldable pub compare_optional : Option Position → Option Position → Ordering
compare_optional none none = eq
compare_optional none (some q) = lt
compare_optional (some p) none = gt
compare_optional (some p) (some q) = compare_position p q

unfoldable pub compare_code : Code → Code → Ordering
compare_code c d = compare (code_rank c) (code_rank d)

unfoldable pub compare_diagnostic : Diagnostic → Diagnostic → Ordering
compare_diagnostic a b =
    and_then (and_then (Text.compare a.path b.path) (compare_optional a.position b.position))
      (compare_code a.code b.code)

abbrev pub is_gt : Ordering → Bool
is_gt gt = Bool.true
is_gt o = Bool.false

-- `sort_by`, which is stable: an earlier element stays before those that are equal.
unfoldable pub insert_diagnostic : Diagnostic → List Diagnostic → List Diagnostic
insert_diagnostic d [] = d ∷ []
insert_diagnostic d (e ∷ es) =
    let rest = insert_diagnostic d es in
    if is_gt (compare_diagnostic d e) then e ∷ rest else d ∷ e ∷ es

unfoldable pub sort_diagnostics : List Diagnostic → List Diagnostic
sort_diagnostics [] = []
sort_diagnostics (d ∷ ds) = insert_diagnostic d (sort_diagnostics ds)
