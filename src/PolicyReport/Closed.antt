-- ===== src/PolicyReport/Closed.antt =====
-- A policy command fails closed: it gives a verdict exactly if nothing it reports is an error.
use nopal.Prelude.{
  String, Bool, true, false, not, ◌&&◌, ◌==◌, ◌≡◌, refl, sym, ◌∙◌, ◌⊎◌, inl, inr, some, List, [],
  ◌∷◌, ◌++◌, any, eqb, is_some, arith, Bool-cases, Option-cases, concat,
}
use nopal.Json.{Json}
use nopal.Diagnostics.Codes.{Code, module_missing, policy_class_unknown}
use nopal.Diagnostics.Report.{
  Diagnostic, new_diagnostic, error_diagnostic, warning_diagnostic, compare_diagnostic, is_gt,
  insert_diagnostic, sort_diagnostics,
}
use nopal.Diagnostics.Errors.{is_error, errors, errors-append, error_counts, warning_free}
use nopal.Policy.Vocabulary.{ActionClass, is_builtin, is_known}
use nopal.Policy.Doc.{PolicyDoc, EvalRequest}
use nopal.Policy.Evaluate.{evaluate}
use nopal.Parse.Modes.{read_policy, validate_policy}
use nopal.PolicyReport.Run.{
  ReadFile, found, not_found, unreadable, done, PolicyLoad, View, includes_decision,
  includes_placement, PolicyReport, policy_path, then_some, load_text, load, refused, mode_warning,
  class_warnings, evaluated, report, run,
}

errors-insert :
    (d : Diagnostic) (ds : List Diagnostic) → errors (insert_diagnostic d ds) ≡ errors (d ∷ ds)
unfolding insert_diagnostic
errors-insert d [] = refl
errors-insert d (e ∷ es) = elim (Bool-cases (is_gt (compare_diagnostic d e))) [
  | inl q ↦ rw q (omega (arith, errors-insert d es))
  | inr q ↦ rw q
]

-- Sorting keeps the number of errors.
pub errors-sort : (ds : List Diagnostic) → errors (sort_diagnostics ds) ≡ errors ds
unfolding sort_diagnostics
errors-sort [] = refl
errors-sort (d ∷ ds) = omega (arith, errors-insert d (sort_diagnostics ds), errors-sort ds)

pub any-is_error : (ds : List Diagnostic) → any is_error ds ≡ not (eqb (errors ds) 0)
unfolding any
any-is_error [] = refl
any-is_error (d ∷ ds) = ground (arith, any-is_error ds)

errors-warning :
    (code : Code) (path message : String) (ds : List Diagnostic)
    → errors (warning_diagnostic code path message ∷ ds) ≡ errors ds
unfolding warning_diagnostic new_diagnostic
errors-warning code path message ds = omega arith

pub Sum-cases {ℓ κ} :
    {A : Type ℓ} {B : Type κ} (s : A ⊎ B) → ((a : A) × (s ≡ inl a)) ⊎ ((b : B) × (s ≡ inr b))
Sum-cases (inl a) = inl (a, refl)
Sum-cases (inr b) = inr (b, refl)

module _ (json : Json) (parse_jsonc : String → json.Value ⊎ Diagnostic) where
  errors-class_warnings :
      (classes : List ActionClass) → errors (class_warnings json parse_jsonc classes) ≡ 0
  unfolding class_warnings
  errors-class_warnings [] = refl
  errors-class_warnings (c ∷ cs) = elim (Bool-cases (is_known c)) [
    | inl e ↦ rw e (errors-class_warnings cs)
    | inr e ↦ rw e (
        errors-warning policy_class_unknown policy_path _ (class_warnings json parse_jsonc cs)
        ∙ errors-class_warnings cs)
  ]

  errors-mode_warning :
      (doc : PolicyDoc) (req : EvalRequest) → errors (mode_warning json parse_jsonc doc req) ≡ 0
  unfolding mode_warning
  errors-mode_warning doc req =
      elim (Bool-cases (not (is_builtin req.mode) && not (any (λ m. m.0 == req.mode) doc.modes))) [
        | inl e ↦ rw e (warning_free _ _ _)
        | inr e ↦ rw e
      ]

  -- A load without a document has an error.
  abbrev IsJudged : PolicyLoad → Type 0
  IsJudged loaded = is_some loaded.doc ≡ false → eqb (errors loaded.diagnostics) 0 ≡ false

  -- Verdicts exactly without errors.
  abbrev pub FailsClosed : View → PolicyReport → Type 0
  FailsClosed view r =
      (r.ok ≡ eqb (errors r.diagnostics) 0)
      × (is_some r.decision ≡ (r.ok && includes_decision view))
      × (is_some r.placement ≡ (r.ok && includes_placement view))

  is_some-then_some : (b : Bool) {A : Type 0} (a : A) → is_some (then_some b a) ≡ b
  is_some-then_some true a = refl
  is_some-then_some false a = refl

  refused-FailsClosed :
      (view : View) (ds : List Diagnostic)
      → eqb (errors ds) 0 ≡ false
      → FailsClosed view (refused json parse_jsonc view ds)
  unfolding refused
  refused-FailsClosed view ds h = (sym h, refl, refl)

  evaluated-FailsClosed :
      (view : View) (req : EvalRequest) (doc : PolicyDoc) (ds : List Diagnostic)
      → eqb (errors ds) 0 ≡ true
      → FailsClosed view (evaluated json parse_jsonc view req doc ds)
  unfolding evaluated
  evaluated-FailsClosed view req doc ds h =
      let added =
        mode_warning json parse_jsonc doc req ++ class_warnings json parse_jsonc req.classes in
      let none_added : errors (sort_diagnostics (ds ++ added)) ≡ errors ds = omega (
        arith,
        errors-sort (ds ++ added),
        errors-append ds added,
        errors-append (mode_warning json parse_jsonc doc req)
            (class_warnings json parse_jsonc req.classes),
        errors-mode_warning doc req,
        errors-class_warnings req.classes,
      ) in
      (
        rw (none_added, h),
        is_some-then_some (includes_decision view) _,
        is_some-then_some (includes_placement view) _,
      )

  report-FailsClosed :
      (view : View) (req : EvalRequest) (loaded : PolicyLoad)
      → IsJudged loaded
      → FailsClosed view (report json parse_jsonc view req loaded)
  unfolding report
  report-FailsClosed view req loaded h = elim (Option-cases loaded.doc) [
    | inl e ↦ rw (e, report) (refused-FailsClosed view loaded.diagnostics (h (rw e)))
    | inr (doc, e) ↦ elim (Bool-cases (any is_error loaded.diagnostics)) [
      | inl f ↦
          rw (e, f, report)
            (refused-FailsClosed view loaded.diagnostics
              (ground (arith, f, any-is_error loaded.diagnostics)))
      | inr f ↦
          rw (e, f, report)
            (evaluated-FailsClosed view req doc loaded.diagnostics
              (ground (arith, f, any-is_error loaded.diagnostics)))
    ]
  ]

  pub validate_policy-judged :
      (path : String) (root : json.Value)
      → is_some (validate_policy json path root).value ≡ false
      → eqb (errors (validate_policy json path root).diags) 0 ≡ false
  unfolding validate_policy read_policy
  validate_policy-judged path root h = elim (Option-cases (json.as_object root)) [
    | inl e ↦ rw (e, validate_policy) (unfold error_diagnostic new_diagnostic in refl)
    | inr (fields, e) ↦
        let read : is_some (read_policy json path fields).value ≡ false =
          rw (e, validate_policy) at h in
        absurd (cc read)
  ]

  load_text-IsJudged :
      ((text : String) (d : Diagnostic) → parse_jsonc text ≡ inr d → is_error d ≡ true)
      → (text : String) → IsJudged (load_text json parse_jsonc text)
  unfolding load_text
  load_text-IsJudged reports text = elim (Sum-cases (parse_jsonc text)) [
    | inl (root, e) ↦
        rw (e, load_text)
          (λ none_read.
            let judged = validate_policy-judged policy_path root none_read in
            let diags = (validate_policy json policy_path root).diags in
            rw (errors-sort diags, judged))
    | inr (d, e) ↦ rw (e, load_text) (λ none_read. ground (arith, reports text d e))
  ]

  -- If every diagnostic of the JSONC reader is an error, then a policy command's report is marked
  -- as ok, and gives the verdicts of its view, exactly if none of its diagnostics is an error,
  -- whatever the file holds.
  pub run-FailsClosed :
      (reports : (text : String) (d : Diagnostic) → parse_jsonc text ≡ inr d → is_error d ≡ true)
      (view : View) (req : EvalRequest) (file : ReadFile) (r : PolicyReport)
      → run json parse_jsonc view req file ≡ done r
      → FailsClosed view r
  unfolding run load
  run-FailsClosed reports view req (found text) r h =
      let same : report json parse_jsonc view req (load_text json parse_jsonc text) ≡ r = cc h in
      rw (← same) (
        report-FailsClosed view req (load_text json parse_jsonc text)
          (load_text-IsJudged reports text))
  run-FailsClosed reports view req not_found r h =
      let message = concat ("policy evaluation requires " ∷ policy_path ∷ []) in
      let missing = error_diagnostic module_missing policy_path message ∷ [] in
      let same : refused json parse_jsonc view missing ≡ r = unfold report in cc h in
      rw (← same) (
        refused-FailsClosed view missing
          (ground (arith, error_counts module_missing policy_path message)))
  run-FailsClosed reports view req unreadable r h = cc h

  -- If the text is read as a policy document without errors, then the command returns, with the
  -- verdicts of the evaluation that its view shows.
  pub run-evaluate :
      (view : View) (req : EvalRequest) (text : String) (root : json.Value) (doc : PolicyDoc)
      → parse_jsonc text ≡ inl root
      → (validate_policy json policy_path root).value ≡ some doc
      → errors (validate_policy json policy_path root).diags ≡ 0
      → (r : PolicyReport) × (run json parse_jsonc view req (found text) ≡ done r)
        × (r.decision ≡ then_some (includes_decision view) (evaluate doc req).decision)
        × (r.placement ≡ then_some (includes_placement view) (evaluate doc req).placement)
  unfolding run load report load_text
  run-evaluate view req text root doc e f h =
      let diags = sort_diagnostics (validate_policy json policy_path root).diags in
      let clean : any is_error diags ≡ false =
        ground (
          arith,
          h,
          any-is_error diags,
          errors-sort (validate_policy json policy_path root).diags,
        ) in
      let read : PolicyLoad = record { doc = some doc; diagnostics = diags } in
      let loaded : load_text json parse_jsonc text ≡ read = rw (load_text, e, f) in
      (
        evaluated json parse_jsonc view req doc diags,
        rw (loaded, clean),
        unfold evaluated in refl,
        unfold evaluated in refl,
      )
