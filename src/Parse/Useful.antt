-- ===== src/Parse/Useful.antt =====
-- A rule of a policy document that adds no error matches something and has an effect.
use nopal.Prelude.{
  ℕ, suc, ◌≤◌, eqb, String, true, false, not, ◌&&◌, ◌||◌, ◌≡◌, refl, ap, ◌∙◌, Option, none, some,
  List, [], ◌∷◌, ◌++◌, arith, if◌then◌else◌, is_empty, is_some, length, concat, Bool-cases,
  Option-cases, inl, inr,
}
use nopal.Json.{Json, contains_key, and_then}
use nopal.Diagnostics.Report.{Diagnostic, error_diagnostic, new_diagnostic}
use nopal.Policy.Vocabulary.{Decision, Placement, parse_decision, parse_placement}
use nopal.Policy.Doc.{Rule}
use nopal.Parse.Lists.{Filled, parse_class_list, parse_action_list}
use nopal.Parse.Rules.{
  Parsed, complain, parse_decision_field, parse_placement_field, check_matchers, check_effect,
}
use nopal.Diagnostics.Errors.{is_error, errors, errors-added, errors-grow}
use nopal.Parse.Effective.{Silent, parse_class_list-Silent, parse_action_list-Silent}

-- The rule names a class or an action, and decides or places.
abbrev pub IsUseful : Option Rule → Type 0
IsUseful none = Unit
IsUseful (some rule) =
    ((is_empty rule.classes && is_empty rule.actions) ≡ false)
    × ((is_some rule.decision || is_some rule.placement) ≡ true)

no_growth :
    (diags : List Diagnostic) (d : Diagnostic)
    → is_error d ≡ true
    → errors (diags ++ d ∷ []) ≤ errors diags
    → ⊥
no_growth diags d e h = omega (arith, h, errors-added diags d e)

module _ (json : Json) (path : String) where
  errors-complain :
      (message : String) (diags : List Diagnostic)
      → errors (complain json path message diags) ≡ suc (errors diags)
  unfolding error_diagnostic new_diagnostic
  errors-complain message diags = errors-added diags (error_diagnostic _ path message) refl

  -- A field that is present is read, or it adds an error.
  abbrev Reads : {A : Type 0} → List Diagnostic → Option json.Value → Parsed A → Type 0
  Reads diags field r =
      (errors diags ≤ errors r.diags)
      × (errors r.diags ≤ errors diags → is_some field ≡ is_some r.value)

  decision-Reads :
      (name : String) (field : Option json.Value) (diags : List Diagnostic)
      → Reads diags field (parse_decision_field json path name field diags)
  unfolding parse_decision_field error_diagnostic new_diagnostic
  decision-Reads name none diags = (omega arith, λ h. refl)
  decision-Reads name (some value) diags =
      elim (Option-cases (and_then (json.as_str value) parse_decision)) [
        | inl e ↦
            rw (e, parse_decision_field)
              (errors-grow diags _, λ h. absurd (no_growth diags _ refl h))
        | inr (d, e) ↦ rw (e, parse_decision_field) (omega arith, λ h. refl)
      ]

  placement-Reads :
      (name : String) (field : Option json.Value) (diags : List Diagnostic)
      → Reads diags field (parse_placement_field json path name field diags)
  unfolding parse_placement_field error_diagnostic new_diagnostic
  placement-Reads name none diags = (omega arith, λ h. refl)
  placement-Reads name (some value) diags =
      elim (Option-cases (and_then (json.as_str value) parse_placement)) [
        | inl e ↦
            rw (e, parse_placement_field)
              (errors-grow diags _, λ h. absurd (no_growth diags _ refl h))
        | inr (d, e) ↦ rw (e, parse_placement_field) (omega arith, λ h. refl)
      ]

  check_matchers-errors :
      (ctx : String) (before : ℕ) (classes actions : Filled)
      → errors (check_matchers json path ctx before classes actions) ≡ (
          if is_empty classes.items && is_empty actions.items && eqb (length actions.diags) before
          then suc (errors actions.diags)
          else errors actions.diags)
  unfolding check_matchers
  check_matchers-errors ctx before classes actions =
      elim (Bool-cases
        (is_empty classes.items && is_empty actions.items && eqb (length actions.diags) before)) [
          | inl e ↦ rw e (errors-complain _ actions.diags)
          | inr e ↦ rw e refl
        ]

  check_effect-errors :
      (ctx : String) (object : json.Object) (diags : List Diagnostic)
      → errors (check_effect json path ctx object diags) ≡ (
          if is_some (json.get object "decision") || is_some (json.get object "placement")
          then errors diags
          else suc (errors diags))
  unfolding check_effect
  check_effect-errors ctx object diags =
      elim (Bool-cases
        (not (contains_key json object "decision") && not (contains_key json object "placement"))) [
          | inl e ↦ rw e (errors-complain _ diags ∙ ground (arith, e))
          | inr e ↦ rw e (ground (arith, e))
        ]

  -- If both lists are empty and no error was added, then nothing was said at all.
  said_nothing :
      (classes actions : Filled) (diags : List Diagnostic)
      → Silent (record { items = []; diags = diags }) classes
      → Silent (record { items = []; diags = classes.diags }) actions
      → (is_empty classes.items && is_empty actions.items) ≡ true
      → errors actions.diags ≤ errors diags
      → actions.diags ≡ diags
  said_nothing classes actions diags (c_le, c) (a_le, a) e h =
      let (unit_a, sa) = a (ground (arith, e)) in
      let (unit_c, sc) = c (ground (arith, e)) in
      elim sa [
        | inr more ↦ absurd (omega (arith, more, h, c_le))
        | inl same_a ↦ elim sc [
          | inr more ↦ absurd (omega (arith, more, h, a_le))
          | inl same_c ↦ same_a ∙ same_c
        ]
      ]

  module _ (ctx : String) (object : json.Object) (id : String) (diags : List Diagnostic) where
    abbrev decision : Parsed Decision
    decision =
        parse_decision_field json path (concat (ctx ∷ ".decision" ∷ []))
          (json.get object "decision") diags

    abbrev placement : Parsed Placement
    placement =
        parse_placement_field json path (concat (ctx ∷ ".placement" ∷ []))
          (json.get object "placement") decision.diags

    abbrev classes : Filled
    classes = parse_class_list json ctx path (json.get object "classes") placement.diags

    abbrev actions : Filled
    actions = parse_action_list json ctx path (json.get object "actions") classes.diags

    abbrev checked : List Diagnostic
    checked = check_matchers json path ctx (length placement.diags) classes actions

    abbrev last : List Diagnostic
    last = check_effect json path ctx object checked

    -- No step takes an error back.
    steps_grow :
        (errors diags ≤ errors decision.diags)
        × (errors decision.diags ≤ errors placement.diags)
        × (errors placement.diags ≤ errors actions.diags)
        × (errors actions.diags ≤ errors checked)
        × (errors checked ≤ errors last)
    steps_grow = (
      (decision-Reads (concat (ctx ∷ ".decision" ∷ [])) (json.get object "decision") diags).0,
      (placement-Reads (concat (ctx ∷ ".placement" ∷ [])) (json.get object "placement")
          decision.diags).0,
      omega (
        arith,
        (parse_class_list-Silent json ctx path (json.get object "classes") placement.diags).0,
        (parse_action_list-Silent json ctx path (json.get object "actions") classes.diags).0,
      ),
      ground (arith, check_matchers-errors ctx (length placement.diags) classes actions),
      ground (arith, check_effect-errors ctx object checked),
    )

    pub matches_something :
        errors last ≤ errors diags → (is_empty classes.items && is_empty actions.items) ≡ false
    matches_something h =
        let (g1, g2, g3, g4, g5) = steps_grow in
        elim (Bool-cases (is_empty classes.items && is_empty actions.items)) [
          | inr e ↦ e
          | inl e ↦
              let same =
                said_nothing classes actions placement.diags
                  (parse_class_list-Silent json ctx path (json.get object "classes")
                    placement.diags)
                  (parse_action_list-Silent json ctx path (json.get object "actions") classes.diags)
                  e (omega (arith, h, g1, g2, g4, g5)) in
              ground (
                arith,
                e,
                ap length same,
                check_matchers-errors ctx (length placement.diags) classes actions,
                h,
                g1,
                g2,
                g3,
                g5,
              )
        ]

    pub has_effect :
        errors last ≤ errors diags → (is_some decision.value || is_some placement.value) ≡ true
    has_effect h =
        let (g1, g2, g3, g4, g5) = steps_grow in
        ground (
          arith,
          (decision-Reads (concat (ctx ∷ ".decision" ∷ [])) (json.get object "decision") diags).1
              (omega (arith, h, g2, g3, g4, g5)),
          (placement-Reads (concat (ctx ∷ ".placement" ∷ [])) (json.get object "placement")
                decision.diags).1
              (omega (arith, h, g1, g3, g4, g5)),
          check_effect-errors ctx object checked,
          h,
          g1,
          g2,
          g3,
          g4,
        )
