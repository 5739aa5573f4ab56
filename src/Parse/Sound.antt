-- ===== src/Parse/Sound.antt =====
-- `parse_rule` of policy.rs, whole: a rule that adds no error matches something and has an effect.
use nopal.Prelude.{
  ◌≤◌, String, Option, some, List, [], ◌∷◌, ◌==◌, arith, Bool-cases, Option-cases, inl, inr,
}
use nopal.Json.{Json, and_then}
use nopal.Diagnostics.Report.{Diagnostic}
use nopal.Parse.Rules.{warn_unknown_keys, parse_rule_fields, parse_rule_object, parse_rule}
use nopal.Diagnostics.Errors.{errors, errors-append}
use nopal.Parse.Useful.{IsUseful, matches_something, has_effect}

module _ (json : Json) (path : String) where
  warn-errors :
      (object : json.Object) (allowed : List String) (ctx : Option String) (diags : List Diagnostic)
      → errors diags ≤ errors (warn_unknown_keys json path object allowed ctx diags)
  unfolding warn_unknown_keys
  warn-errors object allowed ctx diags = omega (arith, errors-append diags _)

  parse_rule_fields-IsUseful :
      (ctx : String) (object : json.Object) (id : String) (diags : List Diagnostic)
      → errors (parse_rule_fields json path ctx object id diags).diags ≤ errors diags
      → IsUseful (parse_rule_fields json path ctx object id diags).value
  unfolding parse_rule_fields
  parse_rule_fields-IsUseful ctx object id diags h = (
    matches_something json path ctx object id diags h,
    has_effect json path ctx object id diags h,
  )

  parse_rule_object-IsUseful :
      (ctx : String) (object : json.Object) (diags : List Diagnostic)
      → errors (parse_rule_object json path ctx object diags).diags ≤ errors diags
      → IsUseful (parse_rule_object json path ctx object diags).value
  unfolding parse_rule_object
  parse_rule_object-IsUseful ctx object diags h =
      elim (Option-cases (and_then (json.get object "id") json.as_str)) [
        | inl e ↦ rw (e, parse_rule_object) tt
        | inr (id, e) ↦ elim (Bool-cases (id == "")) [
          | inl blank ↦ rw (e, parse_rule_object, blank) tt
          | inr named ↦
              rw (e, parse_rule_object, named)
                (parse_rule_fields-IsUseful ctx object id diags
                  (rw (e, parse_rule_object, named) at h))
        ]
      ]

  -- A rule that is read without adding an error names a class or an action, and decides or places.
  parse_rule-IsUseful :
      (value : json.Value) (ctx : String) (diags : List Diagnostic)
      → errors (parse_rule json path value ctx diags).diags ≤ errors diags
      → IsUseful (parse_rule json path value ctx diags).value
  unfolding parse_rule
  parse_rule-IsUseful value ctx diags h = elim (Option-cases (json.as_object value)) [
    | inl e ↦ rw (e, parse_rule) tt
    | inr (object, e) ↦
        rw (e, parse_rule)
          (let allowed : List String =
              "id" ∷ "decision" ∷ "placement" ∷ "classes" ∷ "actions" ∷ "reason" ∷ [] in
            parse_rule_object-IsUseful ctx object
              (warn_unknown_keys json path object allowed (some ctx) diags)
              (omega (arith, rw (e, parse_rule) at h, warn-errors object allowed (some ctx) diags)))
  ]
