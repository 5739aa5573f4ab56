-- ===== src/Policy/Verdicts.antt =====
-- What `evaluate` answers, from the verdict of the rules and defaults and the safety floors.
use nopal.Prelude.{String, false, ◌≡◌, arith, ◌==◌, if◌then◌else◌, any, Bool-cases, inl, inr}
use nopal.Policy.Vocabulary.{max_decision, max_placement}
use nopal.Policy.Doc.{PolicyDoc, safety_floor, EvalRequest, Evaluation}
use nopal.Policy.Classes.{effective}
use nopal.Policy.Evaluate.{Verdict, action_floor, base_verdict, evaluate}
use nopal.Policy.Floors.{
  is_denied, is_destructive, is_isolated, floor_decision, floor_placement, deny_if, place_if,
  class_floors-decision, class_floors-placement, class_floors-decision_source,
  class_floors-placement_source, decision_source_after, placement_source_after, max_deny_if,
  max_place_if, max_decision-allow, max_placement-shared,
}

module _ (action : String) (v : Verdict) where
  action_floor-decision :
      (action_floor action v).decision
      ≡ max_decision v.decision (deny_if (action == "git.push_force"))
  unfolding action_floor
  action_floor-decision = ground (arith, max_decision-allow v.decision)

  action_floor-placement :
      (action_floor action v).placement
      ≡ max_placement v.placement (place_if (action == "git.push_force") false)
  unfolding action_floor
  action_floor-placement = ground (arith, max_placement-shared v.placement)

module _ (doc : PolicyDoc) (req : EvalRequest) where
  abbrev pub result : Evaluation
  result = evaluate doc req

  abbrev pub base : Verdict
  base = base_verdict doc req

  decision-floor :
      result.decision ≡ max_decision base.decision (floor_decision req.action result.classes)
  unfolding evaluate
  decision-floor =
      rw (class_floors-decision, action_floor-decision)
        (max_deny_if base.decision (req.action == "git.push_force")
          (any is_denied (effective doc req).classes))

  placement-floor :
      result.placement ≡ max_placement base.placement (floor_placement req.action result.classes)
  unfolding evaluate
  placement-floor =
      let classes = (effective doc req).classes in
      rw (class_floors-placement, action_floor-placement)
        (max_place_if base.placement (req.action == "git.push_force") (any is_destructive classes)
          false (any is_isolated classes))

  -- The decision is the stricter of what the rules and defaults decide and of the floor of the
  -- action and its effective classes. The placement is the stronger of the two in the same way.
  pub evaluate_floors :
      (result.decision ≡ max_decision base.decision (floor_decision req.action result.classes))
      × (result.placement
          ≡ max_placement base.placement (floor_placement req.action result.classes))
  evaluate_floors = (decision-floor, placement-floor)

  decision_source-floor : result.decision_source ≡ (
      if req.action == "git.push_force"
      then safety_floor
      else decision_source_after base.decision result.decision base.decision_source)
  unfolding evaluate action_floor
  decision_source-floor = elim (Bool-cases (req.action == "git.push_force")) [
    | inl e ↦ rw (class_floors-decision_source, e) (ground arith)
    | inr e ↦ rw (class_floors-decision_source, class_floors-decision, e)
  ]

  placement_source-floor : result.placement_source ≡ (
      if req.action == "git.push_force"
      then safety_floor
      else placement_source_after base.placement result.placement base.placement_source)
  unfolding evaluate action_floor
  placement_source-floor = elim (Bool-cases (req.action == "git.push_force")) [
    | inl e ↦ rw (class_floors-placement_source, e) (ground arith)
    | inr e ↦ rw (class_floors-placement_source, class_floors-placement, e)
  ]

  -- The source of the decision is the safety floor if the action is a forced push or the floor
  -- made the decision stricter, and otherwise the source of the rules and defaults. The same holds
  -- of the placement.
  pub evaluate_sources :
      (result.decision_source ≡ (
        if req.action == "git.push_force"
        then safety_floor
        else decision_source_after base.decision result.decision base.decision_source))
      × (result.placement_source ≡ (
          if req.action == "git.push_force"
          then safety_floor
          else placement_source_after base.placement result.placement base.placement_source))
  evaluate_sources = (decision_source-floor, placement_source-floor)
