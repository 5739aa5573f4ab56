-- ===== src/Policy/Rules.antt =====
-- The decision of the matched rules: the strictest one, and never a laxer verdict.
use nopal.Prelude.{◌≡◌, refl, ◌≤◌, Option, none, some, List, [], ◌∷◌, arith, All}
use nopal.Policy.Vocabulary.{
  Mode, Decision, Placement, decision_rank, placement_rank, max_decision, max_placement,
}
use nopal.Policy.Doc.{ModePolicy, PolicyDoc, EvalRequest, MatchedRule, Evaluation}
use nopal.Policy.Evaluate.{
  mode_policy, later_decision, later_placement, max_rule_decision, max_rule_placement,
  base_decision, base_placement, base_verdict, evaluate, Verdict,
}
use nopal.Policy.Floors.{floor_decision, floor_placement}
use nopal.Policy.Verdicts.{evaluate_floors}

-- A rule asks for no more than the verdict gives.
abbrev pub DecisionWithin : Option Decision → Decision → Type 0
DecisionWithin none e = Unit {0}
DecisionWithin (some d) e = decision_rank d ≤ decision_rank e

abbrev pub PlacementWithin : Option Placement → Placement → Type 0
PlacementWithin none e = Unit {0}
PlacementWithin (some p) e = placement_rank p ≤ placement_rank e

abbrev pub AtMost : Evaluation → MatchedRule → Type 0
AtMost e m = DecisionWithin m.decision e.decision × PlacementWithin m.placement e.placement

max_decision_left : (a b : Decision) → decision_rank a ≤ decision_rank (max_decision a b)
unfolding max_decision
max_decision_left a b = ground arith

max_decision_right : (a b : Decision) → decision_rank b ≤ decision_rank (max_decision a b)
unfolding max_decision
max_decision_right a b = ground arith

max_placement_left : (a b : Placement) → placement_rank a ≤ placement_rank (max_placement a b)
unfolding max_placement
max_placement_left a b = ground arith

max_placement_right : (a b : Placement) → placement_rank b ≤ placement_rank (max_placement a b)
unfolding max_placement
max_placement_right a b = ground arith

later_decision-within :
    (a b : Option Decision) (e : Decision)
    → DecisionWithin (later_decision a b) e
    → DecisionWithin a e × DecisionWithin b e
later_decision-within none b e h = (tt, h)
later_decision-within (some d) none e h = (h, tt)
later_decision-within (some d) (some d') e h =
    omega (arith, max_decision_left d d', max_decision_right d d')

later_placement-within :
    (a b : Option Placement) (e : Placement)
    → PlacementWithin (later_placement a b) e
    → PlacementWithin a e × PlacementWithin b e
later_placement-within none b e h = (tt, h)
later_placement-within (some p) none e h = (h, tt)
later_placement-within (some p) (some p') e h =
    omega (arith, max_placement_left p p', max_placement_right p p')

max_rules-AtMost :
    (ms : List MatchedRule) (e : Evaluation)
    → DecisionWithin (max_rule_decision ms) e.decision
    → PlacementWithin (max_rule_placement ms) e.placement
    → All (AtMost e) ms
unfolding max_rule_decision max_rule_placement
max_rules-AtMost [] e h k = tt
max_rules-AtMost (m ∷ ms) e h k =
    let (h1, h2) = later_decision-within m.decision (max_rule_decision ms) e.decision h in
    let (k1, k2) = later_placement-within m.placement (max_rule_placement ms) e.placement k in
    ((h1, k1), max_rules-AtMost ms e h2 k2)

module _ (ms : List MatchedRule) (policy : Option ModePolicy) (mode : Mode) where
  base_decision-within : DecisionWithin (max_rule_decision ms) (base_decision ms policy mode).0
  unfolding base_decision
  base_decision-within = ground arith

  base_placement-within : PlacementWithin (max_rule_placement ms) (base_placement ms policy mode).0
  unfolding base_placement
  base_placement-within = ground arith

DecisionWithin-trans :
    (o : Option Decision) (d e : Decision)
    → DecisionWithin o d
    → decision_rank d ≤ decision_rank e
    → DecisionWithin o e
DecisionWithin-trans none d e h k = tt
DecisionWithin-trans (some c) d e h k = omega arith

PlacementWithin-trans :
    (o : Option Placement) (d e : Placement)
    → PlacementWithin o d
    → placement_rank d ≤ placement_rank e
    → PlacementWithin o e
PlacementWithin-trans none d e h k = tt
PlacementWithin-trans (some c) d e h k = omega arith

module _ (doc : PolicyDoc) (req : EvalRequest) where
  abbrev result : Evaluation
  result = evaluate doc req

  abbrev base : Verdict
  base = base_verdict doc req

  pub base-decision :
      base.decision ≡ (base_decision result.matched_rules (mode_policy doc req.mode) req.mode).0
  unfolding base_verdict evaluate
  base-decision = refl

  pub base-placement :
      base.placement ≡ (base_placement result.matched_rules (mode_policy doc req.mode) req.mode).0
  unfolding base_verdict evaluate
  base-placement = refl

  base-le-decision : decision_rank base.decision ≤ decision_rank result.decision
  base-le-decision =
      rw (evaluate_floors doc req).0
        (max_decision_left base.decision (floor_decision req.action result.classes))

  base-le-placement : placement_rank base.placement ≤ placement_rank result.placement
  base-le-placement =
      rw (evaluate_floors doc req).1
        (max_placement_left base.placement (floor_placement req.action result.classes))

  pub max_rule-within : DecisionWithin (max_rule_decision result.matched_rules) result.decision
  max_rule-within =
      let ms = result.matched_rules in
      DecisionWithin-trans (max_rule_decision ms) base.decision result.decision
        (rw base-decision (base_decision-within ms (mode_policy doc req.mode) req.mode))
        base-le-decision

  -- The most restrictive matched rule wins: no rule that matched decides more strictly, or places
  -- more strongly, than the verdict, whatever the defaults and the floors are.
  pub evaluate_strictest : All (AtMost result) result.matched_rules
  evaluate_strictest =
      let ms = result.matched_rules in
      let policy = mode_policy doc req.mode in
      max_rules-AtMost ms result max_rule-within (
        PlacementWithin-trans (max_rule_placement ms) base.placement result.placement
          (rw base-placement (base_placement-within ms policy req.mode)) base-le-placement)
