-- ===== src/Policy/Sameness.antt =====
-- `evaluate` looks at the classes and variables of a request as sets, and a rule that decides is
-- only ever overruled by a stricter verdict when classes are added.
use nopal.Prelude.{
  String, Bool, ◌||◌, ◌≡◌, refl, fun_ext, Option, none, List, [], ◌∷◌, arith, if◌then◌else◌, any,
  any-find, is_some, contains,
}
use nopal.Prelude.Sets.{SameSet, any-SameSet}
use nopal.Policy.Vocabulary.{
  Mode, ActionClass, Decision, Placement, max_decision, max_placement, builtin_default_decision,
  builtin_default_placement,
}
use nopal.Policy.Doc.{Rule, PolicyDoc, EvalRequest}
use nopal.Policy.Evaluate.{
  mode_policy, via_of, match_rules, max_rule_decision, max_rule_placement, later_decision,
  later_placement, base_decision, base_placement, first_set, rules_of, configured_decision,
  configured_placement, evaluate,
}
use nopal.Policy.Floors.{floor_decision, floor_placement, is_denied, is_destructive, is_isolated}
use nopal.Policy.Verdicts.{evaluate_floors}
use nopal.Policy.Rules.{base-decision, base-placement}
use nopal.Policy.Membership.{contains-classes, classified}

-- A rule matches by its actions, or by a class of its own that is effective.
abbrev pub matches : String → List ActionClass → Rule → Bool
matches action classes r = contains r.actions action || any (contains classes) r.classes

is_some-via_of :
    (action : String) (classes : List ActionClass) (r : Rule)
    → is_some (via_of action classes r) ≡ matches action classes r
unfolding via_of
is_some-via_of action classes r = ground (arith, any-find (contains classes) r.classes)

-- The decisions of the rules that match.
unfoldable pub decisions : String → List ActionClass → List Rule → Option Decision
decisions action classes [] = none
decisions action classes (r ∷ rest) =
    if matches action classes r
    then later_decision r.decision (decisions action classes rest)
    else decisions action classes rest

pub max_rule_decision-match_rules :
    (action : String) (classes : List ActionClass) (rules : List Rule)
    → max_rule_decision (match_rules action classes rules) ≡ decisions action classes rules
unfolding match_rules max_rule_decision decisions
max_rule_decision-match_rules action classes [] = refl
max_rule_decision-match_rules action classes (r ∷ rules) =
    ground
      (arith, max_rule_decision-match_rules action classes rules, is_some-via_of action classes r)

placements : String → List ActionClass → List Rule → Option Placement
placements action classes [] = none
placements action classes (r ∷ rest) =
    if matches action classes r
    then later_placement r.placement (placements action classes rest)
    else placements action classes rest

max_rule_placement-match_rules :
    (action : String) (classes : List ActionClass) (rules : List Rule)
    → max_rule_placement (match_rules action classes rules) ≡ placements action classes rules
unfolding match_rules max_rule_placement placements
max_rule_placement-match_rules action classes [] = refl
max_rule_placement-match_rules action classes (r ∷ rules) =
    ground
      (arith, max_rule_placement-match_rules action classes rules, is_some-via_of action classes r)

module _ (action : String) (xs ys : List ActionClass) (same : SameSet xs ys) where
  matches-SameSet : (r : Rule) → matches action xs r ≡ matches action ys r
  matches-SameSet r = rw (fun_ext same)

  decisions-SameSet : (rules : List Rule) → decisions action xs rules ≡ decisions action ys rules
  unfolding decisions
  decisions-SameSet [] = refl
  decisions-SameSet (r ∷ rules) = ground (arith, matches-SameSet r, decisions-SameSet rules)

  placements-SameSet : (rules : List Rule) → placements action xs rules ≡ placements action ys rules
  unfolding placements
  placements-SameSet [] = refl
  placements-SameSet (r ∷ rules) = ground (arith, matches-SameSet r, placements-SameSet rules)

-- The verdict as a function of the effective classes.
verdict_decision : PolicyDoc → Mode → String → List ActionClass → Decision
verdict_decision doc mode action classes =
    max_decision
      (first_set (decisions action classes (rules_of (mode_policy doc mode)))
        (configured_decision (mode_policy doc mode)) (builtin_default_decision mode)).0
      (floor_decision action classes)

verdict_placement : PolicyDoc → Mode → String → List ActionClass → Placement
verdict_placement doc mode action classes =
    max_placement
      (first_set (placements action classes (rules_of (mode_policy doc mode)))
        (configured_placement (mode_policy doc mode)) (builtin_default_placement mode)).0
      (floor_placement action classes)

module _ (doc : PolicyDoc) (req : EvalRequest) where
  evaluate-decision :
      (evaluate doc req).decision
      ≡ verdict_decision doc req.mode req.action (evaluate doc req).classes
  evaluate-decision =
      rw ((evaluate_floors doc req).0, base-decision)
        (unfold verdict_decision base_decision evaluate in rw max_rule_decision-match_rules)

  evaluate-placement :
      (evaluate doc req).placement
      ≡ verdict_placement doc req.mode req.action (evaluate doc req).classes
  evaluate-placement =
      rw ((evaluate_floors doc req).1, base-placement)
        (unfold verdict_placement base_placement evaluate in rw max_rule_placement-match_rules)

module _ (xs ys : List ActionClass) (same : SameSet xs ys) where
  floor_decision-SameSet : (action : String) → floor_decision action xs ≡ floor_decision action ys
  floor_decision-SameSet action = rw (any-SameSet is_denied xs ys same)

  floor_placement-SameSet :
      (action : String) → floor_placement action xs ≡ floor_placement action ys
  floor_placement-SameSet action =
      rw (any-SameSet is_destructive xs ys same, any-SameSet is_isolated xs ys same)

  verdict-SameSet :
      (doc : PolicyDoc) (mode : Mode) (action : String)
      → (verdict_decision doc mode action xs ≡ verdict_decision doc mode action ys)
        × (verdict_placement doc mode action xs ≡ verdict_placement doc mode action ys)
  unfolding verdict_decision verdict_placement
  verdict-SameSet doc mode action =
      let rules = rules_of (mode_policy doc mode) in
      (
        rw (decisions-SameSet action xs ys same rules, floor_decision-SameSet action),
        rw (placements-SameSet action xs ys same rules, floor_placement-SameSet action),
      )

module _ (doc : PolicyDoc) (a b : EvalRequest) where
  classes-SameSet :
      SameSet a.classes b.classes
      → SameSet a.env b.env
      → SameSet (evaluate doc a).classes (evaluate doc b).classes
  classes-SameSet same_classes same_env y = rw (
    contains-classes,
    contains-classes,
    same_classes y,
    any-SameSet (classified doc y) a.env b.env same_env,
  )

  -- Two requests with the same mode and action, whose declared classes and referenced variables
  -- are the same sets, get the same decision and the same placement: neither the order nor a
  -- repetition matters.
  pub evaluate_order :
      a.mode ≡ b.mode
      → a.action ≡ b.action
      → SameSet a.classes b.classes
      → SameSet a.env b.env
      → ((evaluate doc a).decision ≡ (evaluate doc b).decision)
        × ((evaluate doc a).placement ≡ (evaluate doc b).placement)
  evaluate_order mode action classes env =
      let (d, p) =
        verdict-SameSet (evaluate doc a).classes (evaluate doc b).classes
          (classes-SameSet classes env) doc b.mode b.action in
      (
        cc (evaluate-decision doc a, evaluate-decision doc b, d),
        cc (evaluate-placement doc a, evaluate-placement doc b, p),
      )
