-- ===== src/Policy/Monotone.antt =====
-- More classes or variables never relax a decision that a rule or a safety floor made.
use nopal.Prelude.{
  ℕ, suc, String, true, ◌≡◌, ◌≢◌, refl, ap, subst, ◌∙◌, ◌≤◌, Option, none, some, List, [], ◌∷◌,
  arith, any_imp, contains, inl, inr, Some,
}
use nopal.Prelude.Sets.{IsSubset, any_mono}
use nopal.Policy.Vocabulary.{ActionClass, Decision, deny, decision_rank, max_decision}
use nopal.Policy.Doc.{
  Rule, PolicyDoc, Source, rule, mode_default, builtin_default, safety_floor, EvalRequest,
  MatchedRule,
}
use nopal.Policy.Evaluate.{
  mode_policy, rules_of, later_decision, max_rule_decision, base_verdict, evaluate,
}
use nopal.Policy.Floors.{floor_decision, is_denied}
use nopal.Policy.Verdicts.{evaluate_floors}
use nopal.Policy.Rules.{DecisionWithin, max_rule-within}
use nopal.Policy.Explained.{evaluate_explained, DecisionExplained, max_decision-deny}
use nopal.Policy.Membership.{contains-classes, classified}
use nopal.Policy.Sameness.{matches, decisions, max_rule_decision-match_rules}

abbrev option_rank : Option Decision → ℕ
option_rank none = 0
option_rank (some d) = suc (decision_rank d)

later_decision_mono :
    (o : Option Decision) (a b : Option Decision)
    → option_rank a ≤ option_rank b
    → option_rank (later_decision o a) ≤ option_rank (later_decision o b)
unfolding max_decision
later_decision_mono o a b h = ground arith

later_decision-grows :
    (o : Option Decision) (a : Option Decision) → option_rank a ≤ option_rank (later_decision o a)
unfolding max_decision
later_decision-grows o a = ground arith

later_decision-first :
    (o : Option Decision) (a : Option Decision) → option_rank o ≤ option_rank (later_decision o a)
unfolding max_decision
later_decision-first o a = ground arith

module _ (action : String) (xs ys : List ActionClass) (sub : IsSubset xs ys) where
  matches_mono : (r : Rule) → matches action xs r ≡ true → matches action ys r ≡ true
  matches_mono r h = ground (arith, h, any_imp (contains xs) (contains ys) sub r.classes)

  decisions_mono :
      (rules : List Rule)
      → option_rank (decisions action xs rules) ≤ option_rank (decisions action ys rules)
  unfolding decisions
  decisions_mono [] = omega arith
  decisions_mono (r ∷ rules) = ground (
    arith,
    matches_mono r,
    decisions_mono rules,
    later_decision_mono r.decision (decisions action xs rules) (decisions action ys rules),
    later_decision-grows r.decision (decisions action ys rules),
  )

rank-le-max_rule :
    (ms : List MatchedRule) (d : Decision)
    → Some (λ m. m.decision ≡ some d) ms
    → suc (decision_rank d) ≤ option_rank (max_rule_decision ms)
unfolding max_rule_decision
rank-le-max_rule [] d h = elim h [ ]
rank-le-max_rule (m ∷ ms) d (inl here) =
    ground (arith, later_decision-first m.decision (max_rule_decision ms))
rank-le-max_rule (m ∷ ms) d (inr later) =
    omega
      (arith, rank-le-max_rule ms d later, later_decision-grows m.decision (max_rule_decision ms))

option_rank-within :
    (o : Option Decision) (e : Decision)
    → DecisionWithin o e
    → option_rank o ≤ suc (decision_rank e)
option_rank-within none e h = omega arith
option_rank-within (some d) e h = omega arith

matched-decisions :
    (doc : PolicyDoc) (req : EvalRequest)
    → max_rule_decision (evaluate doc req).matched_rules
      ≡ decisions req.action (evaluate doc req).classes (rules_of (mode_policy doc req.mode))
unfolding evaluate
matched-decisions doc req =
    max_rule_decision-match_rules req.action (evaluate doc req).classes
      (rules_of (mode_policy doc req.mode))

floor_decision_mono :
    (action : String) (xs ys : List ActionClass)
    → IsSubset xs ys
    → floor_decision action xs ≡ deny
    → floor_decision action ys ≡ deny
floor_decision_mono action xs ys sub h = ground (arith, h, any_mono is_denied xs ys sub)

deny-max : (d : Decision) → decision_rank d ≤ decision_rank deny
deny-max d = ground arith

module _ (doc : PolicyDoc) (a b : EvalRequest) (mode : a.mode ≡ b.mode)
    (action : a.action ≡ b.action) (more_classes : IsSubset a.classes b.classes)
    (more_env : IsSubset a.env b.env) where
  classes-IsSubset : IsSubset (evaluate doc a).classes (evaluate doc b).classes
  classes-IsSubset y h = ground (
    arith,
    contains-classes doc a y,
    contains-classes doc b y,
    more_classes y,
    any_mono (classified doc y) a.env b.env more_env,
  )

  matched_mono :
      option_rank (max_rule_decision (evaluate doc a).matched_rules)
      ≤ option_rank (max_rule_decision (evaluate doc b).matched_rules)
  matched_mono =
      let xs = (evaluate doc a).classes in
      let ys = (evaluate doc b).classes in
      let rules = rules_of (mode_policy doc b.mode) in
      let e : max_rule_decision (evaluate doc a).matched_rules ≡ decisions b.action xs rules =
        cc (matched-decisions doc a) in
      omega (
        arith,
        ap option_rank e,
        ap option_rank (matched-decisions doc b),
        decisions_mono b.action xs ys classes-IsSubset rules,
      )

  decision_mono :
      (s : Source)
      → s ≢ mode_default
      → s ≢ builtin_default
      → DecisionExplained
          (evaluate doc a).matched_rules
          (mode_policy doc a.mode)
          a.mode
          (floor_decision a.action (evaluate doc a).classes)
          (evaluate doc a).decision
          s
      → decision_rank (evaluate doc a).decision ≤ decision_rank (evaluate doc b).decision
  decision_mono rule n m h = omega (
    arith,
    rank-le-max_rule (evaluate doc a).matched_rules (evaluate doc a).decision h,
    matched_mono,
    option_rank-within (max_rule_decision (evaluate doc b).matched_rules) (evaluate doc b).decision
        (max_rule-within doc b),
  )
  decision_mono mode_default n m h = absurd (n refl)
  decision_mono builtin_default n m h = absurd (m refl)
  decision_mono safety_floor n m h =
      let xs = (evaluate doc a).classes in
      let ys = (evaluate doc b).classes in
      let floor : floor_decision b.action ys ≡ deny =
        floor_decision_mono b.action xs ys classes-IsSubset
          (subst (λ s. floor_decision s xs ≡ deny) action h.1) in
      let denied : (evaluate doc b).decision ≡ deny =
        (evaluate_floors doc b).0
        ∙ ap (max_decision (base_verdict doc b).decision) floor
        ∙ max_decision-deny (base_verdict doc b).decision in
      rw denied (deny-max (evaluate doc a).decision)

  -- If the decision of the first request is not a mere default, then a second request of the same
  -- mode and action, with all of its classes and variables and perhaps more, is decided at least as
  -- strictly.
  pub evaluate_monotone :
      (evaluate doc a).decision_source ≢ mode_default
      → (evaluate doc a).decision_source ≢ builtin_default
      → decision_rank (evaluate doc a).decision ≤ decision_rank (evaluate doc b).decision
  evaluate_monotone n m =
      decision_mono (evaluate doc a).decision_source n m (evaluate_explained doc a)
