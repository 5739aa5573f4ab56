-- ===== src/Policy/Explained.antt =====
-- The source of a decision tells the truth about where the decision comes from.
use nopal.Prelude.{
  ◌≡◌, refl, ◌⊎◌, inl, inr, Bool, true, false, Bool-cases, Option, none, some, List, [], ◌∷◌, arith,
  ◌==◌, All, Some, any,
}
use nopal.Policy.Vocabulary.{
  Mode, Decision, allow, ask, deny, max_decision, builtin_default_decision,
}
use nopal.Policy.Doc.{
  ModePolicy, PolicyDoc, Source, rule, mode_default, builtin_default, safety_floor, EvalRequest,
  MatchedRule,
}
use nopal.Policy.Evaluate.{
  mode_policy, configured_decision, first_set, later_decision, max_rule_decision, base_decision,
  base_verdict, evaluate,
}
use nopal.Policy.Floors.{floor_decision, deny_if, is_denied, decision_source_after}
use nopal.Policy.Verdicts.{evaluate_floors, evaluate_sources}

-- What a source says of a decision, among the matched rules, the mode's policy and the floor.
abbrev pub DecisionExplained :
    List MatchedRule → Option ModePolicy → Mode → Decision → Decision → Source → Type 0
DecisionExplained ms policy mode floor d rule = Some (λ m. m.decision ≡ some d) ms
DecisionExplained ms policy mode floor d mode_default =
    All (λ m. m.decision ≡ none) ms × (configured_decision policy ≡ some d)
DecisionExplained ms policy mode floor d builtin_default =
    All (λ m. m.decision ≡ none) ms
    × (configured_decision policy ≡ none)
    × (d ≡ builtin_default_decision mode)
DecisionExplained ms policy mode floor d safety_floor = (d ≡ deny) × (floor ≡ deny)

later_decision-cases :
    (a b : Option Decision) (d : Decision)
    → later_decision a b ≡ some d
    → (a ≡ some d) ⊎ (b ≡ some d)
unfolding max_decision
later_decision-cases a b d h = ground arith

max_rule_decision-Some :
    (ms : List MatchedRule) (d : Decision)
    → max_rule_decision ms ≡ some d
    → Some (λ m. m.decision ≡ some d) ms
unfolding max_rule_decision
max_rule_decision-Some [] d h = cc
max_rule_decision-Some (m ∷ ms) d h =
    elim (later_decision-cases m.decision (max_rule_decision ms) d h) [
      | inl here ↦ inl here
      | inr later ↦ inr (max_rule_decision-Some ms d later)
    ]

later_decision-none : (a b : Option Decision) → later_decision a b ≡ none → (a ≡ none) × (b ≡ none)
later_decision-none none b h = (refl, h)
later_decision-none (some d) none h = cc
later_decision-none (some d) (some e) h = cc

max_rule_decision-none :
    (ms : List MatchedRule) → max_rule_decision ms ≡ none → All (λ m. m.decision ≡ none) ms
unfolding max_rule_decision
max_rule_decision-none [] h = tt
max_rule_decision-none (m ∷ ms) h =
    let (a, b) = later_decision-none m.decision (max_rule_decision ms) h in
    (a, max_rule_decision-none ms b)

module _ (ms : List MatchedRule) (policy : Option ModePolicy) (mode : Mode) (floor : Decision) where
  first_set-explained :
      (decided configured : Option Decision)
      → max_rule_decision ms ≡ decided
      → configured_decision policy ≡ configured
      → DecisionExplained ms policy mode floor
          (first_set decided configured (builtin_default_decision mode)).0
          (first_set decided configured (builtin_default_decision mode)).1
  first_set-explained (some d) configured e f = max_rule_decision-Some ms d e
  first_set-explained none (some d) e f = (max_rule_decision-none ms e, f)
  first_set-explained none none e f = (max_rule_decision-none ms e, f, refl)

module _ (ms : List MatchedRule) (policy : Option ModePolicy) (mode : Mode) where
  -- A floor explains the decision where it changes it, and else leaves the explanation.
  floor-explained :
      (d : Decision) (s : Source) (raised : Bool)
      → DecisionExplained ms policy mode (deny_if raised) d s
      → DecisionExplained ms policy mode
          (deny_if raised)
          (max_decision d (deny_if raised))
          (decision_source_after d (max_decision d (deny_if raised)) s)
  unfolding max_decision
  floor-explained allow s false h = h
  floor-explained ask s false h = h
  floor-explained deny s false h = h
  floor-explained allow s true h = (refl, refl)
  floor-explained ask s true h = (refl, refl)
  floor-explained deny s true h = h

pub max_decision-deny : (d : Decision) → max_decision d deny ≡ deny
unfolding max_decision
max_decision-deny allow = refl
max_decision-deny _ = refl

module _ (doc : PolicyDoc) (req : EvalRequest) where
  abbrev ms : List MatchedRule
  ms = (evaluate doc req).matched_rules

  abbrev policy : Option ModePolicy
  policy = mode_policy doc req.mode

  abbrev floor : Decision
  floor = floor_decision req.action (evaluate doc req).classes

  base-explained :
      DecisionExplained ms policy req.mode floor
        (base_verdict doc req).decision
        (base_verdict doc req).decision_source
  unfolding base_verdict base_decision evaluate
  base-explained =
      first_set-explained ms policy req.mode floor (max_rule_decision ms)
        (configured_decision policy) refl refl

  -- If the source is a rule, then some matched rule decides just that. If it is the mode's default,
  -- then no matched rule decides and the mode's policy has that default. If it is the built-in
  -- default, then neither decides and the decision is the built-in one of the mode. If it is the
  -- safety floor, then the decision is deny and the floor of the action and its classes is deny.
  pub evaluate_explained :
      DecisionExplained
        (evaluate doc req).matched_rules
        (mode_policy doc req.mode)
        req.mode
        (floor_decision req.action (evaluate doc req).classes)
        (evaluate doc req).decision
        (evaluate doc req).decision_source
  evaluate_explained = elim (Bool-cases (req.action == "git.push_force")) [
    | inl push ↦
        rw ((evaluate_floors doc req).0, (evaluate_sources doc req).0, push)
          (max_decision-deny (base_verdict doc req).decision, refl)
    | inr other ↦
        rw ((evaluate_sources doc req).0, (evaluate_floors doc req).0, other)
          (floor-explained ms policy req.mode (base_verdict doc req).decision
            (base_verdict doc req).decision_source (any is_denied (evaluate doc req).classes)
            (rw other at base-explained))
  ]
