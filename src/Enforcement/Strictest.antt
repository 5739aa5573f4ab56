-- ===== src/Enforcement/Strictest.antt =====
-- The decision and the placement of a plan against those of the policies (enforcement.rs).
use nopal.Prelude.{
  ◌≡◌, ◌≤◌, refl, sym, ◌∙◌, arith, Bool-cases, inl, inr, ◌⊎◌, String, Bool, true, false, Option,
  none, some, List, [], ◌∷◌, ◌++◌, map, All, Some,
}
use nopal.Diagnostics.Report.{Diagnostic}
use nopal.Diagnostics.Said.{Said}
use nopal.Policy.Vocabulary.{
  Decision, allow, ask, deny, decision_rank, Placement, shared_user_runtime, dedicated_repo_runtime,
  dedicated_run_runtime, blocked, placement_rank, max_decision, max_placement,
}
use nopal.Policy.Doc.{PolicyDoc, Evaluation}
use nopal.Policy.Evaluate.{evaluate}
use nopal.PolicyReport.Run.{done}
use nopal.Selection.Globs.{Globset}
use nopal.Selection.Types.{SelectedGate}
use nopal.Enforcement.Intent.{EnforcementRequest, EnforcementIntent}
use nopal.Enforcement.Isolation.{AgentIsolation}
use nopal.Enforcement.World.{Hashing, World}
use nopal.Enforcement.Plan.{
  EffectiveContract, EnforcementPlan, is_clean, policy_request, Judged, judge_policies, isolate,
  judge, finish_plan, plan_contract,
}
use nopal.Enforcement.Authorized.{
  is_clean-append, finished, diagnosed, judged, required, of_planned,
}

isolate_lem : (isolation : Option AgentIsolation) (p : Placement) → isolate isolation p ≡ p
unfolding max_placement
isolate_lem none p = refl
isolate_lem (some isolation) shared_user_runtime = refl
isolate_lem (some isolation) dedicated_repo_runtime = refl
isolate_lem (some isolation) dedicated_run_runtime = refl
isolate_lem (some isolation) blocked = refl

pub max_decision-le :
    (a b : Decision)
    → (decision_rank a ≤ decision_rank (max_decision a b))
      × (decision_rank b ≤ decision_rank (max_decision a b))
unfolding max_decision
max_decision-le a b = ground arith

pub max_placement-le :
    (a b : Placement)
    → (placement_rank a ≤ placement_rank (max_placement a b))
      × (placement_rank b ≤ placement_rank (max_placement a b))
unfolding max_placement
max_placement-le a b = ground arith

max_decision-either : (a b : Decision) → (max_decision a b ≡ a) ⊎ (max_decision a b ≡ b)
unfolding max_decision
max_decision-either a b = ground arith

deny-le : (d : Decision) → decision_rank d ≤ decision_rank deny
deny-le allow = omega arith
deny-le ask = omega arith
deny-le deny = omega arith

blocked-le : (p : Placement) → placement_rank p ≤ placement_rank blocked
blocked-le shared_user_runtime = omega arith
blocked-le dedicated_repo_runtime = omega arith
blocked-le dedicated_run_runtime = omega arith
blocked-le blocked = omega arith

module _ (request : EnforcementRequest) where
  abbrev verdict : String × PolicyDoc → Evaluation
  verdict p = evaluate p.1 (policy_request request)

  -- No policy is stricter.
  abbrev pub IsStrict : Decision → Placement → List (String × PolicyDoc) → Type 0
  IsStrict d w = All (λ p.
      (decision_rank (verdict p).decision ≤ decision_rank d)
      × (placement_rank (verdict p).placement ≤ placement_rank w))

  -- Some policy decides so.
  abbrev pub IsReached : Decision → List (String × PolicyDoc) → Type 0
  IsReached d policies = (d ≡ allow) ⊎ Some (λ p. (verdict p).decision ≡ d) policies

  closed-IsStrict : (policies : List (String × PolicyDoc)) → IsStrict deny blocked policies
  closed-IsStrict [] = tt
  closed-IsStrict (p ∷ policies) = ((deny-le _, blocked-le _), closed-IsStrict policies)

  judge_policies-IsStrict :
      (policies : List (String × PolicyDoc)) (j : Judged)
      → let result = judge_policies (policy_request request) j policies in
        (decision_rank j.decision ≤ decision_rank result.decision)
        × (placement_rank j.placement ≤ placement_rank result.placement)
        × IsStrict result.decision result.placement policies
  unfolding judge_policies
  judge_policies-IsStrict [] j = (omega arith, omega arith, tt)
  judge_policies-IsStrict (p ∷ policies) j =
      let (d, w, rest) = judge_policies-IsStrict policies _ in
      (
        omega (arith, d, max_decision-le j.decision (verdict p).decision),
        omega (arith, w, max_placement-le j.placement (verdict p).placement),
        (
          (
            omega (arith, d, max_decision-le j.decision (verdict p).decision),
            omega (arith, w, max_placement-le j.placement (verdict p).placement),
          ),
          rest,
        ),
      )

  judge_policies-IsReached :
      (policies : List (String × PolicyDoc)) (j : Judged)
      → let d = (judge_policies (policy_request request) j policies).decision in
        (d ≡ j.decision) ⊎ Some (λ p. (verdict p).decision ≡ d) policies
  unfolding judge_policies
  judge_policies-IsReached [] j = inl refl
  judge_policies-IsReached (p ∷ policies) j = elim (judge_policies-IsReached policies _) [
    | inl e ↦ elim (max_decision-either j.decision (verdict p).decision) [
      | inl m ↦ inl (e ∙ m)
      | inr m ↦ inr (inl (sym (e ∙ m)))
    ]
    | inr later ↦ inr (inr later)
  ]

module _ (hashing : Hashing) (globset : Globset) (world : World) (contract : EffectiveContract)
    (request : EnforcementRequest) (intent : EnforcementIntent) where
  judge-IsStrict :
      (ok : Bool)
      → let j = judge contract request ok in
        IsStrict request j.decision j.placement contract.policies
  unfolding judge
  judge-IsStrict true = rw isolate_lem (judge_policies-IsStrict request contract.policies _).2
  judge-IsStrict false = rw isolate_lem (closed-IsStrict request contract.policies)

  finish_plan-IsStrict :
      (ok : Bool) (gates : List SelectedGate) (fingerprint : String) (ds : List Diagnostic)
      → let plan =
          finish_plan hashing globset world contract request intent
            (judge contract request ok)
            gates
            fingerprint
            ds in
        IsStrict request plan.decision plan.placement contract.policies
  unfolding finish_plan
  finish_plan-IsStrict ok gates fingerprint ds = elim (Bool-cases (is_clean ds)) [
    | inl clean ↦ rw clean (judge-IsStrict ok)
    | inr e ↦ rw e (closed-IsStrict request contract.policies)
  ]

  reached :
      (fingerprint : Said String)
      → let ds =
          diagnosed hashing globset world contract request intent
          ++ (required hashing globset world contract request intent).said
          ++ fingerprint.said in
        let q =
          finished hashing globset world contract request intent
            (judged hashing globset world contract request intent)
            (map
              (λ (g : String × SelectedGate). g.1)
              (required hashing globset world contract request intent).selected)
            fingerprint.value
            ds in
        q.ok ≡ true → IsReached request q.decision contract.policies
  unfolding finish_plan judge
  reached fingerprint h =
      let d : List Diagnostic = diagnosed hashing globset world contract request intent in
      let r : List Diagnostic = (required hashing globset world contract request intent).said in
      let clean : is_clean d ≡ true =
        ground (arith, h, is_clean-append (d ++ r) fingerprint.said, is_clean-append d r) in
      rw (h, clean) (judge_policies-IsReached request contract.policies _)

  module _ {plan : EnforcementPlan}
      (e : plan_contract hashing globset world contract request intent ≡ done plan) where
    -- No policy of the contract decides more strictly than the plan, or asks for a stronger
    -- placement.
    pub plan_contract-IsStrict : IsStrict request plan.decision plan.placement contract.policies
    plan_contract-IsStrict =
        of_planned hashing globset world contract request intent e
          (λ q. IsStrict request q.decision q.placement contract.policies)
          (λ f. finish_plan-IsStrict _ _ _ _)

    -- The decision of a plan without errors is to allow, or that of some policy.
    pub plan_contract-IsReached : plan.ok ≡ true → IsReached request plan.decision contract.policies
    plan_contract-IsReached =
        of_planned hashing globset world contract request intent e
          (λ q. q.ok ≡ true → IsReached request q.decision contract.policies) reached
