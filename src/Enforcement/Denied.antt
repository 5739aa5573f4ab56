-- ===== src/Enforcement/Denied.antt =====
-- What no repository can allow: an action that the built-in floor denies (enforcement.rs).
use nopal.Prelude.{
  ◌≡◌, ◌≤◌, refl, ◌∙◌, arith, Bool-cases, inl, inr, ◌==◌, String, Bool, true, false, not, ◌||◌,
  List, [], ◌∷◌, is_empty, any,
}
use nopal.Prelude.Sets.{any_mono}
use nopal.Json.{Json}
use nopal.Diagnostics.Report.{Diagnostic}
use nopal.Diagnostics.Errors.{is_error}
use nopal.Policy.Vocabulary.{Decision, allow, ask, deny, decision_rank, Placement, max_decision}
use nopal.Policy.Doc.{PolicyDoc}
use nopal.Policy.Evaluate.{evaluate}
use nopal.Policy.Floors.{is_denied, floor_decision}
use nopal.Policy.Membership.{contains-classes}
use nopal.Policy.Verdicts.{evaluate_floors}
use nopal.PolicyReport.Run.{done}
use nopal.Selection.Globs.{Globset}
use nopal.Enforcement.Intent.{EnforcementRequest, EnforcementIntent}
use nopal.Enforcement.World.{Hashing, World}
use nopal.Enforcement.Plan.{
  EffectiveContract, EnforcementPlan, is_clean, policy_request, plan_contract,
}
use nopal.Enforcement.Authorized.{plan_contract-denies}
use nopal.Enforcement.Closed.{plan_contract-IsClosed}
use nopal.Enforcement.Strictest.{IsStrict, max_decision-le, plan_contract-IsStrict}
use nopal.Enforcement.Contract.{Readers, load_contract, plan_for_intent}
use nopal.Enforcement.Secured.{load_contract-secured}

-- The built-in floor denies the action or one of its classes.
abbrev pub is_denied_request : EnforcementRequest → Bool
is_denied_request request = request.action == "git.push_force" || any is_denied request.classes

rank_denies : (d : Decision) → 2 ≤ decision_rank d → d ≡ deny
rank_denies allow h = absurd (omega (arith, h))
rank_denies ask h = absurd (omega (arith, h))
rank_denies deny h = refl

-- The stricter of two decisions, if the other one denies.
floored_denies :
    (base floor : Decision) {result : Decision}
    → floor ≡ deny
    → result ≡ max_decision base floor
    → 2 ≤ decision_rank result
floored_denies base floor e f = rw (f, e) (max_decision-le base deny).1

module _ (request : EnforcementRequest) (denied : is_denied_request request ≡ true) where
  policy_denies :
      (doc : PolicyDoc) → 2 ≤ decision_rank (evaluate doc (policy_request request)).decision
  policy_denies doc =
      let classes : List String = (evaluate doc (policy_request request)).classes in
      let kept : any is_denied request.classes ≡ true → any is_denied classes ≡ true =
        any_mono is_denied request.classes classes
          (λ c h. contains-classes doc (policy_request request) c ∙ (rw h refl)) in
      let floored : floor_decision request.action classes ≡ deny = ground (arith, denied, kept) in
      floored_denies _ (floor_decision request.action classes) floored
        (evaluate_floors doc (policy_request request)).0

  head-IsStrict :
      (w : Placement) (policies : List (String × PolicyDoc)) {d : Decision}
      → is_empty policies ≡ false
      → IsStrict request d w policies
      → d ≡ deny
  head-IsStrict w [] n h = cc
  head-IsStrict w (p ∷ policies) {d} n h = rank_denies d (omega (arith, policy_denies p.1, h.0.0))

  module _ (hashing : Hashing) (globset : Globset) (world : World) (contract : EffectiveContract)
      (intent : EnforcementIntent) {plan : EnforcementPlan}
      (e : plan_contract hashing globset world contract request intent ≡ done plan) where
    contract_denies :
        (not (is_empty contract.policies) || not (is_clean contract.diagnostics)) ≡ true
        → (plan.decision ≡ deny) × (plan.authorized ≡ false)
    contract_denies secured = elim (Bool-cases (is_clean contract.diagnostics)) [
      | inl clean ↦
          let decision : plan.decision ≡ deny =
            head-IsStrict _ contract.policies (ground (arith, clean, secured))
              (plan_contract-IsStrict hashing globset world contract request intent e) in
          (decision, plan_contract-denies hashing globset world contract request intent e decision)
      | inr e' ↦
          let closed =
            plan_contract-IsClosed hashing globset world contract request intent
              (ground (arith, e')) e in
          (closed.1, closed.4)
    ]

module _ (json : Json) (readers : Readers json) (hashing : Hashing) (world : World)
    (globset : Globset) (request : EnforcementRequest) (intent : EnforcementIntent) where
  -- If every diagnostic of the JSONC reader is an error, then no plan for a forced push or for an
  -- action with a destructive or unknown class authorizes it, and all deny it, whatever the files
  -- hold.
  pub plan_for_intent_denied :
      (reports : (text path : String) (d : Diagnostic)
        → readers.parse_jsonc text path ≡ inr d
        → is_error d ≡ true)
      {plan : EnforcementPlan}
      → is_denied_request request ≡ true
      → plan_for_intent json readers hashing world globset request intent ≡ done plan
      → (plan.decision ≡ deny) × (plan.authorized ≡ false)
  unfolding plan_for_intent
  plan_for_intent_denied reports denied e =
      contract_denies request denied hashing globset world
        (load_contract json readers hashing world request.root request.config_dir) intent e
        (load_contract-secured json readers hashing world reports request.root request.config_dir)
