-- ===== src/Enforcement/Authorized.antt =====
-- When a plan of enforcement.rs authorizes the action, and how strict it is.
use nopal.Prelude.{
  ◌∙◌, Bool, ap, true, ◌≡◌, refl, subst, arith, Bool-cases, inl, inr, String, false, not, ◌&&◌,
  ◌||◌, List, [], ◌∷◌, ◌++◌, map, is_empty, all, all-append,
}
use nopal.Diagnostics.Report.{Diagnostic}
use nopal.Diagnostics.Errors.{is_error}
use nopal.Diagnostics.Said.{Said}
use nopal.Policy.Vocabulary.{Decision, allow, ask, deny, blocked}
use nopal.PolicyReport.Run.{done, map_result-done}
use nopal.Selection.Globs.{Globset}
use nopal.Selection.Types.{SelectedGate}
use nopal.Enforcement.Intent.{EnforcementRequest, EnforcementIntent, required_stages}
use nopal.Enforcement.Required.{Required, select_required_gates}
use nopal.Enforcement.Receipts.{receipt_is_current, approval_is_current}
use nopal.Enforcement.World.{Hashing, World}
use nopal.Enforcement.Plan.{
  EffectiveContract, ReceiptStatus, EnforcementPlan, decision_eq, placement_eq, is_clean, Judged,
  with_run, receipt_status, fingerprint_of, judge, pending, intent_diagnostics, selected_gates,
  finish_plan, plan_contract,
}

pending-is_empty :
    (f : SelectedGate → ReceiptStatus) (gates : List SelectedGate)
    → is_empty (pending gates (map f gates)) ≡ all (λ (r : ReceiptStatus). r.current) (map f gates)
unfolding pending all
pending-is_empty f [] = refl
pending-is_empty f (gate ∷ gates) = ground (arith, pending-is_empty f gates)

pub is_clean-append : (xs ys : List Diagnostic) → is_clean (xs ++ ys) ≡ (is_clean xs && is_clean ys)
unfolding is_clean
is_clean-append xs ys = all-append (λ d. not (is_error d)) xs ys

still_denied :
    (denied : Bool) (xs ys : List Diagnostic)
    → (denied || not (is_clean xs)) ≡ true
    → (denied || not (is_clean (xs ++ ys))) ≡ true
still_denied denied xs ys h = ground (arith, h, is_clean-append xs ys)

all-receipts :
    (f : SelectedGate → ReceiptStatus) (gates : List SelectedGate)
    → all (λ (r : ReceiptStatus). r.current) (map f gates) ≡ all (λ gate. (f gate).current) gates
unfolding all
all-receipts f [] = refl
all-receipts f (gate ∷ gates) = ap (λ rest. (f gate).current && rest) (all-receipts f gates)

-- A plan that refuses.
abbrev pub IsClosed : EnforcementPlan → Type 0
IsClosed plan =
    (plan.ok ≡ false)
    × (plan.decision ≡ deny)
    × (plan.placement ≡ blocked)
    × (plan.required_gates ≡ [])
    × (plan.authorized ≡ false)

deny_only :
    (d : Decision) (approved : Bool)
    → decision_eq d deny ≡ true
    → (decision_eq d allow || decision_eq d ask && approved) ≡ false
deny_only allow approved h = cc
deny_only ask approved h = cc
deny_only deny approved h = refl

module _ (hashing : Hashing) (globset : Globset) (world : World) (contract : EffectiveContract)
    (request : EnforcementRequest) (intent : EnforcementIntent) where
  -- The gates that the sources of the contract ask for at the stages of the action.
  abbrev pub asked_gates : List SelectedGate
  asked_gates =
      map (λ (g : String × SelectedGate). g.1)
        (select_required_gates hashing.debug globset intent.changed_files contract.gate_sources
          (required_stages request.action request.classes)).selected

  -- The run directory has a receipt of the gate, or an approval, that is current for the plan.
  abbrev pub has_receipt : EnforcementPlan → SelectedGate → Bool
  has_receipt plan gate = with_run hashing globset world request (λ dir key.
      receipt_is_current hashing world dir request.action gate contract.contract_digest
        plan.workspace_fingerprint plan.authorization_binding key)

  abbrev pub has_approval : EnforcementPlan → Bool
  has_approval plan = with_run hashing globset world request (λ dir key.
      approval_is_current hashing world dir request.action plan.authorization_binding key)

  abbrev permits : EnforcementPlan → List SelectedGate → Bool
  permits plan gates =
      is_clean plan.diagnostics
      && not (placement_eq plan.placement blocked)
      && all (has_receipt plan) gates
      && (decision_eq plan.decision allow || decision_eq plan.decision ask && has_approval plan)

  permits-denied :
      (plan : EnforcementPlan) (gates : List SelectedGate)
      → plan.decision ≡ deny
      → permits plan gates ≡ false
  permits-denied plan gates e = rw e (ground arith)

  -- The plan authorizes exactly if it permits with these gates.
  abbrev IsDecidedOn : List SelectedGate → EnforcementPlan → Type 0
  IsDecidedOn gates plan =
      (plan.ok ≡ is_clean plan.diagnostics) × (plan.authorized ≡ permits plan gates)

  abbrev pub IsDecided : EnforcementPlan → Type 0
  IsDecided = IsDecidedOn asked_gates

  module _ (j : Judged) (gates : List SelectedGate) (fingerprint : String)
      (diagnostics : List Diagnostic) where
    abbrev pub finished : EnforcementPlan
    finished =
        finish_plan hashing globset world contract request intent j gates fingerprint diagnostics

    finish_plan-receipts :
        all (λ (r : ReceiptStatus). r.current) finished.receipts ≡ all (has_receipt finished) gates
    unfolding finish_plan receipt_status
    finish_plan-receipts = all-receipts _ gates

    finish_plan-IsDecidedOn : IsDecidedOn gates finished
    unfolding finish_plan
    finish_plan-IsDecidedOn = elim (Bool-cases (is_clean diagnostics)) [
      | inl clean ↦
          let held = finish_plan-receipts in
          rw (clean, pending-is_empty) (refl, ground (arith, held))
      | inr e ↦ rw e (refl, refl)
    ]

    -- A plan that denies authorizes nothing, whatever the gates are.
    finish_plan-IsDenied :
        (others : List SelectedGate)
        → (decision_eq j.decision deny || not (is_clean diagnostics)) ≡ true
        → IsDecidedOn others finished
    unfolding finish_plan
    finish_plan-IsDenied others h = elim (Bool-cases (is_clean diagnostics)) [
      | inl clean ↦
          let denied : decision_eq j.decision deny ≡ true = ground (arith, rw clean at h) in
          rw clean (refl, ground (arith, deny_only j.decision _ denied))
      | inr e ↦ rw e (refl, refl)
    ]

    pub finish_plan-IsClosed : is_clean diagnostics ≡ false → IsClosed finished
    unfolding finish_plan
    finish_plan-IsClosed e = ground (arith, e)

  -- The diagnostics before the gates are selected, the verdict, and the gates.
  abbrev pub diagnosed : List Diagnostic
  diagnosed = contract.diagnostics ++ intent_diagnostics hashing.debug request intent

  abbrev pub judged : Judged
  judged = judge contract request (is_clean diagnosed)

  abbrev pub required : Required
  required =
      selected_gates hashing globset world contract request intent judged (is_clean diagnosed)

  -- A plan is finished from these, and from what the fingerprint is.
  pub of_planned_read :
      {plan : EnforcementPlan}
      → plan_contract hashing globset world contract request intent ≡ done plan
      → (P : EnforcementPlan → Type 0)
      → ((fingerprint : Said String)
          → fingerprint_of hashing globset world request intent ≡ done fingerprint
          → P (
              finished judged
                (map (λ (g : String × SelectedGate). g.1) required.selected)
                fingerprint.value
                (diagnosed ++ required.said ++ fingerprint.said)))
      → P plan
  unfolding plan_contract
  of_planned_read e P h =
      let (fingerprint, read, same) = map_result-done _ _ e in subst P same (h fingerprint read)

  pub of_planned :
      {plan : EnforcementPlan}
      → plan_contract hashing globset world contract request intent ≡ done plan
      → (P : EnforcementPlan → Type 0)
      → ((fingerprint : Said String)
          → P (
              finished judged
                (map (λ (g : String × SelectedGate). g.1) required.selected)
                fingerprint.value
                (diagnosed ++ required.said ++ fingerprint.said)))
      → P plan
  of_planned e P h = of_planned_read e P (λ f read. h f)

  planned-IsDecided :
      (f : Said String)
      → IsDecided (
          finished judged
            (map (λ (g : String × SelectedGate). g.1) required.selected)
            f.value
            (diagnosed ++ required.said ++ f.said))
  unfolding selected_gates
  planned-IsDecided f =
      elim (Bool-cases (decision_eq judged.decision deny || not (is_clean diagnosed))) [
        | inl t ↦
            finish_plan-IsDenied judged _ f.value (diagnosed ++ required.said ++ f.said) asked_gates
              (still_denied _ (diagnosed ++ required.said) f.said
                (still_denied _ diagnosed required.said t))
        | inr t ↦ rw t (finish_plan-IsDecidedOn judged asked_gates f.value _)
      ]

  module _ {plan : EnforcementPlan}
      (e : plan_contract hashing globset world contract request intent ≡ done plan) where
    -- The plan is marked as ok exactly if it has no error, and it authorizes the action exactly if
    -- it has no error, the placement is not blocked, every gate that the sources ask for at the
    -- stages of the action has a current receipt in the run directory, and the decision is to allow,
    -- or to ask and an approval there is current.
    pub plan_contract-IsDecided : IsDecided plan
    plan_contract-IsDecided = of_planned e IsDecided planned-IsDecided

    pub plan_contract-denies : plan.decision ≡ deny → plan.authorized ≡ false
    plan_contract-denies h = plan_contract-IsDecided.1 ∙ permits-denied plan asked_gates h
