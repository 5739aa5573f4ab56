-- ===== src/Enforcement/Approved.antt =====
-- A human decision that is recorded, and the plan that is made after it (enforcement.rs).
use nopal.Prelude.{
  ◌≡◌, refl, sym, ap, subst, ◌∙◌, Option-cases, inl, inr, String, Bool, true, Option, some, List,
  ◌++◌, map,
}
use nopal.Diagnostics.Report.{Diagnostic}
use nopal.Diagnostics.Said.{Said, quiet}
use nopal.LedgerJson.Value.{Bytes}
use nopal.PolicyReport.Run.{done, map_result, map_result-done}
use nopal.Policy.Vocabulary.{ask}
use nopal.Selection.Globs.{Globset}
use nopal.Selection.Types.{SelectedGate}
use nopal.Enforcement.Intent.{EnforcementRequest, EnforcementIntent}
use nopal.Enforcement.Required.{Sourced}
use nopal.Enforcement.World.{Hashing, World}
use nopal.Enforcement.Receipts.{approval_is_current}
use nopal.Enforcement.Plan.{
  EffectiveContract, Judged, EnforcementPlan, decision_eq, finish_plan, plan_contract,
  fingerprint_of, judge, authorization_binding, selected_gates, intent_diagnostics,
}
use nopal.Enforcement.Evidence.{recorded, EvidenceDirective, approval_evidence}
use nopal.Enforcement.Authorized.{finished, diagnosed, judged, required, of_planned}
use nopal.Enforcement.Applied.{IsApplied, approval_evidence-approval_is_current}

-- Plans of one action, made from one contract for one intent.
module _ (hashing : Hashing) (globset : Globset) (contract : EffectiveContract)
    (intent : EnforcementIntent) where
  abbrev planned : World → EnforcementRequest → Said String → EnforcementPlan
  planned world r fingerprint =
      finished hashing globset world contract r intent
        (judged hashing globset world contract r intent)
        (map (λ (g : Sourced). g.1) (required hashing globset world contract r intent).selected)
        fingerprint.value
        (diagnosed hashing globset world contract r intent
          ++ (required hashing globset world contract r intent).said
          ++ fingerprint.said)

  -- The parts of a plan that an approval is for.
  abbrev Agree : EnforcementPlan → EnforcementPlan → Type 0
  Agree before after =
      (before.ok ≡ after.ok)
      × (before.decision ≡ after.decision)
      × (before.action ≡ after.action)
      × (before.authorization_binding ≡ after.authorization_binding)

  module _ (earlier world : World) (earlier_dir : Option String) (request : EnforcementRequest)
      (unchanged : earlier.workspace_fingerprint request.root
        ≡ world.workspace_fingerprint request.root) where
    abbrev earlier_request : EnforcementRequest
    earlier_request = record request { run_dir = earlier_dir }

    same_fingerprint :
        fingerprint_of hashing globset earlier earlier_request intent
        ≡ fingerprint_of hashing globset world request intent
    unfolding fingerprint_of
    same_fingerprint = elim (Option-cases intent.workspace_fingerprint) [
      | inl absent ↦ rw (absent, fingerprint_of) (ap (map_result quiet) unchanged)
      | inr (given, present) ↦ rw (present, fingerprint_of) refl
    ]

    Agree-planned :
        (f : Said String) → Agree (planned earlier earlier_request f) (planned world request f)
    unfolding finish_plan judge authorization_binding selected_gates intent_diagnostics
    Agree-planned f = (refl, refl, refl, refl)

    Agree-plans :
        {before after : EnforcementPlan}
        → plan_contract hashing globset earlier contract earlier_request intent ≡ done before
        → plan_contract hashing globset world contract request intent ≡ done after
        → Agree before after
    unfolding plan_contract
    Agree-plans {before} {after} b e =
        let (again, reread, same_before) = map_result-done _ _ b in
        let (fingerprint, read, same) = map_result-done _ _ e in
        let both : done again ≡ done fingerprint = sym reread ∙ same_fingerprint ∙ read in
        let one : again ≡ fingerprint = cc in
        subst (λ p. Agree p after) (ap (planned earlier earlier_request) (sym one) ∙ same_before)
          (subst (λ p. Agree (planned earlier earlier_request fingerprint) p) same
            (Agree-planned fingerprint))

    -- An ask is approved as the file of the approval says.
    approval_read :
        {dir : String} {key : Bytes} {approved : Bool}
        → request.run_dir ≡ some dir
        → request.receipt_key ≡ some key
        → (j : Judged) (selected : List SelectedGate) (fingerprint : String) (ds : List Diagnostic)
        → let q =
            finished hashing globset world contract request intent j selected fingerprint ds in
          q.ok ≡ true
          → decision_eq q.decision ask ≡ true
          → approval_is_current hashing world dir q.action q.authorization_binding key ≡ approved
          → q.approval_current ≡ approved
    unfolding finish_plan authorization_binding
    approval_read r k j selected fingerprint ds clean asked current =
        let ask_now : decision_eq j.decision ask ≡ true = rw clean at asked in
        rw (ask_now, r, k) current

    -- If a human decides on a plan, and the evidence is recorded and applied to a run directory, then
    -- a plan that is made with this directory afterwards, of the same request, intent, contract and
    -- workspace, is one to ask about, has the binding of the first, and holds the approval as
    -- current exactly if the action was approved.
    pub approval_evidence_current :
        (approved : Bool) (by : String) {dir : String} {key : Bytes} {directive : EvidenceDirective}
        {before after : EnforcementPlan}
        → request.run_dir ≡ some dir
        → request.receipt_key ≡ some key
        → plan_contract hashing globset earlier contract earlier_request intent ≡ done before
        → approval_evidence hashing before approved by key ≡ recorded directive
        → IsApplied world dir directive
        → plan_contract hashing globset world contract request intent ≡ done after
        → (decision_eq after.decision ask ≡ true)
          × (after.authorization_binding ≡ before.authorization_binding)
          × (after.approval_current ≡ approved)
    approval_evidence_current approved by {dir} {key} {directive} {before} {after} r k b e h p =
        let (ok, asked, current) =
          approval_evidence-approval_is_current hashing key world dir before approved by e h in
        let (same_ok, same_decision, same_action, same_binding) = Agree-plans b p in
        let still_ok : after.ok ≡ true = sym same_ok ∙ ok in
        let still_asked : decision_eq after.decision ask ≡ true =
          subst (λ d. decision_eq d ask ≡ true) same_decision asked in
        let still : approval_is_current hashing world dir after.action after.authorization_binding
              key
            ≡ approved =
          rw (← same_action, ← same_binding) current in
        (
          still_asked,
          sym same_binding,
          of_planned hashing globset world contract request intent p
              (λ q.
                q.ok ≡ true
                → decision_eq q.decision ask ≡ true
                → approval_is_current hashing world dir q.action q.authorization_binding key
                  ≡ approved
                → q.approval_current ≡ approved)
              (λ f. approval_read r k _ _ _ _) still_ok still_asked still,
        )
