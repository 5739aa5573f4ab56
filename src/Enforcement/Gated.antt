-- ===== src/Enforcement/Gated.antt =====
-- Recorded evidence of a gate and the plan that is made after it (enforcement.rs).
use nopal.Prelude.{
  ℕ, ◌⊎◌, ◌≡◌, refl, sym, ap, subst, ◌∙◌, arith, Bool-cases, Option-cases, inl, inr, ◌==◌, eq_iff,
  String, Bool, true, false, not, ◌||◌, if◌then◌else◌, none, some, List, [], ◌++◌, map, any, find,
  find-holds, ltb, length,
}
use nopal.Diagnostics.Said.{Said}
use nopal.Parse.Distinct.{is_distinct}
use nopal.LedgerJson.Value.{Bytes}
use nopal.PolicyReport.Run.{IoResult, done, io_error, map_result-done}
use nopal.Policy.Vocabulary.{deny}
use nopal.Selection.Globs.{Globset}
use nopal.Selection.Types.{SelectedGate}
use nopal.Enforcement.Intent.{EnforcementRequest, EnforcementIntent, required_stages}
use nopal.Enforcement.Added.{has_id}
use nopal.Enforcement.Required.{Sourced}
use nopal.Enforcement.World.{Hashing, World}
use nopal.Enforcement.Receipts.{receipt_is_current, gate_digest}
use nopal.Enforcement.Plan.{
  EffectiveContract, Judged, EnforcementPlan, decision_eq, is_clean, pending, receipt_status,
  finish_plan, plan_contract, fingerprint_of, judge, authorization_binding, selected_gates,
  intent_diagnostics,
}
use nopal.Enforcement.Evidence.{
  recorded, EvidenceDirective, attempt_subject, attempt_effects, record_gate, gate_evidence_with,
  gate_evidence_contract, GateExecutionContext,
}
use nopal.Enforcement.Authorized.{finished, diagnosed, judged, required}
use nopal.Enforcement.Complete.{chosen-distinct}
use nopal.Enforcement.Applied.{IsApplied, attempt_effects-receipt_is_current}
use nopal.Enforcement.Pending.{gate_ids, pending_all, pending_current, gate_ids-ids}

IoResult-cases : {A : Type 0} (r : IoResult A) → (r ≡ io_error) ⊎ ((a : A) × (r ≡ done a))
IoResult-cases io_error = inl refl
IoResult-cases (done a) = inr (a, refl)

module _ (hashing : Hashing) (globset : Globset) (world : World) (contract : EffectiveContract)
    (request : EnforcementRequest) (intent : EnforcementIntent) where
  abbrev without_run : EnforcementRequest
  without_run = record request { run_dir = none }

  -- The gates of a plan, and how two plans that differ in the run directory alone are related.
  abbrev Related : EnforcementPlan → EnforcementPlan → List SelectedGate → Type 0
  Related before plan gates =
      (before.ok ≡ plan.ok)
      × (before.action ≡ plan.action)
      × (before.contract_digest ≡ plan.contract_digest)
      × (before.workspace_fingerprint ≡ plan.workspace_fingerprint)
      × (before.authorization_binding ≡ plan.authorization_binding)
      × (before.required_gates ≡ (if before.ok then gates else []))
      × (plan.required_gates ≡ (
          if plan.ok
          then pending gates (
              map
                (receipt_status hashing globset world request plan.contract_digest
                  plan.workspace_fingerprint plan.authorization_binding)
                gates)
          else []))
      × (is_distinct (gate_ids gates) ≡ true)
      × (request.action ≡ plan.action)

  abbrev planned : EnforcementRequest → Said String → EnforcementPlan
  planned r fingerprint =
      finished hashing globset world contract r intent
        (judged hashing globset world contract r intent)
        (map (λ (g : Sourced). g.1) (required hashing globset world contract r intent).selected)
        fingerprint.value
        (diagnosed hashing globset world contract r intent
          ++ (required hashing globset world contract r intent).said
          ++ fingerprint.said)

  plan_parts :
      (r : EnforcementRequest) {plan : EnforcementPlan}
      → plan_contract hashing globset world contract r intent ≡ done plan
      → (fingerprint : Said String) × (fingerprint_of hashing globset world r intent
          ≡ done fingerprint)
        × (planned r fingerprint ≡ plan)
  unfolding plan_contract
  plan_parts r e = map_result-done _ _ e

  same_fingerprint :
      fingerprint_of hashing globset world without_run intent
      ≡ fingerprint_of hashing globset world request intent
  unfolding fingerprint_of
  same_fingerprint = refl

  abbrev gates : List SelectedGate
  gates =
      map (λ (g : Sourced). g.1) (required hashing globset world contract request intent).selected

  gates-distinct : is_distinct (gate_ids gates) ≡ true
  unfolding selected_gates
  gates-distinct =
      let j : Judged = judged hashing globset world contract request intent in
      let ok : Bool = is_clean (diagnosed hashing globset world contract request intent) in
      elim (Bool-cases (decision_eq j.decision deny || not ok)) [
        | inl t ↦ rw t refl
        | inr t ↦
            rw (t, gate_ids-ids)
              (chosen-distinct hashing.debug globset intent.changed_files contract.gate_sources
                (required_stages request.action request.classes))
      ]

  Related-planned : (f : Said String) → Related (planned without_run f) (planned request f) gates
  unfolding finish_plan judge authorization_binding selected_gates intent_diagnostics receipt_status
  Related-planned f =
      let all_pending : pending gates _ ≡ gates =
        pending_all
          (receipt_status hashing globset world without_run contract.contract_digest f.value
            (planned without_run f).authorization_binding)
          (λ gate. refl) gates in
      (
        refl,
        refl,
        refl,
        refl,
        refl,
        ap (λ gs. if (planned without_run f).ok then gs else []) all_pending,
        refl,
        gates-distinct,
        refl,
      )

  Related-plans :
      {before plan : EnforcementPlan}
      → plan_contract hashing globset world contract without_run intent ≡ done before
      → plan_contract hashing globset world contract request intent ≡ done plan
      → Related before plan gates
  Related-plans {before} {plan} b e =
      let (fingerprint, read, same) = plan_parts request e in
      let (again, reread, same_before) = plan_parts without_run b in
      let both : done again ≡ done fingerprint = sym reread ∙ same_fingerprint ∙ read in
      let one : again ≡ fingerprint = cc in
      subst (λ p. Related p plan gates) (ap (planned without_run) (sym one) ∙ same_before)
        (subst (λ p. Related (planned without_run fingerprint) p gates) same
          (Related-planned fingerprint))

  record_gate-parts :
      (before : EnforcementPlan) (gate_id : String) (exit_code : ℕ)
      (expected : GateExecutionContext) (key : Bytes) {directive : EvidenceDirective}
      → record_gate hashing before gate_id exit_code expected key ≡ recorded directive
      → (gate : SelectedGate) × (before.ok ≡ true)
        × (find (has_id gate_id) before.required_gates ≡ some gate)
        × (attempt_effects hashing key (attempt_subject hashing before gate gate_id exit_code)
            ≡ directive)
  unfolding record_gate
  record_gate-parts before gate_id exit_code expected key e = elim (Bool-cases before.ok) [
    | inr broken ↦ absurd (ground (arith, rw (broken, record_gate) at e))
    | inl ok ↦ elim (Option-cases (find (has_id gate_id) before.required_gates)) [
      | inl none_found ↦ absurd (ground (arith, rw (ok, none_found, record_gate) at e))
      | inr (gate, found) ↦
          elim (Bool-cases (
            not (before.contract_digest == expected.contract_digest)
            || not (before.workspace_fingerprint == expected.workspace_fingerprint)
            || not (before.authorization_binding == expected.authorization_binding)
            || not (gate_digest hashing gate == expected.gate_definition_digest))) [
              | inl changed ↦ absurd (ground (arith, rw (ok, found, changed, record_gate) at e))
              | inr unchanged ↦
                  let result : recorded (
                        attempt_effects hashing key
                          (attempt_subject hashing before gate gate_id exit_code))
                      ≡ recorded _ =
                    rw (ok, found, unchanged, record_gate) at e in
                  (gate, ok, found, cc)
            ]
    ]
  ]

  gate_evidence-parts :
      (gate_id : String) (exit_code : ℕ) (expected : GateExecutionContext)
      {directive : EvidenceDirective}
      → gate_evidence_contract hashing globset world contract request intent gate_id exit_code
          expected
        ≡ recorded directive
      → (key : Bytes) × (before : EnforcementPlan) × (request.receipt_key ≡ some key)
        × (plan_contract hashing globset world contract without_run intent ≡ done before)
        × (record_gate hashing before gate_id exit_code expected key ≡ recorded directive)
  unfolding gate_evidence_contract gate_evidence_with
  gate_evidence-parts gate_id exit_code expected e = elim (Option-cases request.receipt_key) [
    | inl missing ↦ absurd (ground (arith, rw (missing, gate_evidence_contract) at e))
    | inr (key, present) ↦ elim (Bool-cases (ltb (length key) 32)) [
      | inl short ↦ absurd (ground (arith, rw (present, short, gate_evidence_contract) at e))
      | inr long ↦
          elim (IoResult-cases (plan_contract hashing globset world contract without_run intent)) [
            | inl failed ↦ absurd (
                ground (
                  arith,
                  rw (present, long, failed, gate_evidence_contract, gate_evidence_with) at e,
                ))
            | inr (before, made) ↦ (
              key,
              before,
              present,
              made,
              rw (present, long, made, gate_evidence_contract, gate_evidence_with) at e,
            )
          ]
    ]
  ]

  -- The plan that is made when a receipt of the gate is applied.
  settled :
      (gate_id dir : String) (key : Bytes) (before plan : EnforcementPlan) (gate : SelectedGate)
      → request.run_dir ≡ some dir
      → request.receipt_key ≡ some key
      → Related before plan gates
      → before.ok ≡ true
      → find (has_id gate_id) before.required_gates ≡ some gate
      → IsApplied world dir
          (attempt_effects hashing key (attempt_subject hashing before gate gate_id 0))
      → any (has_id gate_id) plan.required_gates ≡ false
  unfolding receipt_status
  settled gate_id dir key before plan gate r k
        (ok_same, action, digest, fingerprint, binding, all_required, now_required, distinct, asked)
        ok found h =
      let named : gate.id ≡ gate_id =
        (eq_iff gate.id gate_id).0 (find-holds (has_id gate_id) before.required_gates found) in
      let applied : IsApplied world dir
          (attempt_effects hashing key (attempt_subject hashing before gate gate.id 0)) =
        subst
          (λ x.
            IsApplied world dir
              (attempt_effects hashing key (attempt_subject hashing before gate x 0)))
          (sym named) h in
      let held : receipt_is_current hashing world dir before.action gate before.contract_digest
            before.workspace_fingerprint before.authorization_binding key
          ≡ true =
        attempt_effects-receipt_is_current hashing key world dir before gate applied in
      let moved : receipt_is_current hashing world dir request.action gate plan.contract_digest
            plan.workspace_fingerprint plan.authorization_binding key
          ≡ true =
        rw (asked, ← action, ← digest, ← fingerprint, ← binding) held in
      let before_gates : before.required_gates ≡ gates = rw ok at all_required in
      let plan_ok : plan.ok ≡ true = sym ok_same ∙ ok in
      let still : plan.required_gates
          ≡ pending gates (
              map
                (receipt_status hashing globset world request plan.contract_digest
                  plan.workspace_fingerprint plan.authorization_binding)
                gates) =
        rw plan_ok at now_required in
      rw still
        (pending_current _ gate_id gates distinct (rw before_gates at found) (rw (r, k) moved))

  -- If the evidence of a passing run of a gate is recorded and applied to the run directory, then a
  -- plan that is made with it does not require the gate.
  pub gate_evidence_settles :
      (gate_id : String) (expected : GateExecutionContext) {dir : String}
      {directive : EvidenceDirective} {plan : EnforcementPlan}
      → request.run_dir ≡ some dir
      → gate_evidence_contract hashing globset world contract request intent gate_id 0 expected
        ≡ recorded directive
      → IsApplied world dir directive
      → plan_contract hashing globset world contract request intent ≡ done plan
      → any (has_id gate_id) plan.required_gates ≡ false
  gate_evidence_settles gate_id expected {dir} {directive} {plan} r e h p =
      let (key, before, present, made, done_so) = gate_evidence-parts gate_id 0 expected e in
      let (gate, ok, found, effects) = record_gate-parts before gate_id 0 expected key done_so in
      settled gate_id dir key before plan gate r present (Related-plans made p) ok found
        (subst (IsApplied world dir) (sym effects) h)
