-- ===== src/Enforcement/Applied.antt =====
-- Evidence that has been applied is accepted: receipts, approvals and outcomes of enforcement.rs.
use nopal.Prelude.{
  ℕ, ◌≡◌, refl, sym, subst, arith, Bool-cases, inl, inr, String, Bool, true, false, not, ◌||◌,
  if◌then◌else◌, none, some, [], ◌∷◌, All, ltb, length,
}
use nopal.Ledger.Names.{codes}
use nopal.LedgerJson.Value.{
  Bytes, Chars, Value, number, insert_field, field_value, chars_eq, chars_lt, get_value, value_str,
}
use nopal.Policy.Vocabulary.{ask}
use nopal.Selection.Types.{SelectedGate}
use nopal.Enforcement.World.{Hashing, World, as_bytes, join_path}
use nopal.Enforcement.Signature.{ReceiptSignatureSubject, receipt_signature}
use nopal.Enforcement.Constant.{constant_time_eq_refl}
use nopal.Enforcement.Receipts.{
  exit_code_text, parse_i64, digits_value, as_i64, decimal, field_is_text, field_is_true,
  field_is_zero, field_is_signed, approval_relative_path, approval_signature, receipt_holds,
  approval_holds, receipt_is_current, approval_is_current,
}
use nopal.Enforcement.Plan.{EnforcementPlan, decision_eq}
use nopal.Enforcement.Evidence.{
  EvidenceEffect, append_event, write_json, create_json, remove_file, recorded, EvidenceDirective,
  text, attempt_subject, attempt_payload, attempt_effects, approval_payload, approval_evidence,
}

chars_eq_refl : (cs : Chars) → chars_eq cs cs ≡ true
unfolding chars_eq
chars_eq_refl [] = refl
chars_eq_refl (c ∷ cs) = ground (arith, chars_eq_refl cs)

module _ (receipt : Value) where
  field_text :
      (key s : String)
      → get_value receipt (codes key) ≡ some (text s)
      → field_is_text receipt key s ≡ true
  unfolding field_is_text value_str
  field_text key s e = rw (e, field_is_text) (chars_eq_refl (codes s))

  field_signed :
      (s : String)
      → get_value receipt (codes "signature") ≡ some (text s)
      → field_is_signed receipt s ≡ true
  unfolding field_is_signed value_str
  field_signed s e = rw (e, field_is_signed) (constant_time_eq_refl (as_bytes s))

  field_zero :
      (key : String) (n : ℕ)
      → n ≡ 0
      → get_value receipt (codes key) ≡ some (number (exit_code_text n))
      → field_is_zero receipt key ≡ true
  unfolding field_is_zero exit_code_text decimal as_i64 parse_i64 digits_value
  field_zero key n z e =
      let at_zero : get_value receipt (codes key) ≡ some (number (exit_code_text 0)) = rw z at e in
      rw (at_zero, field_is_zero) refl

-- What a store reads after the effects of a directive.
abbrev IsAppliedEffect : World → String → EvidenceEffect → Type 0
IsAppliedEffect world dir (append_event event payload) = Unit
IsAppliedEffect world dir (write_json path payload) =
    world.read_json (join_path dir path) ≡ some payload
IsAppliedEffect world dir (create_json path payload) =
    world.read_json (join_path dir path) ≡ some payload
IsAppliedEffect world dir (remove_file path ignore_missing) =
    world.read_json (join_path dir path) ≡ none

abbrev pub IsApplied : World → String → EvidenceDirective → Type 0
IsApplied world dir = All (IsAppliedEffect world dir)

module _ (hashing : Hashing) (key : Bytes) where
  -- The receipt of a passing attempt is accepted for what it signs.
  attempt_payload-holds :
      (s : ReceiptSignatureSubject)
      → s.exit_code ≡ 0
      → receipt_holds hashing key s (attempt_payload hashing s (receipt_signature hashing key s))
        ≡ true
  unfolding receipt_holds attempt_payload get_value field_value insert_field chars_eq chars_lt
      field_is_zero
  attempt_payload-holds s e =
      let signature : String = receipt_signature hashing key s in
      let receipt : Value = attempt_payload hashing s signature in
      rw
        (
          field_text receipt "action" s.action refl,
          field_zero receipt "exit_code" s.exit_code e refl,
          field_text receipt "contract_digest" s.contract_digest refl,
          field_text receipt "workspace_fingerprint" s.workspace_fingerprint refl,
          field_text receipt "gate_definition_digest" s.gate_definition_digest refl,
          field_text receipt "authorization_binding" s.authorization_binding refl,
          field_signed receipt signature refl,
        )
        refl

  approval_payload-holds :
      (plan : EnforcementPlan) (by : String)
      → approval_holds hashing key plan.action plan.authorization_binding (
          approval_payload hashing plan true by
            (approval_signature hashing key plan.action plan.authorization_binding true))
        ≡ true
  unfolding approval_holds approval_payload get_value field_value insert_field chars_eq chars_lt
      field_is_true
  approval_payload-holds plan by =
      let receipt : Value =
        approval_payload hashing plan true by
          (approval_signature hashing key plan.action plan.authorization_binding true) in
      rw
        (
          field_text receipt "action" plan.action refl,
          field_text receipt "authorization_binding" plan.authorization_binding refl,
          field_signed receipt
              (approval_signature hashing key plan.action plan.authorization_binding true) refl,
        )
        refl

  module _ (world : World) (dir : String) where
    -- A passing attempt, once applied, is a current receipt of its gate.
    pub attempt_effects-receipt_is_current :
        (plan : EnforcementPlan) (gate : SelectedGate)
        → IsApplied world dir
            (attempt_effects hashing key (attempt_subject hashing plan gate gate.id 0))
        → receipt_is_current hashing world dir plan.action gate plan.contract_digest
            plan.workspace_fingerprint plan.authorization_binding key
          ≡ true
    unfolding attempt_effects receipt_is_current
    attempt_effects-receipt_is_current plan gate h =
        rw (h.1.0, receipt_is_current)
          (attempt_payload-holds (attempt_subject hashing plan gate gate.id 0) refl)

    -- The effects of an approval, without its checks.
    approval_effects : EnforcementPlan → Bool → String → EvidenceDirective
    approval_effects plan approved by =
        let path = approval_relative_path plan.authorization_binding in
        let payload =
          approval_payload hashing plan approved by
            (approval_signature hashing key plan.action plan.authorization_binding approved) in
        (if approved then write_json path payload else remove_file path true)
        ∷ append_event "action_approval" payload
        ∷ []

    approval_effects-recorded :
        (plan : EnforcementPlan) (approved : Bool) (by : String) {directive : EvidenceDirective}
        → approval_evidence hashing plan approved by key ≡ recorded directive
        → (approval_effects plan approved by ≡ directive)
          × (plan.ok ≡ true)
          × (decision_eq plan.decision ask ≡ true)
    unfolding approval_evidence approval_effects
    approval_effects-recorded plan approved by e =
        elim (Bool-cases (not plan.ok || not (decision_eq plan.decision ask))) [
          | inl t ↦ absurd (ground (arith, rw (t, approval_evidence) at e))
          | inr t ↦ elim (Bool-cases (ltb (length key) 32)) [
            | inl u ↦ absurd (ground (arith, rw (t, u, approval_evidence) at e))
            | inr u ↦
                let parts : recorded (approval_effects plan approved by) ≡ recorded _ =
                  rw (t, u, approval_evidence) at e in
                (cc, ground (arith, t), ground (arith, t))
          ]
        ]

    approval_effects-current :
        (plan : EnforcementPlan) (approved : Bool) (by : String)
        → IsApplied world dir (approval_effects plan approved by)
        → approval_is_current hashing world dir plan.action plan.authorization_binding key
          ≡ approved
    unfolding approval_effects approval_is_current
    approval_effects-current plan true by h =
        rw (h.0, approval_is_current) (approval_payload-holds plan by)
    approval_effects-current plan false by h = rw (h.0, approval_is_current) refl

    -- An approval decides, once applied, whether the ask is approved.
    pub approval_evidence-approval_is_current :
        (plan : EnforcementPlan) (approved : Bool) (by : String) {directive : EvidenceDirective}
        → approval_evidence hashing plan approved by key ≡ recorded directive
        → IsApplied world dir directive
        → (plan.ok ≡ true)
          × (decision_eq plan.decision ask ≡ true)
          × (approval_is_current hashing world dir plan.action plan.authorization_binding key
              ≡ approved)
    approval_evidence-approval_is_current plan approved by e h =
        let (same, ok, asked) = approval_effects-recorded plan approved by e in
        (
          ok,
          asked,
          approval_effects-current plan approved by (subst (IsApplied world dir) (sym same) h),
        )
