-- ===== src/Enforcement/Outcomes.antt =====
-- Outcomes and releases of tool calls (enforcement.rs).
use nopal.Prelude.{
  ◌≡◌, refl, sym, subst, ◌↔◌, arith, Bool-cases, inl, inr, String, Bool, true, false, ltb, length,
}
use nopal.LedgerJson.Value.{Bytes}
use nopal.Policy.Vocabulary.{ask}
use nopal.Enforcement.World.{Hashing, World, as_bytes}
use nopal.Enforcement.Signature.{constant_time_eq, capability_matches}
use nopal.Enforcement.Constant.{capability_matches_eq, constant_time_eq_refl}
use nopal.Enforcement.Frames.{as_bytes_injective}
use nopal.Enforcement.Receipts.{release_signature, approval_is_current}
use nopal.Enforcement.Plan.{EnforcementPlan, decision_eq}
use nopal.Enforcement.Evidence.{
  Recorded, recorded, EvidenceDirective, ToolOutcome, tool_outcome_evidence,
  authorization_release_id, authorization_release_evidence, release_effects,
}
use nopal.Enforcement.Applied.{IsApplied}

abbrev pub is_recorded {ℓ} : {A : Type ℓ} → Recorded A → Bool
is_recorded (recorded a) = true
is_recorded _ = false

module _ (hashing : Hashing) (key : Bytes) where
  same_text : (s t : String) → (constant_time_eq (as_bytes s) (as_bytes t) ≡ true) ↔ (s ≡ t)
  same_text s t = (
    λ h.
        as_bytes_injective s t
          (unfold capability_matches in (capability_matches_eq (as_bytes s) (as_bytes t)).0 h),
    λ e.
        subst (λ x. constant_time_eq (as_bytes s) (as_bytes x) ≡ true) e
          (constant_time_eq_refl (as_bytes s)),
  )

  -- The outcome of a call is recorded exactly if the key has 32 bytes or more and the release is the
  -- one that the key signs for this action, binding and call.
  pub tool_outcome_evidence_exactly :
      (action binding tool_call_id release_id : String) (outcome : ToolOutcome)
      → (is_recorded
            (tool_outcome_evidence hashing action binding tool_call_id release_id outcome key)
          ≡ true)
        ↔ ((ltb (length key) 32 ≡ false)
            × (release_signature hashing key action binding tool_call_id ≡ release_id))
  unfolding tool_outcome_evidence
  tool_outcome_evidence_exactly action binding tool_call_id release_id outcome =
      let expected : String = release_signature hashing key action binding tool_call_id in
      (
        λ h. (ground (arith, h), (same_text expected release_id).0 (ground (arith, h))),
        λ h. rw (h.0, (same_text expected release_id).1 h.1) refl,
      )

  released :
      (plan : EnforcementPlan) {directive : EvidenceDirective}
      → authorization_release_evidence hashing plan key ≡ recorded directive
      → (plan.authorized ≡ true)
        × (release_effects hashing plan (
              release_signature hashing key plan.action plan.authorization_binding
                plan.intent.tool_call_id)
            ≡ directive)
  unfolding authorization_release_evidence authorization_release_id
  released plan e = elim (Bool-cases plan.authorized) [
    | inr t ↦
        absurd
          (ground (arith, rw (t, authorization_release_id, authorization_release_evidence) at e))
    | inl t ↦ elim (Bool-cases (ltb (length key) 32)) [
      | inl u ↦
          absurd (
            ground
              (arith, rw (t, u, authorization_release_id, authorization_release_evidence) at e))
      | inr u ↦
          let parts : recorded (
                release_effects hashing plan (
                  release_signature hashing key plan.action plan.authorization_binding
                    plan.intent.tool_call_id))
              ≡ recorded _ =
            rw (t, u, authorization_release_id, authorization_release_evidence) at e in
          (t, cc)
    ]
  ]

  removed :
      (world : World) (dir : String) (plan : EnforcementPlan) (release_id : String)
      → decision_eq plan.decision ask ≡ true
      → IsApplied world dir (release_effects hashing plan release_id)
      → approval_is_current hashing world dir plan.action plan.authorization_binding key ≡ false
  unfolding release_effects approval_is_current
  removed world dir plan release_id asked h =
      rw ((rw (asked, release_effects) at h).1.0, approval_is_current) refl

  -- If the release of an action that the policy asks about is recorded and applied, then the plan
  -- authorized the action, and its approval is current no more.
  pub release_uses_approval :
      (world : World) (dir : String) (plan : EnforcementPlan) {directive : EvidenceDirective}
      → decision_eq plan.decision ask ≡ true
      → authorization_release_evidence hashing plan key ≡ recorded directive
      → IsApplied world dir directive
      → (plan.authorized ≡ true)
        × (approval_is_current hashing world dir plan.action plan.authorization_binding key ≡ false)
  release_uses_approval world dir plan asked e h =
      let (authorized, same) = released plan e in
      (authorized, removed world dir plan _ asked (subst (IsApplied world dir) (sym same) h))
