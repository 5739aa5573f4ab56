-- ===== src/Enforcement/Closed.antt =====
-- What closes a plan of enforcement.rs: an error of the contract, or a fault of the request.
use nopal.Prelude.{
  ◌≡◌, refl, ap, sym, ◌∙◌, arith, Bool-cases, Option-cases, inl, inr, subst, String, Bool, true,
  false, not, ◌||◌, ◌==◌, [], ◌∷◌, ◌++◌, any, all, find, is_some, is_some_and, any-find,
}
use nopal.Diagnostics.Codes.{field_invalid}
use nopal.Diagnostics.Report.{Diagnostic, error_diagnostic, new_diagnostic}
use nopal.Diagnostics.Said.{Said, say}
use nopal.PolicyReport.Run.{done}
use nopal.Selection.Globs.{Globset}
use nopal.Enforcement.Intent.{
  EnforcementRequest, EnforcementIntent, intent_kind, is_blank, is_unconfined, named_fields,
  validate_intent, action_classes_valid,
}
use nopal.Enforcement.World.{Hashing, World}
use nopal.Enforcement.Plan.{
  EffectiveContract, EnforcementPlan, is_clean, intent_diagnostics, fingerprint_of, plan_contract,
}
use nopal.Enforcement.Authorized.{
  IsClosed, is_clean-append, of_planned_read, finish_plan-IsClosed, diagnosed, required,
}

module _ (debug : String → String) (request : EnforcementRequest) (intent : EnforcementIntent) where
  -- A field that identifies the call is blank.
  abbrev has_blank : Bool
  has_blank = any is_blank (
      intent.launch_id ∷ intent.session_id ∷ intent.tool_call_id ∷ intent.tool_name
      ∷ intent.input_digest ∷ intent.target_digest ∷ intent.executor_digest ∷ [])

  -- The intent is of another kind, has a blank field or a path that is not confined, or the classes
  -- are not those of the action.
  abbrev is_malformed : Bool
  is_malformed =
      not (intent.kind == intent_kind)
      || has_blank
      || any is_unconfined intent.changed_files
      || not (action_classes_valid request.action request.classes)

  blank_found :
      is_some (find (λ (f : String × String). is_blank f.1) (named_fields intent)) ≡ has_blank
  unfolding named_fields any
  blank_found = sym (any-find (λ (f : String × String). is_blank f.1) (named_fields intent))

  validate_intent-refuses :
      is_some (validate_intent debug intent)
      ≡ (not (intent.kind == intent_kind) || has_blank || any is_unconfined intent.changed_files)
  unfolding validate_intent
  validate_intent-refuses = elim (Bool-cases (intent.kind == intent_kind)) [
    | inr other ↦ rw (other, validate_intent) refl
    | inl same ↦
        elim (Option-cases (find (λ (f : String × String). is_blank f.1) (named_fields intent))) [
          | inl none_blank ↦
              let filled : has_blank ≡ false = sym blank_found ∙ ap is_some none_blank in
              elim (Bool-cases (any is_unconfined intent.changed_files)) [
                | inl open_path ↦ rw (same, none_blank, open_path, filled, validate_intent) refl
                | inr confined ↦ rw (same, none_blank, confined, filled, validate_intent) refl
              ]
          | inr (field, blank) ↦
              let empty_field : has_blank ≡ true = sym blank_found ∙ ap is_some blank in
              rw (same, blank, empty_field, validate_intent) refl
        ]
  ]

  intent_diagnostics-unclean :
      is_malformed ≡ true → is_clean (intent_diagnostics debug request intent) ≡ false
  unfolding intent_diagnostics is_clean all error_diagnostic new_diagnostic
  intent_diagnostics-unclean h =
      elim (Bool-cases (action_classes_valid request.action request.classes)) [
        | inr invalid ↦ elim (Option-cases (validate_intent debug intent)) [
          | inl accepted ↦ rw (accepted, invalid, intent_diagnostics) refl
          | inr (message, refused) ↦ rw (refused, intent_diagnostics) refl
        ]
        | inl valid ↦ elim (Option-cases (validate_intent debug intent)) [
          | inl accepted ↦
              let none_said = ap is_some accepted in
              absurd (ground (arith, h, valid, validate_intent-refuses, none_said))
          | inr (message, refused) ↦ rw (refused, intent_diagnostics) refl
        ]
      ]

module _ (hashing : Hashing) (globset : Globset) (world : World) (contract : EffectiveContract)
    (request : EnforcementRequest) (intent : EnforcementIntent) where
  abbrev gives_empty : Bool
  gives_empty = is_some_and intent.workspace_fingerprint (λ f. f == "")

  abbrev pub has_fault : Bool
  has_fault =
      not (is_clean contract.diagnostics)
      || is_malformed hashing.debug request intent
      || gives_empty

  abbrev empty_fingerprint : Diagnostic
  empty_fingerprint =
      error_diagnostic field_invalid "enforcement.intent"
        "workspace_fingerprint must not be empty when supplied"

  fingerprint_of-unclean :
      {fingerprint : Said String}
      → gives_empty ≡ true
      → fingerprint_of hashing globset world request intent ≡ done fingerprint
      → is_clean fingerprint.said ≡ false
  unfolding fingerprint_of is_clean all error_diagnostic new_diagnostic
  fingerprint_of-unclean {fingerprint} h e = elim (Option-cases intent.workspace_fingerprint) [
    | inl absent ↦ absurd (ground (arith, rw absent at h))
    | inr (given, present) ↦
        let blank : (given == "") ≡ true = rw present at h in
        let read : done (say "" (empty_fingerprint ∷ [])) ≡ done fingerprint =
          rw (present, blank, fingerprint_of) at e in
        let same : say "" (empty_fingerprint ∷ []) ≡ fingerprint = cc in
        subst (λ (f : Said String). is_clean f.said ≡ false) same refl
  ]

  -- If the contract has an error, or the intent is of another kind, has a blank field, a path that
  -- is not confined or an empty fingerprint, or the classes are not those of the action, then the
  -- plan is not ok: it denies, its placement is blocked, it asks for no gate and authorizes nothing.
  pub plan_contract-IsClosed :
      {plan : EnforcementPlan}
      → has_fault ≡ true
      → plan_contract hashing globset world contract request intent ≡ done plan
      → IsClosed plan
  plan_contract-IsClosed h e =
      of_planned_read hashing globset world contract request intent e IsClosed λ f read.
        finish_plan-IsClosed hashing globset world contract request intent _ _ _ _ (
          ground (
            arith,
            h,
            intent_diagnostics-unclean hashing.debug request intent,
            fingerprint_of-unclean {fingerprint = f},
            read,
            is_clean-append contract.diagnostics (intent_diagnostics hashing.debug request intent),
            is_clean-append (diagnosed hashing globset world contract request intent)
                (required hashing globset world contract request intent).said,
            is_clean-append
                (diagnosed hashing globset world contract request intent
                  ++ (required hashing globset world contract request intent).said)
                f.said,
          ))
