-- ===== src/Enforcement/Isolated.antt =====
-- Which tests a validated `agent_isolation` has passed (isolation.rs).
use nopal.Prelude.{
  ◌≡◌, refl, arith, Bool-cases, Option-cases, inl, inr, String, Bool, true, not, ◌&&◌, Option, none,
  some, List, [], ◌∷◌, ◌++◌, is_empty, is_none_or, all,
}
use nopal.Json.{Json, and_then}
use nopal.Diagnostics.Report.{Diagnostic}
use nopal.Diagnostics.Said.{Said}
use nopal.Enforcement.Intent.{is_blank}
use nopal.Enforcement.Isolation.{
  OrchestratorPlacement, DelegatePlacement, RuntimeProvider, RuntimeProfile, AgentIsolation,
  profile_name_valid, binding_valid, is_unique, manual_root_valid, read_manual_root,
  read_orchestrator, read_delegate, validate_fallback, validate_preparation,
}
use nopal.Enforcement.Profiles.{
  command, read_provider, read_profile, profile_entry, read_profiles, validate_profiles,
  isolation_of, validate_fields, validate_isolation,
}

abbrev pub is_runnable : RuntimeProvider → Bool
is_runnable p =
    not (is_blank p.allocate)
    && not (is_blank p.verify)
    && not (is_blank p.release)
    && not (is_blank p.reconcile)

-- The name is a path segment, the bindings are names, each once, and the commands are not blank.
abbrev pub is_well_formed : RuntimeProfile → Bool
is_well_formed p =
    profile_name_valid p.name
    && not (is_empty p.required_bindings)
    && is_unique p.required_bindings
    && all binding_valid p.required_bindings
    && is_runnable p.provider

is_empty-append : (xs ys : List Diagnostic) → is_empty (xs ++ ys) ≡ (is_empty xs && is_empty ys)
is_empty-append [] ys = refl
is_empty-append (x ∷ xs) ys = refl

module _ (json : Json) (path : String) where
  command-not_blank :
      (provider : json.Object) (key : String)
      → is_none_or (command json path provider key) (λ s. not (is_blank s)) ≡ true
  unfolding command
  command-not_blank provider key =
      elim (Option-cases (and_then (json.get provider key) json.as_str)) [
        | inl e ↦ rw (e, command) refl
        | inr (s, e) ↦ elim (Bool-cases (is_blank s)) [
          | inl b ↦ rw (e, command, b) refl
          | inr b ↦ rw (e, command, b) (ground (arith, b))
        ]
      ]

  read_provider-is_runnable :
      (provider : json.Object) → is_none_or (read_provider json path provider) is_runnable ≡ true
  unfolding read_provider
  read_provider-is_runnable provider = ground (
    arith,
    command-not_blank provider "allocate",
    command-not_blank provider "verify",
    command-not_blank provider "release",
    command-not_blank provider "reconcile",
  )

  profile_entry-is_well_formed :
      (name : String) (value : json.Value)
      → is_empty (profile_entry json path name value).said ≡ true
      → is_none_or (profile_entry json path name value).value is_well_formed ≡ true
  unfolding profile_entry read_profile
  profile_entry-is_well_formed name value h = elim (Option-cases (json.as_object value)) [
    | inl o ↦ rw (o, profile_entry) refl
    | inr (profile, o) ↦
        elim (Option-cases (and_then (json.get profile "provider") json.as_object)) [
          | inl q ↦ rw (o, profile_entry, q, read_profile) refl
          | inr (provider, q) ↦ elim (Option-cases (read_provider json path provider)) [
            | inl r ↦ rw (o, profile_entry, q, read_profile, r) refl
            | inr (p, r) ↦
                let runs : is_runnable p ≡ true = rw r at (read_provider-is_runnable provider) in
                let silent : is_empty _ ≡ true = rw (o, profile_entry, q, read_profile, r) at h in
                rw (o, profile_entry, q, read_profile, r) (ground (arith, runs, silent))
          ]
        ]
  ]

  read_profiles-well_formed :
      (entries : List (String × json.Value))
      → is_empty (read_profiles json path entries).said ≡ true
      → all is_well_formed (read_profiles json path entries).value ≡ true
  unfolding read_profiles all
  read_profiles-well_formed [] h = refl
  read_profiles-well_formed (e ∷ entries) h = ground (
    arith,
    h,
    is_empty-append (profile_entry json path e.0 e.1).said (read_profiles json path entries).said,
    profile_entry-is_well_formed e.0 e.1,
    read_profiles-well_formed entries,
  )

  validate_profiles-well_formed :
      (field : Option json.Value)
      → is_empty (validate_profiles json path field).said ≡ true
      → all is_well_formed (validate_profiles json path field).value ≡ true
  unfolding validate_profiles all
  validate_profiles-well_formed none h = refl
  validate_profiles-well_formed (some value) h = elim (Option-cases (json.as_object value)) [
    | inl o ↦ rw (o, validate_profiles) refl
    | inr (profiles, o) ↦
        rw (o, validate_profiles)
          (read_profiles-well_formed (json.entries profiles) (rw (o, validate_profiles) at h))
  ]

  read_manual_root-valid :
      (field : Option json.Value)
      → is_none_or (read_manual_root json path field).value manual_root_valid ≡ true
  unfolding read_manual_root manual_root_valid
  read_manual_root-valid none = refl
  read_manual_root-valid (some value) = elim (Option-cases (json.as_str value)) [
    | inl o ↦ rw (o, read_manual_root) refl
    | inr (s, o) ↦ elim (Bool-cases (manual_root_valid s)) [
      | inl v ↦ rw (o, read_manual_root, v) v
      | inr v ↦ rw (o, read_manual_root, v) refl
    ]
  ]

  abbrev is_sound : AgentIsolation → Bool
  is_sound isolation =
      manual_root_valid isolation.manual_root && all is_well_formed isolation.runtime_profiles

  isolation_of-is_sound :
      (o : Option OrchestratorPlacement) (d : Option DelegatePlacement) (root : Option String)
      (profiles : List RuntimeProfile)
      → is_none_or root manual_root_valid ≡ true
      → all is_well_formed profiles ≡ true
      → is_none_or (isolation_of json path o d root profiles) is_sound ≡ true
  unfolding isolation_of
  isolation_of-is_sound none d root profiles h k = refl
  isolation_of-is_sound (some o) none root profiles h k = refl
  isolation_of-is_sound (some o) (some d) none profiles h k = refl
  isolation_of-is_sound (some o) (some d) (some root) profiles h k = rw (h, k) refl

  -- A value stands with no diagnostic, and is sound.
  abbrev IsSound : Said (Option AgentIsolation) → Type 0
  IsSound m = is_none_or m.value (λ isolation. is_empty m.said && is_sound isolation) ≡ true

  sound_of :
      (m : Option AgentIsolation)
      → is_none_or m is_sound ≡ true
      → is_none_or m (λ isolation. true && is_sound isolation) ≡ true
  sound_of none h = refl
  sound_of (some isolation) h = h

  validate_fields-IsSound : (fields : json.Object) → IsSound (validate_fields json path fields)
  unfolding validate_fields
  validate_fields-IsSound fields =
      let o : List Diagnostic =
        (read_orchestrator json path (json.get fields "orchestrator")).said in
      let d : List Diagnostic = (read_delegate json path (json.get fields "delegate")).said in
      let m : List Diagnostic = (read_manual_root json path (json.get fields "manual_root")).said in
      let f : List Diagnostic = validate_fallback json path (json.get fields "fallback") in
      let p : List Diagnostic = validate_preparation json path (json.get fields "preparation") in
      let r : List Diagnostic =
        (validate_profiles json path (json.get fields "runtime_profiles")).said in
      elim (Bool-cases (is_empty (o ++ (d ++ (m ++ (f ++ (p ++ r))))))) [
        | inl silent ↦
            let profiles : is_empty r ≡ true = ground (
              arith,
              silent,
              is_empty-append o (d ++ (m ++ (f ++ (p ++ r)))),
              is_empty-append d (m ++ (f ++ (p ++ r))),
              is_empty-append m (f ++ (p ++ r)),
              is_empty-append f (p ++ r),
              is_empty-append p r,
            ) in
            rw silent (
              sound_of _ (
                isolation_of-is_sound _ _ _ _
                  (read_manual_root-valid (json.get fields "manual_root"))
                  (validate_profiles-well_formed (json.get fields "runtime_profiles") profiles)))
        | inr said ↦ rw said refl
      ]

  validate_isolation-IsSound : (value : json.Value) → IsSound (validate_isolation json path value)
  unfolding validate_isolation
  validate_isolation-IsSound value = elim (Option-cases (json.as_object value)) [
    | inl o ↦ rw (o, validate_isolation) refl
    | inr (fields, o) ↦ rw (o, validate_isolation) (validate_fields-IsSound fields)
  ]

  pub validate_isolation-tested :
      (value : json.Value) {isolation : AgentIsolation}
      → (validate_isolation json path value).value ≡ some isolation
      → (is_empty (validate_isolation json path value).said ≡ true)
        × (manual_root_valid isolation.manual_root ≡ true)
        × (all is_well_formed isolation.runtime_profiles ≡ true)
  validate_isolation-tested value h =
      let sound = rw h at (validate_isolation-IsSound value) in
      (ground (arith, sound), ground (arith, sound), ground (arith, sound))
