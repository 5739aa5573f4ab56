-- ===== src/Enforcement/Profiles.antt =====
-- The runtime profiles of `agent_isolation`, and the whole of its validation (isolation.rs).
use nopal.Prelude.{
  String, Bool, false, not, ◌&&◌, Option, none, some, List, [], ◌∷◌, ◌++◌, if◌then◌else◌, is_empty,
  is_some, all, concat,
}
use nopal.Json.{Json, and_then}
use nopal.Diagnostics.Report.{Diagnostic}
use nopal.Diagnostics.Said.{Said, say, quiet, after}
use nopal.Enforcement.Intent.{is_blank}
use nopal.Enforcement.Isolation.{
  OrchestratorPlacement, DelegatePlacement, RuntimeProvider, RuntimeProfile, AgentIsolation,
  profile_name_valid, binding_valid, is_unique, invalid, read_orchestrator, read_delegate,
  read_manual_root, validate_fallback, validate_preparation,
}

module _ (json : Json) (path : String) where
  -- `filter_map(as_str)`
  unfoldable pub texts_of : List json.Value → List String
  texts_of [] = []
  texts_of (item ∷ items) =
      let rest = texts_of items in elim (json.as_str item) [ some s ↦ s ∷ rest | none ↦ rest ]

  -- The bindings, and whether all are texts.
  unfoldable pub read_bindings : Option json.Value → List String × Bool
  read_bindings field = elim (and_then field json.as_array) [
    | some items ↦ (texts_of items, all (λ item. is_some (json.as_str item)) items)
    | none ↦ ([], false)
  ]

  abbrev pub has_valid_bindings : List String × Bool → Bool
  has_valid_bindings (bindings, well_typed) =
      well_typed && not (is_empty bindings) && is_unique bindings && all binding_valid bindings

  -- A command of the provider that is not blank.
  unfoldable pub command : json.Object → String → Option String
  command provider key = elim (and_then (json.get provider key) json.as_str) [
    | some s ↦ if is_blank s then none else some s
    | none ↦ none
  ]

  unfoldable pub read_provider : json.Object → Option RuntimeProvider
  read_provider provider = and_then (command provider "allocate") λ allocate.
      and_then (command provider "verify") λ verify.
        and_then (command provider "release") λ release.
          and_then (command provider "reconcile") λ reconcile. some (record {
            allocate = allocate;
            verify = verify;
            release = release;
            reconcile = reconcile;
          })

  abbrev pub about : String → String → List Diagnostic
  about name message =
      invalid json path (concat ("runtime profile " ∷ json.debug name ∷ message ∷ []))

  unfoldable pub read_profile : String → json.Object → Said (Option RuntimeProfile)
  read_profile name profile =
      let bindings = read_bindings (json.get profile "required_bindings") in
      after
        (if has_valid_bindings bindings
          then []
          else about name
              " required_bindings must be a non-empty array of unique uppercase environment-name strings")
        (elim (and_then (json.get profile "provider") json.as_object) [
          | none ↦ say none (about name " requires a provider object")
          | some provider ↦ elim (read_provider provider) [
            | none ↦ say none (
                about name
                  " provider requires non-empty allocate, verify, release, and reconcile commands")
            | some p ↦
                quiet (some (record { name = name; required_bindings = bindings.0; provider = p }))
          ]
        ])

  unfoldable pub profile_entry : String → json.Value → Said (Option RuntimeProfile)
  profile_entry name value =
      after
        (if profile_name_valid name
          then []
          else invalid json path (
              concat (
                "runtime profile name "
                ∷ json.debug name
                ∷ " is not a lowercase path-safe segment"
                ∷ [])))
        (elim (json.as_object value) [
          | some profile ↦ read_profile name profile
          | none ↦ say none (about name " must be an object")
        ])

  abbrev pub push_profile : Option RuntimeProfile → List RuntimeProfile → List RuntimeProfile
  push_profile none profiles = profiles
  push_profile (some p) profiles = p ∷ profiles

  unfoldable pub read_profiles : List (String × json.Value) → Said (List RuntimeProfile)
  read_profiles [] = quiet []
  read_profiles (e ∷ entries) =
      let first = profile_entry e.0 e.1 in
      let rest = read_profiles entries in
      say (push_profile first.value rest.value) (first.said ++ rest.said)

  unfoldable pub validate_profiles : Option json.Value → Said (List RuntimeProfile)
  validate_profiles none = quiet []
  validate_profiles (some value) = elim (json.as_object value) [
    | none ↦ say [] (invalid json path "agent_isolation.runtime_profiles must be an object")
    | some profiles ↦ read_profiles (json.entries profiles)
  ]

  -- `zip` of the three optional fields.
  unfoldable pub isolation_of :
      Option OrchestratorPlacement
      → Option DelegatePlacement
      → Option String
      → List RuntimeProfile
      → Option AgentIsolation
  isolation_of orchestrator delegate manual_root profiles = and_then orchestrator λ o.
      and_then delegate λ d. and_then manual_root λ root.
        some (record {
          orchestrator = o;
          delegate = d;
          manual_root = root;
          runtime_profiles = profiles;
        })

  unfoldable pub validate_fields : json.Object → Said (Option AgentIsolation)
  validate_fields fields =
      let orchestrator = read_orchestrator json path (json.get fields "orchestrator") in
      let delegate = read_delegate json path (json.get fields "delegate") in
      let root = read_manual_root json path (json.get fields "manual_root") in
      let profiles = validate_profiles (json.get fields "runtime_profiles") in
      let said =
        orchestrator.said
        ++ (delegate.said
            ++ (root.said
                ++ (validate_fallback json path (json.get fields "fallback")
                    ++ (validate_preparation json path (json.get fields "preparation")
                        ++ profiles.said)))) in
      say
        (if is_empty said
          then isolation_of orchestrator.value delegate.value root.value profiles.value
          else none)
        said

  -- `validate`
  unfoldable pub validate_isolation : json.Value → Said (Option AgentIsolation)
  validate_isolation value = elim (json.as_object value) [
    | some fields ↦ validate_fields fields
    | none ↦ say none (invalid json path "agent_isolation must be an object")
  ]
