-- ===== src/Enforcement/Isolation.antt =====
-- The validation of `agent_isolation` (crates/nopal-core/src/isolation.rs).
use nopal.Prelude.{
  ℕ, String, Bool, true, false, not, ◌==◌, ◌&&◌, ◌||◌, Option, none, some, List, [], ◌∷◌, ◌++◌, eqb,
  leb, if◌then◌else◌, is_empty, is_some_and, is_none_or, any, all, keep, length, contains, concat,
}
use nopal.Json.{Json, and_then}
use nopal.Ledger.Names.{codes}
use nopal.LedgerJson.Value.{chars_eq}
use nopal.Diagnostics.Codes.{field_invalid}
use nopal.Diagnostics.Report.{Diagnostic, error_diagnostic}
use nopal.Diagnostics.Said.{Said, say, quiet}
use nopal.Selection.Globs.{sort, dedup}
use nopal.Enforcement.Intent.{is_blank, is_absolute, split_slash}

pub data OrchestratorPlacement : Type 0 where
  current native manual : OrchestratorPlacement

pub data DelegatePlacement : Type 0 where
  native manual sequential : DelegatePlacement

pub record RuntimeProvider : Type 0 where
  pub allocate : String
  pub verify : String
  pub release : String
  pub reconcile : String

pub record RuntimeProfile : Type 0 where
  pub name : String
  pub required_bindings : List String
  pub provider : RuntimeProvider

pub record AgentIsolation : Type 0 where
  pub orchestrator : OrchestratorPlacement
  pub delegate : DelegatePlacement
  pub manual_root : String
  pub runtime_profiles : List RuntimeProfile

-- The components of a path: the parts between slashes, without "." and empty ones.
abbrev pub is_component : List ℕ → Bool
is_component part = not (is_empty part) && not (chars_eq part (codes "."))

unfoldable pub components : String → List (List ℕ)
components path = keep is_component (split_slash (codes path))

unfoldable pub starts_with_parts : List (List ℕ) → List (List ℕ) → Bool
starts_with_parts parts [] = true
starts_with_parts [] (r ∷ root) = false
starts_with_parts (p ∷ parts) (r ∷ root) = chars_eq p r && starts_with_parts parts root

abbrev pub temporary_roots : List String
temporary_roots = "/tmp" ∷ "/private/tmp" ∷ "/var/tmp" ∷ "/private/var/folders" ∷ []

unfoldable pub manual_root_valid : String → Bool
manual_root_valid value =
    if value == "repo-sibling"
    then true
    else is_absolute (codes value)
      && not (any (λ root. starts_with_parts (components value) (components root)) temporary_roots)

abbrev pub is_lowercase : ℕ → Bool
is_lowercase c = leb 97 c && leb c 122

abbrev pub is_uppercase : ℕ → Bool
is_uppercase c = leb 65 c && leb c 90

abbrev pub is_digit : ℕ → Bool
is_digit c = leb 48 c && leb c 57

-- The bytes of a character that is not ASCII fail these tests, as its code point does.
abbrev pub starts_well : List ℕ → Bool
starts_well [] = false
starts_well (c ∷ cs) = is_lowercase c || is_digit c

abbrev pub is_profile_char : ℕ → Bool
is_profile_char c = is_lowercase c || is_digit c || eqb c 46 || eqb c 95 || eqb c 45

unfoldable pub profile_name_valid : String → Bool
profile_name_valid value = all is_profile_char (codes value) && starts_well (codes value)

abbrev pub is_binding : List ℕ → Bool
is_binding [] = false
is_binding (c ∷ cs) =
    (eqb c 95 || is_uppercase c) && all (λ d. eqb d 95 || is_uppercase d || is_digit d) cs

unfoldable pub binding_valid : String → Bool
binding_valid value = is_binding (codes value)

-- `bindings.iter().collect::<BTreeSet<_>>().len() == bindings.len()`
abbrev pub is_unique : List String → Bool
is_unique bindings = eqb (length (dedup (sort bindings))) (length bindings)

module _ (json : Json) (path : String) where
  abbrev pub invalid : String → List Diagnostic
  invalid message = error_diagnostic field_invalid path message ∷ []

  unfoldable pub non_empty : Option json.Value → Bool
  non_empty value = is_some_and (and_then value json.as_str) (λ s. not (is_blank s))

  unfoldable pub read_orchestrator : Option json.Value → Said (Option OrchestratorPlacement)
  read_orchestrator none = quiet (some current)
  read_orchestrator (some value) = elim (json.as_str value) [
    | some s ↦
        if s == "current"
        then quiet (some current)
        else if s == "native"
        then quiet (some OrchestratorPlacement.native)
        else if s == "manual"
        then quiet (some OrchestratorPlacement.manual)
        else say none (
            invalid (
              concat (
                "agent_isolation.orchestrator "
                ∷ json.debug s
                ∷ " must be current, native, or manual"
                ∷ [])))
    | none ↦ say none (invalid "agent_isolation.orchestrator must be a string")
  ]

  unfoldable pub read_delegate : Option json.Value → Said (Option DelegatePlacement)
  read_delegate none = quiet (some sequential)
  read_delegate (some value) = elim (json.as_str value) [
    | some s ↦
        if s == "native"
        then quiet (some DelegatePlacement.native)
        else if s == "manual"
        then quiet (some DelegatePlacement.manual)
        else if s == "sequential"
        then quiet (some sequential)
        else say none (
            invalid (
              concat (
                "agent_isolation.delegate "
                ∷ json.debug s
                ∷ " must be native, manual, or sequential"
                ∷ [])))
    | none ↦ say none (invalid "agent_isolation.delegate must be a string")
  ]

  unfoldable pub read_manual_root : Option json.Value → Said (Option String)
  read_manual_root none = quiet (some "repo-sibling")
  read_manual_root (some value) = elim (json.as_str value) [
    | some s ↦
        if manual_root_valid s
        then quiet (some s)
        else say none (
            invalid
              "agent_isolation.manual_root must be repo-sibling or a durable absolute path outside system temporary roots")
    | none ↦ say none (invalid "agent_isolation.manual_root must be a string")
  ]

  -- A field, if it is there, is one of these texts.
  abbrev pub is_one_of : List String → Option json.Value → Bool
  is_one_of texts field = is_none_or field (λ v. is_some_and (json.as_str v) (contains texts))

  unfoldable pub validate_fallback : Option json.Value → List Diagnostic
  validate_fallback none = []
  validate_fallback (some value) = elim (json.as_object value) [
    | none ↦ invalid "agent_isolation.fallback must be an object"
    | some fields ↦
        (if is_one_of ("manual-transition-required" ∷ []) (json.get fields "orchestrator")
          then []
          else invalid
              "agent_isolation.fallback.orchestrator must be the string manual-transition-required")
        ++ (if is_one_of ("manual" ∷ "sequential" ∷ []) (json.get fields "delegate")
            then []
            else invalid
                "agent_isolation.fallback.delegate must be the string manual or sequential")
  ]

  unfoldable pub validate_preparation : Option json.Value → List Diagnostic
  validate_preparation none = []
  validate_preparation (some value) = elim (json.as_object value) [
    | none ↦ invalid "agent_isolation.preparation must be an object"
    | some fields ↦
        (if non_empty (json.get fields "command")
          then []
          else invalid "agent_isolation.preparation.command must be a non-empty string")
        ++ (if is_none_or (json.get fields "readiness") (λ readiness.
              is_some_and (json.as_array readiness) (all (λ item. non_empty (some item))))
            then []
            else invalid
                "agent_isolation.preparation.readiness must be an array of non-empty commands")
  ]
