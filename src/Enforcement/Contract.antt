-- ===== src/Enforcement/Contract.antt =====
-- `load_contract` of enforcement.rs: the authority files, read once, with the bytes that are hashed.
-- The JSONC reader, the decoding of UTF-8 and the compiler of the workflow are parameters.
use nopal.Prelude.{
  ℕ, String, Bool, true, false, ◌⊎◌, inl, inr, Option, none, some, List, [], ◌∷◌, ◌++◌,
  if◌then◌else◌, is_empty, concat,
}
use nopal.Json.{Json, and_then, get_field}
use nopal.LedgerJson.Value.{Bytes}
use nopal.Diagnostics.Codes.{module_missing, module_parse_error, field_invalid}
use nopal.Diagnostics.Report.{Diagnostic, error_diagnostic, sort_diagnostics}
use nopal.Policy.Doc.{PolicyDoc}
use nopal.Parse.Modes.{validate_policy}
use nopal.PolicyReport.Run.{IoResult, done, io_error}
use nopal.Gates.{GatesConfig}
use nopal.Gates.Document.Scaffold.{Read}
use nopal.Gates.Document.Validate.{validate_document}
use nopal.Selection.Globs.{Globset}
use nopal.Enforcement.Intent.{EnforcementRequest, EnforcementIntent}
use nopal.Enforcement.Isolation.{
  OrchestratorPlacement, current, DelegatePlacement, sequential, AgentIsolation,
}
use nopal.Enforcement.Profiles.{validate_isolation}
use nopal.Enforcement.World.{Hashing, World, as_bytes, digest_bytes, join_path}
use nopal.Enforcement.Signature.{framed}
use nopal.Enforcement.Plan.{EffectiveContract, EnforcementPlan, plan_contract}
use nopal.Enforcement.Evidence.{
  legacy_intent, GateExecutionContext, Recorded, EvidenceDirective, gate_evidence_contract,
}

abbrev pub workflow_path : String
workflow_path = ".beislid/workflow.md"

-- `beislid_import::CompiledWorkflow`
pub record CompiledWorkflow (Value : Type 0) : Type 0 where
  pub modules : String → Option Value
  pub diagnostics : List Diagnostic

-- What the loading calls: the reader of JSONC, of the scaffold's dates, of UTF-8 and of the workflow,
-- and how errors of reading are printed.
pub record Readers (json : Json) : Type 0 where
  pub parse_jsonc : String → String → json.Value ⊎ Diagnostic
  pub from_value : json.Value → Read
  pub from_utf8 : Bytes → String ⊎ String
  pub io_message : String → String → String
  pub compile_text : String → String → CompiledWorkflow json.Value

-- `ContractDigest::record`: what a source adds to the bytes that are hashed.
unfoldable pub record_source : String → Option Bytes → Bytes
record_source label none = framed (as_bytes label) ++ 0 ∷ []
record_source label (some bytes) = framed (as_bytes label) ++ 1 ∷ framed bytes

-- The variables that the loading fills.
pub record Loading : Type 0 where
  pub policies : List (String × PolicyDoc)
  pub gate_sources : List (String × GatesConfig)
  pub isolation : Option AgentIsolation
  pub diagnostics : List Diagnostic
  pub hashed : Bytes

abbrev pub push : List Diagnostic → Loading → Loading
push ds l = record l { diagnostics = l.diagnostics ++ ds }

abbrev pub hash : String → Option Bytes → Loading → Loading
hash label bytes l = record l { hashed = l.hashed ++ record_source label bytes }

abbrev pub push_policy : String → Option PolicyDoc → Loading → Loading
push_policy source none l = l
push_policy source (some doc) l = record l { policies = l.policies ++ (source, doc) ∷ [] }

abbrev pub push_gates : String → GatesConfig → Loading → Loading
push_gates source config l = record l { gate_sources = l.gate_sources ++ (source, config) ∷ [] }

-- What reading a source gives: its text, if it is there, or a message.
pub data SourceText : Type 0 where
  read : Option String → SourceText
  failed : String → SourceText

-- What the direct launcher cannot provide.
abbrev pub is_current : OrchestratorPlacement → Bool
is_current current = true
is_current _ = false

abbrev pub is_sequential : DelegatePlacement → Bool
is_sequential sequential = true
is_sequential _ = false

abbrev pub unless : Bool → String → List Diagnostic
unless holds message =
    if holds then [] else error_diagnostic field_invalid workflow_path message ∷ []

unfoldable pub isolation_limits : AgentIsolation → List Diagnostic
isolation_limits contract =
    unless (is_current contract.orchestrator)
      "agent_isolation requests orchestrator placement that this direct Pi launcher cannot prove; use current or launch from a trusted placement adapter"
    ++ unless (is_sequential contract.delegate)
        "agent_isolation requests delegated mutation placement that this direct Pi launcher cannot prove; use sequential or launch from a trusted placement adapter"
    ++ unless (is_empty contract.runtime_profiles)
        "agent_isolation requests runtime profile capability that this direct Pi launcher cannot prove; launch from a trusted runtime-profile adapter"

module _ (json : Json) (readers : Readers json) (hashing : Hashing) (world : World) where
  -- `read_contract_text`: the bytes that are read are hashed, also those that are no UTF-8.
  unfoldable pub source_text : String → String → IoResult (Option Bytes) → SourceText
  source_text directory relative io_error = failed (readers.io_message directory relative)
  source_text directory relative (done none) = read none
  source_text directory relative (done (some bytes)) = elim (readers.from_utf8 bytes) [
    | inl text ↦ read (some text)
    | inr message ↦ failed message
  ]

  unfoldable pub hash_read : String → IoResult (Option Bytes) → Loading → Loading
  hash_read label io_error l = l
  hash_read label (done bytes) l = hash label bytes l

  -- A source that is to be read; `use_text` is what is done with its text.
  unfoldable pub load_source :
      String → String → String → Bool → (String → Loading → Loading) → Loading → Loading
  load_source directory relative source required use_text l =
      let bytes = world.read_bytes directory relative in
      let path = join_path directory relative in
      let hashed = hash_read source bytes l in
      elim (source_text directory relative bytes) [
        | read (some text) ↦ use_text text hashed
        | read none ↦
            if required
            then push
                (error_diagnostic module_missing path
                    (concat ("enforcement requires " ∷ source ∷ []))
                  ∷ [])
                hashed
            else hashed
        | failed message ↦
            push
              (error_diagnostic module_parse_error path
                  (concat ("could not read confined " ∷ source ∷ ": " ∷ message ∷ []))
                ∷ [])
              hashed
      ]

  unfoldable pub use_policy : String → String → String → Loading → Loading
  use_policy path source text l = elim (readers.parse_jsonc text path) [
    | inl value ↦
        push_policy source (validate_policy json path value).value
          (push (validate_policy json path value).diags l)
    | inr diagnostic ↦ push (diagnostic ∷ []) l
  ]

  unfoldable pub load_policy_path : String → String → String → Bool → Loading → Loading
  load_policy_path directory relative source required =
      load_source directory relative source required
        (use_policy (join_path directory relative) source)

  -- `gates::parse_gates`
  unfoldable pub use_gates : String → String → String → Loading → Loading
  use_gates path source text l = elim (readers.parse_jsonc text path) [
    | inl value ↦
        push_gates source (validate_document json readers.from_value path value).value
          (push (validate_document json readers.from_value path value).said l)
    | inr diagnostic ↦ push (diagnostic ∷ []) l
  ]

  unfoldable pub load_gates_path : String → String → String → Bool → Loading → Loading
  load_gates_path directory relative source required =
      load_source directory relative source required
        (use_gates (join_path directory relative) source)

  -- One of the files that are only hashed.
  unfoldable pub load_hashed : String → String → String → Loading → Loading
  load_hashed root label relative l =
      let bytes = world.read_bytes root relative in
      elim (source_text root relative bytes) [
        | read text ↦ hash_read label bytes l
        | failed message ↦
            push
              (error_diagnostic module_parse_error relative
                  (concat ("could not read confined " ∷ label ∷ ": " ∷ message ∷ []))
                ∷ [])
              (hash_read label bytes l)
      ]

  unfoldable pub use_workflow_policy : Option json.Value → Loading → Loading
  use_workflow_policy none l = l
  use_workflow_policy (some value) l =
      push_policy "workflow policy" (validate_policy json workflow_path value).value
        (push (validate_policy json workflow_path value).diags l)

  unfoldable pub use_workflow_gates : Option json.Value → Loading → Loading
  use_workflow_gates none l = l
  use_workflow_gates (some value) l =
      push_gates "workflow gates"
        (validate_document json readers.from_value workflow_path value).value
        (push (validate_document json readers.from_value workflow_path value).said l)

  abbrev pub limits_of : Option AgentIsolation → List Diagnostic
  limits_of none = []
  limits_of (some contract) = isolation_limits contract

  unfoldable pub use_isolation : Option json.Value → Loading → Loading
  use_isolation none l = l
  use_isolation (some value) l =
      let validated = validate_isolation json workflow_path value in
      record (push (validated.said ++ limits_of validated.value) l) { isolation = validated.value }

  unfoldable pub use_workflow : String → Loading → Loading
  use_workflow text l =
      let compiled = readers.compile_text text workflow_path in
      use_isolation
        (and_then (compiled.modules "workflow") (λ w. get_field json w "agent_isolation"))
        (use_workflow_gates (compiled.modules "gates")
          (use_workflow_policy (compiled.modules "policy") (push compiled.diagnostics l)))

  unfoldable pub load_workflow : String → Loading → Loading
  load_workflow root l =
      let bytes = world.read_bytes root workflow_path in
      let hashed = hash_read "workflow" bytes l in
      elim (source_text root workflow_path bytes) [
        | read (some text) ↦ use_workflow text hashed
        | read none ↦ hashed
        | failed message ↦
            push
              (error_diagnostic module_parse_error workflow_path
                  (concat ("could not read confined workflow authority: " ∷ message ∷ []))
                ∷ [])
              hashed
      ]

  unfoldable pub load_user_policy : Option String → Loading → Loading
  load_user_policy (some directory) l =
      load_policy_path directory "policy.jsonc" "user policy" false l
  load_user_policy none l = hash "user policy" none l

  -- The files of the repository, once the user's policy is loaded.
  unfoldable pub load_repository : String → Loading → Loading
  load_repository root l = load_workflow root (
      load_hashed root "distribution lock" ".nopal/nopal.lock" (
        load_hashed root "distribution bundle" ".nopal/bundle.jsonc" (
          load_hashed root "project manifest" ".nopal/nopal.jsonc" (
            load_gates_path root ".nopal/gates.jsonc" "repository gates" true
              (load_policy_path root ".nopal/policy.jsonc" "repository policy" true l)))))

  -- It returns no error, whatever the files are.
  unfoldable pub load_contract : String → Option String → EffectiveContract
  load_contract root config_dir =
      let l = load_repository root (
        load_user_policy config_dir (record {
          policies = [];
          gate_sources = [];
          isolation = none;
          diagnostics = [];
          hashed = [];
        })) in
      record {
        policies = l.policies;
        gate_sources = l.gate_sources;
        isolation = l.isolation;
        diagnostics = sort_diagnostics l.diagnostics;
        contract_digest = digest_bytes hashing l.hashed;
      }

  module _ (globset : Globset) where
    unfoldable pub plan_for_intent :
        EnforcementRequest → EnforcementIntent → IoResult EnforcementPlan
    plan_for_intent request intent =
        plan_contract hashing globset world (load_contract request.root request.config_dir) request
          intent

    unfoldable pub plan : EnforcementRequest → IoResult EnforcementPlan
    plan request = plan_for_intent request (legacy_intent hashing request)

    unfoldable pub gate_evidence_for_intent :
        EnforcementRequest
        → EnforcementIntent
        → String
        → ℕ
        → GateExecutionContext
        → Recorded EvidenceDirective
    gate_evidence_for_intent request intent gate_id exit_code expected =
        gate_evidence_contract hashing globset world (load_contract request.root request.config_dir)
          request intent gate_id exit_code expected

    unfoldable pub gate_evidence :
        EnforcementRequest → String → ℕ → GateExecutionContext → Recorded EvidenceDirective
    gate_evidence request = gate_evidence_for_intent request (legacy_intent hashing request)
