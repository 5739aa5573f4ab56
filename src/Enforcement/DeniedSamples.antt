-- ===== src/Enforcement/DeniedSamples.antt =====
-- An isolation and a denied action, and the theorems on enforcement at them.
use nopal.Prelude.{
  ◌≡◌, arith, ◌∙◌, sym, refl, subst, String, true, false, inl, inr, none, some, [], ◌∷◌, any, all,
  keep, is_empty, All,
}
use nopal.LedgerJson.Value.{chars_eq}
use nopal.Diagnostics.Report.{Diagnostic, error_diagnostic}
use nopal.Policy.Vocabulary.{deny}
use nopal.PolicyReport.Run.{done}
use nopal.Selection.Samples.{prefixes}
use nopal.Enforcement.Intent.{EnforcementRequest, is_whitespace, is_blank, split_slash}
use nopal.Enforcement.Plan.{EffectiveContract, fingerprint_of, plan_contract}
use nopal.Selection.Globs.{insert_file, sort, dedup}
use nopal.Json.Tree as Tree
use nopal.Json.Tree.{
  Tree, word, array, entry, no_entry, object, field, no_field, tree_str, tree_object, tree_array,
  tree_entries, field_names, field_list, plain,
}
use nopal.Diagnostics.Codes.{module_parse_error}
use nopal.Diagnostics.Errors.{is_error}
use nopal.Gates.Document.Scaffold.{Read}
use nopal.Enforcement.Isolation.{
  AgentIsolation, current, sequential, components, starts_with_parts, manual_root_valid,
  profile_name_valid, binding_valid, non_empty, read_orchestrator, read_delegate, read_manual_root,
  validate_fallback, validate_preparation,
}
use nopal.Enforcement.Profiles as Profiles
use nopal.Enforcement.Profiles.{
  texts_of, read_bindings, read_provider, read_profile, profile_entry, read_profiles,
  validate_profiles, isolation_of, validate_fields, validate_isolation,
}
use nopal.Enforcement.Usable.{IsUsable}
use nopal.Enforcement.Durable.{IsDurable, validate_isolation_sound}
use nopal.Enforcement.Contract.{Readers, load_contract, plan_for_intent}
use nopal.Enforcement.World.{World}
use nopal.Enforcement.Sources.{IsRecordable, authority}
use nopal.Enforcement.Hashed.{load_contract-digest, load_contract_digest}
use nopal.Enforcement.Denied.{is_denied_request, plan_for_intent_denied}
use nopal.Enforcement.Samples.{program, hashing, request, intent, empty_world, plan_on}

isolation_program : Unit {0}
unfolding is_whitespace is_blank split_slash components starts_with_parts manual_root_valid
    profile_name_valid binding_valid non_empty read_orchestrator read_delegate read_manual_root
    validate_fallback validate_preparation texts_of read_bindings Profiles.command read_provider
    read_profile profile_entry read_profiles validate_profiles isolation_of validate_fields
    validate_isolation tree_str tree_object tree_array tree_entries Tree.field_value field_names
    field_list all any keep sort dedup insert_file chars_eq
isolation_program = tt

abbrev isolation : Tree
isolation = object (
    field "manual_root" (word "/srv/trees") (
      field "runtime_profiles"
        (object (
          field "db"
            (object (
              field "required_bindings" (array (entry (word "DB_URL") no_entry)) (
                field "provider"
                  (object (
                    field "allocate" (word "up") (
                      field "verify" (word "ping")
                        (field "release" (word "down") (field "reconcile" (word "fix") no_field)))))
                  no_field)))
            no_field))
        no_field))

abbrev validated : AgentIsolation
validated = record {
  orchestrator = current;
  delegate = sequential;
  manual_root = "/srv/trees";
  runtime_profiles =
      record {
        name = "db";
        required_bindings = "DB_URL" ∷ [];
        provider = record { allocate = "up"; verify = "ping"; release = "down"; reconcile = "fix" };
      }
      ∷ [];
}

isolation_accepted : (validate_isolation plain "workflow" isolation).value ≡ some validated
unfolding program isolation_program
isolation_accepted = refl

validate_isolation_sound_example :
    (is_empty (validate_isolation plain "workflow" isolation).said ≡ true)
    × IsDurable validated.manual_root
    × All IsUsable validated.runtime_profiles
validate_isolation_sound_example =
    validate_isolation_sound plain "workflow" isolation isolation_accepted

-- The test reads the components as they are written.
climbing_accepted : manual_root_valid "/srv/../tmp/x" ≡ true
unfolding program isolation_program
climbing_accepted = refl

-- Readers that refuse each text.
abbrev readers : Readers plain
readers = record {
  parse_jsonc = λ text path. inr (error_diagnostic module_parse_error path "unexpected token");
  from_value = λ value. Read.unreadable "";
  from_utf8 = λ bytes. inl "";
  io_message = λ directory relative. "denied";
  compile_text = λ text path. record { modules = λ name. none; diagnostics = [] };
}

abbrev destructive : EnforcementRequest
destructive = record request { action = "rm.recursive"; classes = "destructive" ∷ [] }

abbrev loaded : EffectiveContract
loaded = load_contract plain readers hashing empty_world "repo" none

refused_plan :
    plan_for_intent plain readers hashing empty_world prefixes destructive intent
    ≡ done (plan_on loaded empty_world destructive)
unfolding plan_for_intent plan_contract fingerprint_of
refused_plan = refl

destructive_denied : is_denied_request destructive ≡ true
unfolding program
destructive_denied = refl

refusals_are_errors :
    (text path : String) (d : Diagnostic)
    → readers.parse_jsonc text path ≡ inr d
    → is_error d ≡ true
unfolding program
refusals_are_errors text path d e =
    let same : error_diagnostic module_parse_error path "unexpected token" ≡ d = cc in
    subst (λ x. is_error x ≡ true) same refl

plan_for_intent_denied_example :
    ((plan_on loaded empty_world destructive).decision ≡ deny)
    × ((plan_on loaded empty_world destructive).authorized ≡ false)
plan_for_intent_denied_example =
    plan_for_intent_denied plain readers hashing empty_world prefixes destructive intent
      refusals_are_errors destructive_denied refused_plan

-- Every file holds the same byte, in either repository.
abbrev filled : World
filled = record empty_world { read_bytes = λ directory relative. done (some (65 ∷ [])) }

filled-IsRecordable : IsRecordable (authority filled "repo" (some "home"))
unfolding program
filled-IsRecordable = (
  (omega arith, omega arith),
  (
    (omega arith, omega arith),
    (
      (omega arith, omega arith),
      (
        (omega arith, omega arith),
        (
          (omega arith, omega arith),
          ((omega arith, omega arith), ((omega arith, omega arith), tt)),
        ),
      ),
    ),
  ),
)

same_digest :
    (load_contract plain readers hashing filled "repo" (some "home")).contract_digest
    ≡ (load_contract plain readers hashing filled "copy" (some "home")).contract_digest
same_digest =
    load_contract-digest plain readers hashing filled "repo" (some "home")
    ∙ sym (load_contract-digest plain readers hashing filled "copy" (some "home"))

load_contract_digest_example :
    authority filled "repo" (some "home") ≡ authority filled "copy" (some "home")
load_contract_digest_example =
    load_contract_digest plain readers hashing filled filled "repo" "copy" (some "home")
      (some "home") filled-IsRecordable filled-IsRecordable (λ same. refl) same_digest
