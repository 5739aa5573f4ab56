-- ===== src/Enforcement/Secured.antt =====
-- A loaded contract has a policy, or an error that closes the plan (`load_contract` of enforcement.rs).
use nopal.Prelude.{
  ◌≡◌, refl, ◌∙◌, arith, Bool-cases, Option-cases, inl, inr, ◌⊎◌, String, Bool, true, false, not,
  ◌||◌, Option, none, some, List, [], ◌∷◌, ◌++◌, is_empty, eqb, all,
}
use nopal.Json.{Json}
use nopal.LedgerJson.Value.{Bytes}
use nopal.Diagnostics.Codes.{Code, module_missing, module_parse_error}
use nopal.Diagnostics.Report.{Diagnostic, error_diagnostic, new_diagnostic, sort_diagnostics}
use nopal.Diagnostics.Errors.{is_error, errors}
use nopal.Policy.Doc.{PolicyDoc}
use nopal.Parse.Modes.{validate_policy}
use nopal.PolicyReport.Run.{IoResult, done, io_error}
use nopal.PolicyReport.Closed.{errors-sort, Sum-cases, validate_policy-judged}
use nopal.Enforcement.World.{Hashing, World}
use nopal.Enforcement.Plan.{is_clean}
use nopal.Enforcement.Authorized.{is_clean-append}
use nopal.Enforcement.Contract.{
  Readers, Loading, push, push_policy, SourceText, read, failed, source_text, hash_read,
  load_source, use_policy, load_policy_path, use_gates, load_gates_path, load_hashed,
  use_workflow_policy, use_workflow_gates, use_isolation, use_workflow, load_workflow,
  load_user_policy, load_repository, load_contract, workflow_path,
}

is_clean-errors : (ds : List Diagnostic) → is_clean ds ≡ eqb (errors ds) 0
unfolding is_clean all
is_clean-errors [] = refl
is_clean-errors (d ∷ ds) = ground (arith, is_clean-errors ds)

error_unclean :
    (code : Code) (path message : String)
    → is_clean (error_diagnostic code path message ∷ []) ≡ false
unfolding is_clean all error_diagnostic new_diagnostic
error_unclean code path message = refl

-- There is a policy, or an error.
abbrev is_secured : Loading → Bool
is_secured l = not (is_empty l.policies) || not (is_clean l.diagnostics)

is_empty-snoc : {A : Type 0} (xs : List A) (x : A) → is_empty (xs ++ x ∷ []) ≡ false
is_empty-snoc [] x = refl
is_empty-snoc (y ∷ ys) x = refl

push-is_secured :
    (ds : List Diagnostic) (l : Loading) → is_secured l ≡ true → is_secured (push ds l) ≡ true
push-is_secured ds l h = ground (arith, h, is_clean-append l.diagnostics ds)

push_unclean :
    (ds : List Diagnostic) (l : Loading) → is_clean ds ≡ false → is_secured (push ds l) ≡ true
push_unclean ds l h = ground (arith, h, is_clean-append l.diagnostics ds)

push_policy-is_secured :
    (source : String) (doc : Option PolicyDoc) (l : Loading)
    → is_secured l ≡ true
    → is_secured (push_policy source doc l) ≡ true
push_policy-is_secured source none l h = h
push_policy-is_secured source (some doc) l h = rw is_empty-snoc refl

sorted-is_secured :
    (l : Loading)
    → is_secured l ≡ true
    → (not (is_empty l.policies) || not (is_clean (sort_diagnostics l.diagnostics))) ≡ true
sorted-is_secured l h = ground (
  arith,
  h,
  is_clean-errors l.diagnostics,
  is_clean-errors (sort_diagnostics l.diagnostics),
  errors-sort l.diagnostics,
)

hash_read-is_secured :
    (json : Json) (readers : Readers json) (hashing : Hashing) (world : World) (label : String)
    (bytes : IoResult (Option Bytes)) (l : Loading)
    → is_secured l ≡ true
    → is_secured (hash_read json readers hashing world label bytes l) ≡ true
unfolding hash_read
hash_read-is_secured json readers hashing world label io_error l h = h
hash_read-is_secured json readers hashing world label (done bytes) l h = h

pub SourceText-cases :
    (s : SourceText)
    → (s ≡ read none)
      ⊎ ((text : String) × (s ≡ read (some text)))
      ⊎ ((message : String) × (s ≡ failed message))
SourceText-cases (read none) = inl refl
SourceText-cases (read (some text)) = inr (inl (text, refl))
SourceText-cases (failed message) = inr (inr (message, refl))

module _ (json : Json) (readers : Readers json) (hashing : Hashing) (world : World) where
  load_source-is_secured :
      (directory relative source : String) (required : Bool) (f : String → Loading → Loading)
      → ((text : String) (l : Loading) → is_secured l ≡ true → is_secured (f text l) ≡ true)
      → (l : Loading) → is_secured l ≡ true
      → is_secured (load_source json readers hashing world directory relative source required f l)
        ≡ true
  unfolding load_source
  load_source-is_secured directory relative source required f keeps l h =
      let hashed : Loading =
        hash_read json readers hashing world source (world.read_bytes directory relative) l in
      let start : is_secured hashed ≡ true =
        hash_read-is_secured json readers hashing world source _ l h in
      elim (SourceText-cases (
        source_text json readers hashing world directory relative
          (world.read_bytes directory relative))) [
            | inl e ↦ elim (Bool-cases required) [
              | inl q ↦ rw (e, q, load_source) (push-is_secured _ hashed start)
              | inr q ↦ rw (e, q, load_source) start
            ]
            | inr (inl (text, e)) ↦ rw (e, load_source) (keeps text hashed start)
            | inr (inr (message, e)) ↦ rw (e, load_source) (push-is_secured _ hashed start)
          ]

  use_policy-is_secured :
      (path source text : String) (l : Loading)
      → is_secured l ≡ true
      → is_secured (use_policy json readers hashing world path source text l) ≡ true
  unfolding use_policy
  use_policy-is_secured path source text l h = elim (Sum-cases (readers.parse_jsonc text path)) [
    | inl (value, e) ↦
        rw (e, use_policy) (push_policy-is_secured source _ _ (push-is_secured _ l h))
    | inr (d, e) ↦ rw (e, use_policy) (push-is_secured _ l h)
  ]

  use_gates-is_secured :
      (path source text : String) (l : Loading)
      → is_secured l ≡ true
      → is_secured (use_gates json readers hashing world path source text l) ≡ true
  unfolding use_gates
  use_gates-is_secured path source text l h = elim (Sum-cases (readers.parse_jsonc text path)) [
    | inl (value, e) ↦ rw (e, use_gates) (push-is_secured _ l h)
    | inr (d, e) ↦ rw (e, use_gates) (push-is_secured _ l h)
  ]

  load_hashed-is_secured :
      (root label relative : String) (l : Loading)
      → is_secured l ≡ true
      → is_secured (load_hashed json readers hashing world root label relative l) ≡ true
  unfolding load_hashed
  load_hashed-is_secured root label relative l h =
      let hashed : Loading =
        hash_read json readers hashing world label (world.read_bytes root relative) l in
      let start : is_secured hashed ≡ true =
        hash_read-is_secured json readers hashing world label _ l h in
      elim (SourceText-cases
        (source_text json readers hashing world root relative (world.read_bytes root relative))) [
          | inl e ↦ rw (e, load_hashed) start
          | inr (inl (text, e)) ↦ rw (e, load_hashed) start
          | inr (inr (message, e)) ↦ rw (e, load_hashed) (push-is_secured _ hashed start)
        ]

  use_workflow_policy-is_secured :
      (field : Option json.Value) (l : Loading)
      → is_secured l ≡ true
      → is_secured (use_workflow_policy json readers hashing world field l) ≡ true
  unfolding use_workflow_policy
  use_workflow_policy-is_secured none l h = h
  use_workflow_policy-is_secured (some value) l h =
      push_policy-is_secured "workflow policy" _ _ (push-is_secured _ l h)

  use_workflow_gates-is_secured :
      (field : Option json.Value) (l : Loading)
      → is_secured l ≡ true
      → is_secured (use_workflow_gates json readers hashing world field l) ≡ true
  unfolding use_workflow_gates
  use_workflow_gates-is_secured none l h = h
  use_workflow_gates-is_secured (some value) l h = push-is_secured _ l h

  use_isolation-is_secured :
      (field : Option json.Value) (l : Loading)
      → is_secured l ≡ true
      → is_secured (use_isolation json readers hashing world field l) ≡ true
  unfolding use_isolation
  use_isolation-is_secured none l h = h
  use_isolation-is_secured (some value) l h = push-is_secured _ l h

  use_workflow-is_secured :
      (text : String) (l : Loading)
      → is_secured l ≡ true
      → is_secured (use_workflow json readers hashing world text l) ≡ true
  unfolding use_workflow
  use_workflow-is_secured text l h = use_isolation-is_secured _ _ (
      use_workflow_gates-is_secured _ _
        (use_workflow_policy-is_secured _ _ (push-is_secured _ l h)))

  load_workflow-is_secured :
      (root : String) (l : Loading)
      → is_secured l ≡ true
      → is_secured (load_workflow json readers hashing world root l) ≡ true
  unfolding load_workflow
  load_workflow-is_secured root l h =
      let hashed : Loading =
        hash_read json readers hashing world "workflow" (world.read_bytes root workflow_path) l in
      let start : is_secured hashed ≡ true =
        hash_read-is_secured json readers hashing world "workflow" _ l h in
      elim (SourceText-cases (
        source_text json readers hashing world root workflow_path
          (world.read_bytes root workflow_path))) [
            | inl e ↦ rw (e, load_workflow) start
            | inr (inl (text, e)) ↦
                rw (e, load_workflow) (use_workflow-is_secured text hashed start)
            | inr (inr (message, e)) ↦ rw (e, load_workflow) (push-is_secured _ hashed start)
          ]

  module _
      (reports : (text path : String) (d : Diagnostic)
        → readers.parse_jsonc text path ≡ inr d
        → is_error d ≡ true) where
    -- A text of a policy gives a policy or an error.
    use_policy-secures :
        (path source text : String) (l : Loading)
        → is_secured (use_policy json readers hashing world path source text l) ≡ true
    unfolding use_policy is_clean all
    use_policy-secures path source text l = elim (Sum-cases (readers.parse_jsonc text path)) [
      | inl (value, e) ↦ elim (Option-cases (validate_policy json path value).value) [
        | inl absent ↦
            rw (e, use_policy, absent)
              (push_unclean (validate_policy json path value).diags l (
                is_clean-errors (validate_policy json path value).diags
                ∙ validate_policy-judged json (λ t. readers.parse_jsonc t path) path value
                    (rw absent refl)))
        | inr (doc, present) ↦ rw (e, use_policy, present, is_empty-snoc) refl
      ]
      | inr (d, e) ↦
          rw (e, use_policy) (push_unclean (d ∷ []) l (ground (arith, reports text path d e)))
    ]

    load_policy_path-secures :
        (directory relative source : String) (l : Loading)
        → is_secured (load_policy_path json readers hashing world directory relative source true l)
          ≡ true
    unfolding load_policy_path load_source
    load_policy_path-secures directory relative source l =
        let hashed : Loading =
          hash_read json readers hashing world source (world.read_bytes directory relative) l in
        elim (SourceText-cases (
          source_text json readers hashing world directory relative
            (world.read_bytes directory relative))) [
              | inl e ↦
                  rw (e, load_source) (push_unclean _ hashed (error_unclean module_missing _ _))
              | inr (inl (text, e)) ↦ rw (e, load_source) (use_policy-secures _ source text hashed)
              | inr (inr (message, e)) ↦
                  rw (e, load_source) (push_unclean _ hashed (error_unclean module_parse_error _ _))
            ]

    load_repository-is_secured :
        (root : String) (l : Loading)
        → is_secured (load_repository json readers hashing world root l) ≡ true
    unfolding load_repository load_gates_path
    load_repository-is_secured root l = load_workflow-is_secured root _ (
        load_hashed-is_secured root _ _ _ (
          load_hashed-is_secured root _ _ _ (
            load_hashed-is_secured root _ _ _ (
              load_source-is_secured root _ _ _ _ (use_gates-is_secured _ _) _
                (load_policy_path-secures root _ _ l)))))

    pub load_contract-secured :
        (root : String) (config_dir : Option String)
        → let contract = load_contract json readers hashing world root config_dir in
          (not (is_empty contract.policies) || not (is_clean contract.diagnostics)) ≡ true
    unfolding load_contract
    load_contract-secured root config_dir =
        let start : Loading = record {
          policies = [];
          gate_sources = [];
          isolation = none;
          diagnostics = [];
          hashed = [];
        } in
        let l : Loading =
          load_repository json readers hashing world root
            (load_user_policy json readers hashing world config_dir start) in
        sorted-is_secured l (
          load_repository-is_secured root
            (load_user_policy json readers hashing world config_dir start))
