-- ===== src/Enforcement/Hashed.antt =====
-- Every step of `load_contract` of enforcement.rs hashes what it reads, so the digest says which
-- authority was loaded.
use nopal.Prelude.{
  ◌≡◌, refl, sym, ap, ◌∙◌, Bool-cases, inl, inr, String, Bool, true, false, Option, none, some,
  List, [], ◌++◌, append_assoc, append-nil,
}
use nopal.Json.{Json}
use nopal.LedgerJson.Value.{Bytes}
use nopal.Policy.Doc.{PolicyDoc}
use nopal.PolicyReport.Run.{IoResult, done, io_error}
use nopal.PolicyReport.Closed.{Sum-cases}
use nopal.Enforcement.World.{Hashing, World, digest_bytes}
use nopal.Enforcement.Contract.{
  Readers, record_source, Loading, push_policy, source_text, hash_read, load_source, use_policy,
  load_policy_path, use_gates, load_gates_path, load_hashed, use_workflow_policy,
  use_workflow_gates, use_isolation, use_workflow, load_workflow, load_user_policy, load_repository,
  load_contract, workflow_path,
}
use nopal.Enforcement.Secured.{SourceText-cases}
use nopal.Enforcement.Sources.{
  Source, record_all, IsRecordable, record_all_injective, record_all-append, of_read, user_source,
  repository_sources, authority,
}

-- A step hashes a list of sources after what was hashed before.
abbrev Hashes : List Source → Loading → Loading → Type 0
Hashes sources l after = after.hashed ≡ l.hashed ++ record_all sources

then_Hashes :
    (xs ys : List Source) (a : Bytes) {b c : Bytes}
    → b ≡ a ++ record_all xs
    → c ≡ b ++ record_all ys
    → c ≡ a ++ record_all (xs ++ ys)
then_Hashes xs ys a h k =
    k
    ∙ ap (λ r. r ++ record_all ys) h
    ∙ append_assoc a (record_all xs) (record_all ys)
    ∙ ap (λ r. a ++ r) (sym (record_all-append xs ys))

push_policy-hashed :
    (source : String) (doc : Option PolicyDoc) (l : Loading)
    → (push_policy source doc l).hashed ≡ l.hashed
push_policy-hashed source none l = refl
push_policy-hashed source (some doc) l = refl

module _ (json : Json) (readers : Readers json) (hashing : Hashing) (world : World) where
  hash_read-Hashes :
      (label : String) (bytes : IoResult (Option Bytes)) (l : Loading)
      → Hashes (of_read label bytes) l (hash_read json readers hashing world label bytes l)
  unfolding hash_read
  hash_read-Hashes label io_error l = sym (append-nil l.hashed)
  hash_read-Hashes label (done bytes) l =
      ap (λ r. l.hashed ++ r) (sym (append-nil (record_source label bytes)))

  load_source-Hashes :
      (directory relative source : String) (required : Bool) (f : String → Loading → Loading)
      → ((text : String) (l : Loading) → (f text l).hashed ≡ l.hashed)
      → (l : Loading)
      → Hashes
          (of_read source (world.read_bytes directory relative))
          l
          (load_source json readers hashing world directory relative source required f l)
  unfolding load_source
  load_source-Hashes directory relative source required f keeps l =
      let bytes : IoResult (Option Bytes) = world.read_bytes directory relative in
      let hashed : Loading = hash_read json readers hashing world source bytes l in
      let start : Hashes (of_read source bytes) l hashed = hash_read-Hashes source bytes l in
      elim (SourceText-cases (source_text json readers hashing world directory relative bytes)) [
        | inl e ↦ elim (Bool-cases required) [
          | inl q ↦ rw (e, q, load_source) start
          | inr q ↦ rw (e, q, load_source) start
        ]
        | inr (inl (text, e)) ↦ rw (e, load_source) (keeps text hashed ∙ start)
        | inr (inr (message, e)) ↦ rw (e, load_source) start
      ]

  use_policy-hashed :
      (path source text : String) (l : Loading)
      → (use_policy json readers hashing world path source text l).hashed ≡ l.hashed
  unfolding use_policy
  use_policy-hashed path source text l = elim (Sum-cases (readers.parse_jsonc text path)) [
    | inl (value, e) ↦ rw (e, use_policy) (push_policy-hashed source _ _)
    | inr (d, e) ↦ rw (e, use_policy) refl
  ]

  use_gates-hashed :
      (path source text : String) (l : Loading)
      → (use_gates json readers hashing world path source text l).hashed ≡ l.hashed
  unfolding use_gates
  use_gates-hashed path source text l = elim (Sum-cases (readers.parse_jsonc text path)) [
    | inl (value, e) ↦ rw (e, use_gates) refl
    | inr (d, e) ↦ rw (e, use_gates) refl
  ]

  load_hashed-Hashes :
      (root label relative : String) (l : Loading)
      → Hashes
          (of_read label (world.read_bytes root relative))
          l
          (load_hashed json readers hashing world root label relative l)
  unfolding load_hashed
  load_hashed-Hashes root label relative l =
      let bytes : IoResult (Option Bytes) = world.read_bytes root relative in
      let start : Hashes (of_read label bytes) l
          (hash_read json readers hashing world label bytes l) =
        hash_read-Hashes label bytes l in
      elim (SourceText-cases (source_text json readers hashing world root relative bytes)) [
        | inl e ↦ rw (e, load_hashed) start
        | inr (inl (text, e)) ↦ rw (e, load_hashed) start
        | inr (inr (message, e)) ↦ rw (e, load_hashed) start
      ]

  policy_hashed :
      (field : Option json.Value) (l : Loading)
      → (use_workflow_policy json readers hashing world field l).hashed ≡ l.hashed
  unfolding use_workflow_policy
  policy_hashed none l = refl
  policy_hashed (some value) l = push_policy-hashed "workflow policy" _ _

  gates_hashed :
      (field : Option json.Value) (l : Loading)
      → (use_workflow_gates json readers hashing world field l).hashed ≡ l.hashed
  unfolding use_workflow_gates
  gates_hashed none l = refl
  gates_hashed (some value) l = refl

  isolation_hashed :
      (field : Option json.Value) (l : Loading)
      → (use_isolation json readers hashing world field l).hashed ≡ l.hashed
  unfolding use_isolation
  isolation_hashed none l = refl
  isolation_hashed (some value) l = refl

  use_workflow-hashed :
      (text : String) (l : Loading)
      → (use_workflow json readers hashing world text l).hashed ≡ l.hashed
  unfolding use_workflow
  use_workflow-hashed text l = isolation_hashed _ _ ∙ gates_hashed _ _ ∙ policy_hashed _ _

  load_workflow-Hashes :
      (root : String) (l : Loading)
      → Hashes
          (of_read "workflow" (world.read_bytes root workflow_path))
          l
          (load_workflow json readers hashing world root l)
  unfolding load_workflow
  load_workflow-Hashes root l =
      let bytes : IoResult (Option Bytes) = world.read_bytes root workflow_path in
      let hashed : Loading = hash_read json readers hashing world "workflow" bytes l in
      let start : Hashes (of_read "workflow" bytes) l hashed =
        hash_read-Hashes "workflow" bytes l in
      elim (SourceText-cases (source_text json readers hashing world root workflow_path bytes)) [
        | inl e ↦ rw (e, load_workflow) start
        | inr (inl (text, e)) ↦ rw (e, load_workflow) (use_workflow-hashed text hashed ∙ start)
        | inr (inr (message, e)) ↦ rw (e, load_workflow) start
      ]

  load_user_policy-Hashes :
      (config_dir : Option String) (l : Loading)
      → Hashes
          (user_source world config_dir)
          l
          (load_user_policy json readers hashing world config_dir l)
  unfolding load_user_policy load_policy_path
  load_user_policy-Hashes none l =
      ap (λ r. l.hashed ++ r) (sym (append-nil (record_source "user policy" none)))
  load_user_policy-Hashes (some directory) l =
      load_source-Hashes directory "policy.jsonc" "user policy" false _ (use_policy-hashed _ _) l

  load_repository-Hashes :
      (root : String) (l : Loading)
      → Hashes (repository_sources world root) l (load_repository json readers hashing world root l)
  unfolding load_repository load_policy_path load_gates_path
  load_repository-Hashes root l =
      then_Hashes _ (of_read "workflow" (world.read_bytes root workflow_path)) l.hashed
        (then_Hashes _ (of_read "distribution lock" (world.read_bytes root ".nopal/nopal.lock"))
          l.hashed
          (then_Hashes _
            (of_read "distribution bundle" (world.read_bytes root ".nopal/bundle.jsonc")) l.hashed
            (then_Hashes _ (of_read "project manifest" (world.read_bytes root ".nopal/nopal.jsonc"))
              l.hashed
              (then_Hashes
                (of_read "repository policy" (world.read_bytes root ".nopal/policy.jsonc"))
                (of_read "repository gates" (world.read_bytes root ".nopal/gates.jsonc")) l.hashed
                (load_source-Hashes root ".nopal/policy.jsonc" "repository policy" true _
                  (use_policy-hashed _ _) l)
                (load_source-Hashes root ".nopal/gates.jsonc" "repository gates" true _
                  (use_gates-hashed _ _) _))
              (load_hashed-Hashes root "project manifest" ".nopal/nopal.jsonc" _))
            (load_hashed-Hashes root "distribution bundle" ".nopal/bundle.jsonc" _))
          (load_hashed-Hashes root "distribution lock" ".nopal/nopal.lock" _))
        (load_workflow-Hashes root _)

  pub load_contract-digest :
      (root : String) (config_dir : Option String)
      → (load_contract json readers hashing world root config_dir).contract_digest
        ≡ digest_bytes hashing (record_all (authority world root config_dir))
  unfolding load_contract
  load_contract-digest root config_dir = ap (digest_bytes hashing) (
      then_Hashes (user_source world config_dir) (repository_sources world root) []
        (load_user_policy-Hashes config_dir _) (load_repository-Hashes root _))

-- Two contracts are loaded, each from files of its own.
module _ (json : Json) (readers : Readers json) (hashing : Hashing) (world other : World)
    (root other_root : String) (config_dir other_dir : Option String) where
  -- If the labels and files that two loads read are shorter than 2 ^ 64 bytes, and the hash does
  -- not collide on them, then contracts with the same digest come from the same sources.
  pub load_contract_digest :
      IsRecordable (authority world root config_dir)
      → IsRecordable (authority other other_root other_dir)
      → (digest_bytes hashing (record_all (authority world root config_dir))
            ≡ digest_bytes hashing (record_all (authority other other_root other_dir))
          → record_all (authority world root config_dir)
            ≡ record_all (authority other other_root other_dir))
      → (load_contract json readers hashing world root config_dir).contract_digest
        ≡ (load_contract json readers hashing other other_root other_dir).contract_digest
      → authority world root config_dir ≡ authority other other_root other_dir
  load_contract_digest h k resists e = record_all_injective _ _ h k (
      resists (
        sym (load_contract-digest json readers hashing world root config_dir)
        ∙ e
        ∙ load_contract-digest json readers hashing other other_root other_dir))
