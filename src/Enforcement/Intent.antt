-- ===== src/Enforcement/Intent.antt =====
-- The request, the exact intent and its validation, and the tables of actions (enforcement.rs).
use nopal.Prelude.{
  ℕ, String, Bool, false, not, ◌==◌, ◌&&◌, ◌||◌, Option, none, some, List, [], ◌∷◌, ◌++◌, eqb, leb,
  if◌then◌else◌, is_empty, any, all, contains, is_some_and, find, concat,
}
use nopal.Ledger.Names.{codes}
use nopal.Policy.Vocabulary.{Mode, ActionClass}
use nopal.Gates.{GateStage, per_edit, pre_commit, pre_pr, continuous}

abbrev pub intent_kind : String
intent_kind = "nopal.enforcement.intent/v1"

-- The paths are texts. `receipt_key` is a list of bytes.
pub record EnforcementRequest : Type 0 where
  pub root : String
  pub config_dir : Option String
  pub mode : Mode
  pub action : String
  pub classes : List ActionClass
  pub run_dir : Option String
  pub receipt_key : Option (List ℕ)

pub record EnforcementIntent : Type 0 where
  pub kind : String
  pub launch_id : String
  pub session_id : String
  pub tool_call_id : String
  pub tool_name : String
  pub input_digest : String
  pub target_digest : String
  pub executor_digest : String
  pub changed_files : List String
  pub workspace_fingerprint : Option String
  pub mutates : Bool

-- `char::is_whitespace`: the characters with the Unicode property White_Space.
unfoldable pub is_whitespace : ℕ → Bool
is_whitespace c =
    leb 9 c && leb c 13
    || eqb c 32
    || eqb c 133
    || eqb c 160
    || eqb c 5760
    || leb 8192 c && leb c 8202
    || eqb c 8232
    || eqb c 8233
    || eqb c 8239
    || eqb c 8287
    || eqb c 12288

-- `value.trim().is_empty()`
unfoldable pub is_blank : String → Bool
is_blank text = all is_whitespace (codes text)

-- `path.split('/')`
abbrev pub onto_part : ℕ → List (List ℕ) → List (List ℕ)
onto_part c [] = (c ∷ []) ∷ []
onto_part c (part ∷ parts) = (c ∷ part) ∷ parts

unfoldable pub split_slash : List ℕ → List (List ℕ)
split_slash [] = [] ∷ []
split_slash (c ∷ cs) = let rest = split_slash cs in if eqb c 47 then [] ∷ rest else onto_part c rest

abbrev pub is_dot_dot : List ℕ → Bool
is_dot_dot (a ∷ b ∷ []) = eqb a 46 && eqb b 46
is_dot_dot _ = false

-- `Path::is_absolute`, as on Unix.
abbrev pub is_absolute : List ℕ → Bool
is_absolute [] = false
is_absolute (c ∷ cs) = eqb c 47

unfoldable pub is_unconfined : String → Bool
is_unconfined path =
    is_empty (codes path) || is_absolute (codes path) || any is_dot_dot (split_slash (codes path))

-- The fields that must not be blank, with their names.
unfoldable pub named_fields : EnforcementIntent → List (String × String)
named_fields intent =
    ("launch_id", intent.launch_id)
    ∷ ("session_id", intent.session_id)
    ∷ ("tool_call_id", intent.tool_call_id)
    ∷ ("tool_name", intent.tool_name)
    ∷ ("input_digest", intent.input_digest)
    ∷ ("target_digest", intent.target_digest)
    ∷ ("executor_digest", intent.executor_digest)
    ∷ []

-- `EnforcementIntent::validate`: the message of the error, if there is one. `{:?}` is `debug`.
unfoldable pub validate_intent : (String → String) → EnforcementIntent → Option String
validate_intent debug intent =
    if not (intent.kind == intent_kind)
    then some (concat ("unsupported enforcement intent kind " ∷ debug intent.kind ∷ []))
    else elim (find (λ (f : String × String). is_blank f.1) (named_fields intent)) [
      | some f ↦ some (concat ("enforcement intent " ∷ f.0 ∷ " must not be empty" ∷ []))
      | none ↦
          if any is_unconfined intent.changed_files
          then some "enforcement intent changed_files must be confined repository-relative paths"
          else none
    ]

-- The class that the adapter declares for an action.
unfoldable pub expected_class : String → Option ActionClass
expected_class action =
    if action == "fs.read"
    then some "read"
    else if action == "fs.write"
    then some "workspace_write"
    else if contains
        ("file.read_credential" ∷ "file.search_credential" ∷ "env.dump" ∷ "export.bare"
          ∷ "echo.secret_var" ∷ "network.exfil_credential" ∷ "network.exfil_env" ∷ [])
        action
    then some "secret_bearing"
    else if contains ("git.read" ∷ "git.add" ∷ "git.commit" ∷ []) action
    then some "git_local"
    else if contains ("git.push" ∷ "git.push_force" ∷ "gh.pr_mutate" ∷ "gh.issue_mutate" ∷ [])
        action
    then some "git_remote"
    else if action == "gh.read"
    then some "network_read"
    else if action == "dependency.install"
    then some "dependency_install"
    else if contains
        ("network.transfer" ∷ "wrangler.mutate" ∷ "terraform.mutate" ∷ "kubectl.mutate"
          ∷ "deploy.mutate" ∷ [])
        action
    then some "network_write"
    else if contains
        ("git.reset_hard" ∷ "git.clean_force" ∷ "rm.recursive" ∷ "sudo.exec" ∷ "chmod.perm_777"
          ∷ "chown.exec" ∷ "disk.raw_write" ∷ "system.shutdown" ∷ "find.delete" ∷ "find.exec"
          ∷ "nopal.enforcement_internal" ∷ [])
        action
    then some "destructive"
    else none

abbrev pub is_only : List ActionClass → ActionClass → Bool
is_only (class ∷ []) expected = class == expected
is_only _ expected = false

unfoldable pub action_classes_valid : String → List ActionClass → Bool
action_classes_valid action classes = is_some_and (expected_class action) (is_only classes)

unfoldable pub required_stages : String → List ActionClass → List GateStage
required_stages action classes =
    continuous
      ∷ (if action == "fs.write" || contains classes "workspace_write" then per_edit ∷ [] else [])
    ++ (if action == "git.commit" then pre_commit ∷ [] else [])
    ++ (if action == "git.push" || action == "gh.pr_mutate" then pre_pr ∷ [] else [])
