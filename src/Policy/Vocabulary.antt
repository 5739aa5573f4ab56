-- ===== src/Policy/Vocabulary.antt =====
-- The vocabulary of policy.rs: open modes and action classes, and the closed lattices of decisions
-- and placements. A mode or a class is an interned text, compared by its text.
use nopal.Prelude.{
  ℕ, String, Bool, not, ◌||◌, Option, none, some, List, [], ◌∷◌, leb, ltb, ◌==◌, if◌then◌else◌,
  contains,
}

abbrev pub builtin_modes : List String
builtin_modes = "manual" ∷ "supervised_auto" ∷ "unattended_auto" ∷ "ci" ∷ []

abbrev pub known_classes : List String
known_classes =
    "read" ∷ "workspace_write" ∷ "dependency_install" ∷ "network_read" ∷ "network_write"
    ∷ "git_local" ∷ "git_remote" ∷ "destructive" ∷ "secret_bearing" ∷ []

abbrev pub protected_classes : List String
protected_classes = "destructive" ∷ "secret_bearing" ∷ []

abbrev pub Mode : Type 0
Mode = String

-- Every non-empty text names a mode; the built-in names are only constants for the same texts.
unfoldable pub parse_mode : String → Option Mode
parse_mode s = if s == "" then none else some s

unfoldable pub is_builtin : Mode → Bool
is_builtin mode = contains builtin_modes mode

abbrev pub ActionClass : Type 0
ActionClass = String

unfoldable pub parse_class : String → Option ActionClass
parse_class s = if s == "" then none else some s

unfoldable pub is_known : ActionClass → Bool
is_known class = contains known_classes class

unfoldable pub is_protected_or_unknown : ActionClass → Bool
is_protected_or_unknown class = not (is_known class) || contains protected_classes class

-- In the order of restrictiveness.
pub data Decision : Type 0 where
  allow ask deny : Decision

-- In the order of strength, weakest first.
pub data Placement : Type 0 where
  shared_user_runtime dedicated_repo_runtime dedicated_run_runtime blocked : Placement

-- The derived order is that of the variants.
abbrev pub decision_rank : Decision → ℕ
decision_rank allow = 0
decision_rank ask = 1
decision_rank deny = 2

abbrev pub placement_rank : Placement → ℕ
placement_rank shared_user_runtime = 0
placement_rank dedicated_repo_runtime = 1
placement_rank dedicated_run_runtime = 2
placement_rank blocked = 3

abbrev pub decision_lt : Decision → Decision → Bool
decision_lt a b = ltb (decision_rank a) (decision_rank b)

abbrev pub placement_lt : Placement → Placement → Bool
placement_lt a b = ltb (placement_rank a) (placement_rank b)

unfoldable pub max_decision : Decision → Decision → Decision
max_decision a b = if leb (decision_rank a) (decision_rank b) then b else a

unfoldable pub max_placement : Placement → Placement → Placement
max_placement a b = if leb (placement_rank a) (placement_rank b) then b else a

unfoldable pub parse_decision : String → Option Decision
parse_decision s =
    if s == "allow"
    then some allow
    else if s == "ask"
    then some ask
    else if s == "deny"
    then some deny
    else none

unfoldable pub decision_text : Decision → String
decision_text allow = "allow"
decision_text ask = "ask"
decision_text deny = "deny"

unfoldable pub parse_placement : String → Option Placement
parse_placement s =
    if s == "shared_user_runtime"
    then some shared_user_runtime
    else if s == "dedicated_repo_runtime"
    then some dedicated_repo_runtime
    else if s == "dedicated_run_runtime"
    then some dedicated_run_runtime
    else if s == "blocked"
    then some blocked
    else none

unfoldable pub placement_text : Placement → String
placement_text shared_user_runtime = "shared_user_runtime"
placement_text dedicated_repo_runtime = "dedicated_repo_runtime"
placement_text dedicated_run_runtime = "dedicated_run_runtime"
placement_text blocked = "blocked"

unfoldable pub builtin_default_decision : Mode → Decision
builtin_default_decision mode =
    if mode == "manual"
    then allow
    else if mode == "supervised_auto" || mode == "unattended_auto"
    then ask
    else if mode == "ci"
    then deny
    else ask

unfoldable pub builtin_default_placement : Mode → Placement
builtin_default_placement mode =
    if mode == "manual" || mode == "supervised_auto"
    then shared_user_runtime
    else if mode == "unattended_auto"
    then dedicated_repo_runtime
    else if mode == "ci"
    then dedicated_run_runtime
    else dedicated_repo_runtime
