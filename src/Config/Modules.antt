-- ===== src/Config/Modules.antt =====
-- Profiles and modules (crates/nopal-core/src/profile.rs).
use nopal.Prelude.{
  ℕ, String, Bool, Option, none, some, List, [], ◌∷◌, ◌==◌, eqb, any, map, if◌then◌else◌,
}
use nopal.Json.{Json}
use nopal.Parse.Lists.{join}

pub data Module : Type 0 where
  gates policy workflow roots guidance review_policy : Module

abbrev pub all_modules : List Module
all_modules = gates ∷ policy ∷ workflow ∷ roots ∷ guidance ∷ review_policy ∷ []

-- The built-in profiles.
unfoldable pub builtin_required_modules : String → Option (List Module)
builtin_required_modules profile =
    if profile == "minimal"
    then some []
    else if profile == "portable"
    then some (gates ∷ policy ∷ [])
    else none

unfoldable pub parse_module : String → Option Module
parse_module s =
    if s == "gates"
    then some gates
    else if s == "policy"
    then some policy
    else if s == "workflow"
    then some workflow
    else if s == "roots"
    then some roots
    else if s == "guidance"
    then some guidance
    else if s == "review_policy"
    then some review_policy
    else none

unfoldable pub module_text : Module → String
module_text gates = "gates"
module_text policy = "policy"
module_text workflow = "workflow"
module_text roots = "roots"
module_text guidance = "guidance"
module_text review_policy = "review_policy"

unfoldable pub known_names : Json → String
known_names json = join (map (λ m. json.debug (module_text m)) all_modules)

-- The derived equality.
unfoldable pub module_tag : Module → ℕ
module_tag gates = 0
module_tag policy = 1
module_tag workflow = 2
module_tag roots = 3
module_tag guidance = 4
module_tag review_policy = 5

abbrev pub contains_module : List Module → Module → Bool
contains_module modules m = any (λ x. eqb (module_tag x) (module_tag m)) modules
