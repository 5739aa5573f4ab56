-- ===== src/Enforcement/Durable.antt =====
-- What an accepted `agent_isolation` (isolation.rs) may name, apart from the tests of the validator.
use nopal.Prelude.{
  ◌≡◌, refl, ap, ◌⊎◌, arith, Bool-cases, inl, inr, eq_iff, ◌==◌, String, Bool, some, true, List, [],
  ◌∷◌, ◌++◌, ℕ, any, All, keep, is_empty,
}
use nopal.Json.{Json}
use nopal.Ledger.Names.{codes}
use nopal.LedgerJson.Value.{chars_eq}
use nopal.Enforcement.Intent.{is_absolute, split_slash}
use nopal.Enforcement.Isolation.{
  AgentIsolation, is_component, components, starts_with_parts, manual_root_valid,
}
use nopal.Enforcement.Profiles.{validate_isolation}
use nopal.Enforcement.Isolated.{validate_isolation-tested}
use nopal.Enforcement.Usable.{IsUsable, profiles-IsUsable}

-- The path is the directory, or begins with it and a slash.
abbrev pub IsUnder : String → List ℕ → Type 0
IsUnder directory path =
    (path ≡ codes directory) ⊎ ((rest : List ℕ) × (path ≡ codes directory ++ 47 ∷ rest))

-- The root is beside the repository, or is an absolute path that is not written under a temporary
-- directory of the system.
abbrev pub IsDurable : String → Type 0
IsDurable root =
    (root ≡ "repo-sibling")
    ⊎ (((rest : List ℕ) × (codes root ≡ 47 ∷ rest))
        × ¬ IsUnder "/tmp" (codes root)
        × ¬ IsUnder "/private/tmp" (codes root)
        × ¬ IsUnder "/var/tmp" (codes root)
        × ¬ IsUnder "/private/var/folders" (codes root))

absolute_rest : (path : List ℕ) → is_absolute path ≡ true → (rest : List ℕ) × (path ≡ 47 ∷ rest)
absolute_rest [] h = cc
absolute_rest (c ∷ cs) h = (cs, ap (λ x. x ∷ cs) (ground (arith, h)))

-- The directory's components begin those of a path that is written under it.
abbrev is_inside : String → List ℕ → Bool
is_inside directory path =
    starts_with_parts (keep is_component (split_slash path)) (components directory)

tmp_inside : (path : List ℕ) → IsUnder "/tmp" path → is_inside "/tmp" path ≡ true
unfolding components starts_with_parts split_slash keep chars_eq
tmp_inside path (inl e) = rw e refl
tmp_inside path (inr (rest, e)) = rw e refl

private_tmp_inside :
    (path : List ℕ) → IsUnder "/private/tmp" path → is_inside "/private/tmp" path ≡ true
unfolding components starts_with_parts split_slash keep chars_eq
private_tmp_inside path (inl e) = rw e refl
private_tmp_inside path (inr (rest, e)) = rw e refl

var_tmp_inside : (path : List ℕ) → IsUnder "/var/tmp" path → is_inside "/var/tmp" path ≡ true
unfolding components starts_with_parts split_slash keep chars_eq
var_tmp_inside path (inl e) = rw e refl
var_tmp_inside path (inr (rest, e)) = rw e refl

folders_inside :
    (path : List ℕ)
    → IsUnder "/private/var/folders" path
    → is_inside "/private/var/folders" path ≡ true
unfolding components starts_with_parts split_slash keep chars_eq
folders_inside path (inl e) = rw e refl
folders_inside path (inr (rest, e)) = rw e refl

manual_root_valid-IsDurable : (root : String) → manual_root_valid root ≡ true → IsDurable root
unfolding manual_root_valid any components
manual_root_valid-IsDurable root h = elim (Bool-cases (root == "repo-sibling")) [
  | inl e ↦ inl ((eq_iff root "repo-sibling").0 e)
  | inr e ↦
      let valid = rw (e, manual_root_valid) at h in
      inr (
        absolute_rest (codes root) (ground (arith, valid)),
        λ u. absurd (ground (arith, valid, tmp_inside (codes root) u)),
        λ u. absurd (ground (arith, valid, private_tmp_inside (codes root) u)),
        λ u. absurd (ground (arith, valid, var_tmp_inside (codes root) u)),
        λ u. absurd (ground (arith, valid, folders_inside (codes root) u)),
      )
]

module _ (json : Json) (path : String) where
  -- An isolation that is accepted has no diagnostic. Its root is beside the repository, or absolute
  -- and not written as a temporary directory of the system or a path below one. The name of each
  -- profile begins with a lower-case letter or a digit and has only these, dots, underscores and
  -- dashes; it binds variables, each once, whose names have capitals, digits and underscores and do
  -- not begin with a digit; and each of its commands has a character that is not a space.
  pub validate_isolation_sound :
      (value : json.Value) {isolation : AgentIsolation}
      → (validate_isolation json path value).value ≡ some isolation
      → (is_empty (validate_isolation json path value).said ≡ true)
        × IsDurable isolation.manual_root
        × All IsUsable isolation.runtime_profiles
  validate_isolation_sound value {isolation} h =
      let (silent, root, profiles) = validate_isolation-tested json path value h in
      (
        silent,
        manual_root_valid-IsDurable isolation.manual_root root,
        profiles-IsUsable isolation.runtime_profiles profiles,
      )
