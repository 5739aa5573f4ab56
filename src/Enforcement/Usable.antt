-- ===== src/Enforcement/Usable.antt =====
-- What a runtime profile of an accepted `agent_isolation` (isolation.rs) may name.
use nopal.Prelude.{
  ◌≡◌, refl, arith, String, Bool, true, false, not, ◌&&◌, ◌||◌, List, [], ◌∷◌, ℕ, eqb, any, all,
  All, is_empty,
}
use nopal.Ledger.Names.{codes}
use nopal.Enforcement.Intent.{is_whitespace, is_blank}
use nopal.Enforcement.Isolation.{
  RuntimeProfile, is_profile_char, starts_well, is_uppercase, is_digit, profile_name_valid,
  is_binding, binding_valid,
}
use nopal.Parse.Distinct.{is_distinct}
use nopal.Enforcement.Unique.{is_unique-is_distinct}
use nopal.Enforcement.Isolated.{is_well_formed}

abbrev pub is_one_of_chars : String → ℕ → Bool
is_one_of_chars chars c = any (eqb c) (codes chars)

-- The text is not empty, begins with one of the first characters, and has none but the others.
abbrev starts_in : String → List ℕ → Bool
starts_in chars [] = false
starts_in chars (c ∷ cs) = is_one_of_chars chars c

abbrev pub is_word_of : String → String → String → Bool
is_word_of first others text =
    starts_in first (codes text) && all (is_one_of_chars others) (codes text)

-- A path segment: it has no slash, and does not begin with a dot.
abbrev pub is_segment : String → Bool
is_segment =
    is_word_of "abcdefghijklmnopqrstuvwxyz0123456789" "abcdefghijklmnopqrstuvwxyz0123456789._-"

-- A name of an environment variable.
abbrev pub is_variable : String → Bool
is_variable = is_word_of "_ABCDEFGHIJKLMNOPQRSTUVWXYZ" "_ABCDEFGHIJKLMNOPQRSTUVWXYZ0123456789"

-- Some character is not a space.
abbrev pub has_text : String → Bool
has_text text = any (λ c. not (is_whitespace c)) (codes text)

abbrev pub IsUsable : RuntimeProfile → Type 0
IsUsable p =
    (is_segment p.name ≡ true)
    × (is_empty p.required_bindings ≡ false)
    × (all is_variable p.required_bindings ≡ true)
    × (is_distinct p.required_bindings ≡ true)
    × (all has_text
          (p.provider.allocate ∷ p.provider.verify ∷ p.provider.release ∷ p.provider.reconcile ∷ [])
        ≡ true)

profile_char :
    (c : ℕ)
    → is_profile_char c ≡ true
    → is_one_of_chars "abcdefghijklmnopqrstuvwxyz0123456789._-" c ≡ true
unfolding any
profile_char c h = ground (arith, h)

first_char :
    (cs : List ℕ)
    → starts_well cs ≡ true
    → starts_in "abcdefghijklmnopqrstuvwxyz0123456789" cs ≡ true
unfolding any
first_char [] h = cc
first_char (c ∷ cs) h = ground (arith, h)

profile_chars :
    (cs : List ℕ)
    → all is_profile_char cs ≡ true
    → all (is_one_of_chars "abcdefghijklmnopqrstuvwxyz0123456789._-") cs ≡ true
unfolding all
profile_chars [] h = refl
profile_chars (c ∷ cs) h =
    rw (profile_char c (ground (arith, h))) (profile_chars cs (ground (arith, h)))

binding_char :
    (c : ℕ)
    → (eqb c 95 || is_uppercase c || is_digit c) ≡ true
    → is_one_of_chars "_ABCDEFGHIJKLMNOPQRSTUVWXYZ0123456789" c ≡ true
unfolding any
binding_char c h = ground (arith, h)

binding_chars :
    (cs : List ℕ)
    → all (λ d. eqb d 95 || is_uppercase d || is_digit d) cs ≡ true
    → all (is_one_of_chars "_ABCDEFGHIJKLMNOPQRSTUVWXYZ0123456789") cs ≡ true
unfolding all
binding_chars [] h = refl
binding_chars (c ∷ cs) h =
    rw (binding_char c (ground (arith, h))) (binding_chars cs (ground (arith, h)))

binding_first :
    (c : ℕ)
    → (eqb c 95 || is_uppercase c) ≡ true
    → is_one_of_chars "_ABCDEFGHIJKLMNOPQRSTUVWXYZ" c ≡ true
unfolding any
binding_first c h = ground (arith, h)

is_binding-variable :
    (cs : List ℕ)
    → is_binding cs ≡ true
    → (starts_in "_ABCDEFGHIJKLMNOPQRSTUVWXYZ" cs
        && all (is_one_of_chars "_ABCDEFGHIJKLMNOPQRSTUVWXYZ0123456789") cs)
      ≡ true
unfolding all
is_binding-variable [] h = cc
is_binding-variable (c ∷ cs) h =
    rw
      (
        binding_first c (ground (arith, h)),
        binding_char c (ground (arith, h)),
        binding_chars cs (ground (arith, h)),
      )
      refl

bindings-variables :
    (names : List String) → all binding_valid names ≡ true → all is_variable names ≡ true
unfolding all binding_valid
bindings-variables [] h = refl
bindings-variables (name ∷ names) h =
    rw
      (
        is_binding-variable (codes name) (ground (arith, h)),
        bindings-variables names (ground (arith, h)),
      )
      refl

any-not : (p : ℕ → Bool) (cs : List ℕ) → any (λ c. not (p c)) cs ≡ not (all p cs)
unfolding any all
any-not p [] = refl
any-not p (c ∷ cs) = ground (arith, any-not p cs)

is_blank-has_text : (text : String) → has_text text ≡ not (is_blank text)
unfolding is_blank
is_blank-has_text text = any-not is_whitespace (codes text)

is_well_formed-IsUsable : (p : RuntimeProfile) → is_well_formed p ≡ true → IsUsable p
unfolding profile_name_valid all
is_well_formed-IsUsable p h = (
  rw
      (
        first_char (codes p.name) (ground (arith, h)),
        profile_chars (codes p.name) (ground (arith, h)),
      )
      refl,
  ground (arith, h),
  bindings-variables p.required_bindings (ground (arith, h)),
  is_unique-is_distinct p.required_bindings (ground (arith, h)),
  ground (
    arith,
    h,
    is_blank-has_text p.provider.allocate,
    is_blank-has_text p.provider.verify,
    is_blank-has_text p.provider.release,
    is_blank-has_text p.provider.reconcile,
  ),
)

pub profiles-IsUsable :
    (profiles : List RuntimeProfile) → all is_well_formed profiles ≡ true → All IsUsable profiles
unfolding all
profiles-IsUsable [] h = tt
profiles-IsUsable (p ∷ profiles) h =
    (is_well_formed-IsUsable p (ground (arith, h)), profiles-IsUsable profiles (ground (arith, h)))
