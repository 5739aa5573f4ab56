-- ===== src/Prelude/Sets.antt =====
-- Lists of texts as sets: what `contains` and `any` say of two lists with the same elements.
use nopal.Prelude.Tests.{Bool-cases}
use nopal.Prelude.Lists.{any}
use nopal.Prelude.Texts.{contains}
use Prim.Native.String.{String}
use mathlib.Core.Path.{◌≡◌, refl, sym, ◌∙◌}
use mathlib.Core.Logic.{inl, inr}
use mathlib.Core.Bool.{Bool, true, false}
use mathlib.Core.List.{List, [], ◌∷◌}
use native.Mathlib.Omega.{arith}
use text.Mathlib.TextEquality.{eq_iff}
use text.Mathlib.TextPositions.{eq_refl}

abbrev pub IsSubset : List String → List String → Type 0
IsSubset xs ys = (c : String) → contains xs c ≡ true → contains ys c ≡ true

abbrev pub SameSet : List String → List String → Type 0
SameSet xs ys = (c : String) → contains xs c ≡ contains ys c

pub eq_of_iff : (a b : Bool) → (a ≡ true → b ≡ true) → (b ≡ true → a ≡ true) → a ≡ b
eq_of_iff true b f g = sym (f refl)
eq_of_iff false true f g = g refl
eq_of_iff false false f g = refl

module _ (p : String → Bool) where
  pub any_of_contains :
      (xs : List String) (x : String) → contains xs x ≡ true → p x ≡ true → any p xs ≡ true
  unfolding any contains
  any_of_contains [] x h q = h
  any_of_contains (y ∷ ys) x h q = ground (arith, eq_iff y x, any_of_contains ys x)

  pub any_witness :
      (xs : List String) → any p xs ≡ true → (x : String) × (contains xs x ≡ true) × (p x ≡ true)
  unfolding any contains
  any_witness [] h = cc
  any_witness (y ∷ ys) h = elim (Bool-cases (p y)) [
    | inl e ↦ (y, ground (arith, eq_refl y), e)
    | inr e ↦ let (x, inside, holds) = any_witness ys (ground arith) in (x, ground arith, holds)
  ]

  pub any_mono : (xs ys : List String) → IsSubset xs ys → any p xs ≡ true → any p ys ≡ true
  any_mono xs ys sub h =
      let (x, inside, holds) = any_witness xs h in any_of_contains ys x (sub x inside) holds

  pub any-SameSet : (xs ys : List String) → SameSet xs ys → any p xs ≡ any p ys
  any-SameSet xs ys same =
      eq_of_iff (any p xs) (any p ys) (any_mono xs ys (λ c h. sym (same c) ∙ h))
        (any_mono ys xs (λ c h. same c ∙ h))
