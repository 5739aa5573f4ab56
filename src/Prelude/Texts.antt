-- ===== src/Prelude/Texts.antt =====
-- Texts: `contains` on a list of texts, the order of texts, and `format!` as a concatenation.
use Prim.Native.Nat.{Ordering}
use Prim.Native.String.{String, compare, ◌++◌ as append_text}
use mathlib.Core.Path.{◌≡◌, refl}
use mathlib.Core.Bool.{Bool, true, false, ◌||◌}
use mathlib.Core.List.{List, [], ◌∷◌, ◌++◌}
use native.Mathlib.Omega.{arith}
use text.Mathlib.Text.{◌==◌}

-- `slice.contains(x)`
unfoldable pub contains : List String → String → Bool
contains [] x = false
contains (y ∷ ys) x = y == x || contains ys x

pub contains-append :
    (xs ys : List String) (x : String) → contains (xs ++ ys) x ≡ (contains xs x || contains ys x)
unfolding contains
contains-append [] ys x = refl
contains-append (y ∷ xs) ys x = ground (arith, contains-append xs ys x)

pub contains-snoc :
    (xs : List String) (x y : String) → contains (xs ++ x ∷ []) y ≡ (contains xs y || x == y)
unfolding contains
contains-snoc [] x y = ground arith
contains-snoc (z ∷ xs) x y = ground (arith, contains-snoc xs x y)

-- `format!` with its pieces in order
unfoldable pub concat : List String → String
concat [] = ""
concat (s ∷ rest) = append_text s (concat rest)

-- Texts are ordered by their characters, as Rust orders them by their bytes.
abbrev pub text_lt : String → String → Bool
text_lt a b = elim (compare a b) [ Ordering.lt ↦ true | _ ↦ false ]
