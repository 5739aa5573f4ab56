-- ===== src/Enforcement/Unique.antt =====
-- The uniqueness test of isolation.rs, which collects into a set: its sorted and deduplicated list.
use Prim.Native.Nat.{compare, Ordering, lt}
use Prim.Native.Char.{code}
use Prim.Native.String as Text
use Prim.Native.String.compare as Laws
use Prim.Native.String.{then as chain}
use nopal.Prelude.{
  ℕ, suc, String, Bool, true, false, not, ◌≡◌, refl, sym, ap, ◌∙◌, ◌&&◌, ◌||◌, ◌==◌, ◌≤◌, List, [],
  ◌∷◌, arith, Bool-cases, inl, inr, length, contains, eq_iff, text_lt,
}
use nopal.Parse.Distinct.{is_distinct}
use nopal.Diagnostics.Order.{text_flip}
use nopal.Selection.Globs.{insert_file, sort, dedup}
use nopal.Enforcement.Isolation.{is_unique}

abbrev is_lt : Ordering → Bool
is_lt lt = true
is_lt _ = false

chain_trans :
    (a b c : ℕ) (o p q : Ordering)
    → (is_lt o ≡ true → is_lt p ≡ true → is_lt q ≡ true)
    → is_lt (chain (compare a b) o) ≡ true
    → is_lt (chain (compare b c) p) ≡ true
    → is_lt (chain (compare a c) q) ≡ true
chain_trans a b c o p q f h k = ground (arith, f, h, k)

compare_trans :
    (s t u : String)
    → is_lt (Text.compare s t) ≡ true
    → is_lt (Text.compare t u) ≡ true
    → is_lt (Text.compare s u) ≡ true
compare_trans s String.[] String.[] h k = absurd (ground (arith, k, Laws.nil-nil))
compare_trans s (String.◌∷◌ d t) String.[] h k = absurd (ground (arith, k, Laws.cons-nil d t))
compare_trans String.[] t (String.◌∷◌ e u) h k = ap is_lt (Laws.nil-cons e u)
compare_trans (String.◌∷◌ c s) String.[] (String.◌∷◌ e u) h k =
    absurd (ground (arith, h, Laws.cons-nil c s))
compare_trans (String.◌∷◌ c s) (String.◌∷◌ d t) (String.◌∷◌ e u) h k =
    ap is_lt (Laws.cons-cons c e s u)
    ∙ chain_trans (code c) (code d) (code e) _ _ _ (compare_trans s t u)
        (ap is_lt (sym (Laws.cons-cons c d s t)) ∙ h) (ap is_lt (sym (Laws.cons-cons d e t u)) ∙ k)

lt_trans : (s t u : String) → text_lt s t ≡ true → text_lt t u ≡ true → text_lt s u ≡ true
lt_trans s t u h k = ground (arith, h, k, compare_trans s t u)

lt_asym : (s t : String) → text_lt s t ≡ true → text_lt t s ≡ false
lt_asym s t h = ground (arith, h, text_flip s t)

lt_total : (s t : String) → (s == t) ≡ false → text_lt t s ≡ false → text_lt s t ≡ true
lt_total s t h k = ground (arith, h, k, text_flip s t)

-- Neighbours: no greater than the next, other than the next, and smaller than the next.
abbrev rises : List String → Bool
rises [] = true
rises (f ∷ []) = true
rises (f ∷ g ∷ gs) = not (text_lt g f) && rises (g ∷ gs)

abbrev differs : List String → Bool
differs [] = true
differs (f ∷ []) = true
differs (f ∷ g ∷ gs) = not (f == g) && differs (g ∷ gs)

abbrev climbs : List String → Bool
climbs [] = true
climbs (f ∷ []) = true
climbs (f ∷ g ∷ gs) = text_lt f g && climbs (g ∷ gs)

climbs-both : (gs : List String) → rises gs ≡ true → differs gs ≡ true → climbs gs ≡ true
climbs-both [] h k = refl
climbs-both (f ∷ []) h k = refl
climbs-both (f ∷ g ∷ gs) h k =
    rw (lt_total f g (ground (arith, k)) (ground (arith, h)))
      (climbs-both (g ∷ gs) (ground (arith, h)) (ground (arith, k)))

-- What stands after a name in a climbing list is greater.
after_greater :
    (f : String) (gs : List String) (z : String)
    → climbs (f ∷ gs) ≡ true
    → contains gs z ≡ true
    → text_lt f z ≡ true
unfolding contains
after_greater f [] z h k = cc
after_greater f (g ∷ gs) z h k =
    let next : text_lt f g ≡ true = ground (arith, h) in
    elim (Bool-cases (g == z)) [
      | inl e ↦ ap (text_lt f) (sym ((eq_iff g z).0 e)) ∙ next
      | inr e ↦
          lt_trans f g z next (after_greater g gs z (ground (arith, h)) (ground (arith, k, e)))
    ]

climbs-is_distinct : (gs : List String) → climbs gs ≡ true → is_distinct gs ≡ true
unfolding contains
climbs-is_distinct [] h = refl
climbs-is_distinct (f ∷ []) h = refl
climbs-is_distinct (f ∷ g ∷ gs) h =
    ground (arith, climbs-is_distinct (g ∷ gs), h, after_greater f (g ∷ gs) f h, lt_asym f f)

rises-cons :
    (f : String) (gs : List String) (g : String)
    → text_lt g f ≡ true
    → rises (g ∷ gs) ≡ true
    → rises (insert_file f gs) ≡ true
    → rises (g ∷ insert_file f gs) ≡ true
unfolding insert_file
rises-cons f [] g h k l = rw (lt_asym g f h) refl
rises-cons f (x ∷ gs) g h k l = elim (Bool-cases (text_lt x f)) [
  | inl e ↦ rw e (ground (arith, k, rw e at l))
  | inr e ↦ rw e (ground (arith, lt_asym g f h, rw e at l))
]

insert-rises : (f : String) (gs : List String) → rises gs ≡ true → rises (insert_file f gs) ≡ true
unfolding insert_file
insert-rises f [] h = refl
insert-rises f (g ∷ []) h = elim (Bool-cases (text_lt g f)) [
  | inl e ↦ rw (e, lt_asym g f e) refl
  | inr e ↦ rw (e, e) refl
]
insert-rises f (g ∷ x ∷ gs) h = elim (Bool-cases (text_lt g f)) [
  | inl e ↦ rw e (rises-cons f (x ∷ gs) g e h (insert-rises f (x ∷ gs) (ground (arith, h))))
  | inr e ↦ rw (e, e) h
]

sort-rises : (xs : List String) → rises (sort xs) ≡ true
unfolding sort
sort-rises [] = refl
sort-rises (x ∷ xs) = insert-rises x (sort xs) (sort-rises xs)

length-insert : (f : String) (gs : List String) → length (insert_file f gs) ≡ suc (length gs)
unfolding insert_file
length-insert f [] = refl
length-insert f (g ∷ gs) = elim (Bool-cases (text_lt g f)) [
  | inl e ↦ rw e (ground (arith, length-insert f gs))
  | inr e ↦ rw e refl
]

length-sort : (xs : List String) → length (sort xs) ≡ length xs
unfolding sort
length-sort [] = refl
length-sort (x ∷ xs) = length-insert x (sort xs) ∙ ap suc (length-sort xs)

length-dedup : (gs : List String) → length (dedup gs) ≤ length gs
unfolding dedup
length-dedup [] = ground arith
length-dedup (f ∷ []) = ground arith
length-dedup (f ∷ g ∷ gs) = ground (arith, length-dedup (g ∷ gs))

length-differs : (gs : List String) → length (dedup gs) ≡ length gs → differs gs ≡ true
unfolding dedup
length-differs [] h = refl
length-differs (f ∷ []) h = refl
length-differs (f ∷ g ∷ gs) h = ground (arith, h, length-dedup (g ∷ gs), length-differs (g ∷ gs))

contains-insert :
    (f : String) (gs : List String) (z : String)
    → contains (insert_file f gs) z ≡ (f == z || contains gs z)
unfolding insert_file contains
contains-insert f [] z = refl
contains-insert f (g ∷ gs) z = elim (Bool-cases (text_lt g f)) [
  | inl e ↦ rw e (ground (arith, contains-insert f gs z))
  | inr e ↦ rw e refl
]

contains-sort : (xs : List String) (z : String) → contains (sort xs) z ≡ contains xs z
unfolding sort contains
contains-sort [] z = refl
contains-sort (x ∷ xs) z =
    contains-insert x (sort xs) z ∙ ap (λ b. x == z || b) (contains-sort xs z)

insert-is_distinct :
    (f : String) (gs : List String)
    → is_distinct (insert_file f gs) ≡ true
    → (is_distinct gs ≡ true) × (contains gs f ≡ false)
unfolding insert_file contains
insert-is_distinct f [] h = (refl, refl)
insert-is_distinct f (g ∷ gs) h = elim (Bool-cases (text_lt g f)) [
  | inl e ↦
      let parts = rw e at h in
      ground (arith, parts, contains-insert f gs g, insert-is_distinct f gs, eq_iff f g, eq_iff g f)
  | inr e ↦ let parts = rw e at h in (ground (arith, parts), ground (arith, parts))
]

sort-is_distinct : (xs : List String) → is_distinct (sort xs) ≡ true → is_distinct xs ≡ true
unfolding sort
sort-is_distinct [] h = refl
sort-is_distinct (x ∷ xs) h =
    let (rest, apart) = insert-is_distinct x (sort xs) h in
    ground (arith, sort-is_distinct xs rest, contains-sort xs x, apart)

-- A list that passes the test holds each name once.
pub is_unique-is_distinct : (xs : List String) → is_unique xs ≡ true → is_distinct xs ≡ true
is_unique-is_distinct xs h = sort-is_distinct xs (
    climbs-is_distinct (sort xs) (
      climbs-both (sort xs) (sort-rises xs)
        (length-differs (sort xs) (ground (arith, h, length-sort xs)))))
