-- ===== src/Diagnostics/Order.antt =====
-- The comparison that sorts the diagnostics (diagnostics.rs).
use Prim.Native.Nat.{compare, Ordering, lt, eq, gt}
use Prim.Native.String as Text
use Prim.Native.String.compare as Laws
use Prim.Native.String.{then as chain}
use Prim.Native.Char.{code}
use mathlib.Core.List.{Perm}
use mathlib.Core.List.Perm
use nopal.Prelude.{
  ℕ, String, Bool, true, false, not, ◌≡◌, refl, sym, ap, ◌∙◌, Option, none, some, List, [], ◌∷◌,
  arith, if◌then◌else◌, Bool-cases, inl, inr,
}
use nopal.Diagnostics.Codes.{code_rank}
use nopal.Diagnostics.Report.{
  Position, Diagnostic, and_then, compare_position, compare_optional, compare_code,
  compare_diagnostic, is_gt, insert_diagnostic, sort_diagnostics,
}

-- The comparison the other way round.
abbrev pub flip : Ordering → Ordering
flip lt = gt
flip eq = eq
flip gt = lt

compare-flip : (a b : ℕ) → compare b a ≡ flip (compare a b)
compare-flip a b = ground arith

and_then-flip : (o p : Ordering) → and_then (flip o) (flip p) ≡ flip (and_then o p)
and_then-flip lt p = refl
and_then-flip eq p = refl
and_then-flip gt p = refl

chain-flip : (o p : Ordering) → chain (flip o) (flip p) ≡ flip (chain o p)
chain-flip lt p = refl
chain-flip eq p = refl
chain-flip gt p = refl

pub text_flip : (s t : String) → Text.compare t s ≡ flip (Text.compare s t)
text_flip String.[] String.[] = Laws.nil-nil ∙ ap flip (sym Laws.nil-nil)
text_flip String.[] (String.◌∷◌ d t) = Laws.cons-nil d t ∙ ap flip (sym (Laws.nil-cons d t))
text_flip (String.◌∷◌ c s) String.[] = Laws.nil-cons c s ∙ ap flip (sym (Laws.cons-nil c s))
text_flip (String.◌∷◌ c s) (String.◌∷◌ d t) =
    Laws.cons-cons d c t s
    ∙ rw (compare-flip (code c) (code d), text_flip s t)
        (chain-flip (compare (code c) (code d)) (Text.compare s t))
    ∙ ap flip (sym (Laws.cons-cons c d s t))

compare_optional-flip : (p q : Option Position) → compare_optional q p ≡ flip (compare_optional p q)
unfolding compare_optional compare_position
compare_optional-flip none none = refl
compare_optional-flip none (some q) = refl
compare_optional-flip (some p) none = refl
compare_optional-flip (some p) (some q) =
    rw (compare-flip p.line q.line, compare-flip p.column q.column)
      (and_then-flip (compare p.line q.line) (compare p.column q.column))

compare_diagnostic-flip :
    (a b : Diagnostic) → compare_diagnostic b a ≡ flip (compare_diagnostic a b)
unfolding compare_diagnostic compare_code
compare_diagnostic-flip a b =
    rw
      (
        text_flip a.path b.path,
        compare_optional-flip a.position b.position,
        compare-flip (code_rank a.code) (code_rank b.code),
        and_then-flip (Text.compare a.path b.path) (compare_optional a.position b.position),
      )
      (and_then-flip
        (and_then (Text.compare a.path b.path) (compare_optional a.position b.position))
        (compare (code_rank a.code) (code_rank b.code)))

-- No diagnostic comes after its successor.
abbrev pub is_ordered : List Diagnostic → Bool
is_ordered [] = true
is_ordered (d ∷ []) = true
is_ordered (d ∷ e ∷ es) = if is_gt (compare_diagnostic d e) then false else is_ordered (e ∷ es)

gt_flip : (o : Ordering) → is_gt o ≡ true → is_gt (flip o) ≡ false
gt_flip gt h = refl
gt_flip lt h = cc
gt_flip eq h = refl

-- The diagnostic may stand before the list.
abbrev fits : Diagnostic → List Diagnostic → Bool
fits d [] = true
fits d (e ∷ es) = not (is_gt (compare_diagnostic d e))

ordered-cons :
    (d : Diagnostic) (es : List Diagnostic)
    → fits d es ≡ true
    → is_ordered es ≡ true
    → is_ordered (d ∷ es) ≡ true
ordered-cons d [] f h = refl
ordered-cons d (e ∷ es) f h = ground (arith, f, h)

ordered-parts :
    (d : Diagnostic) (es : List Diagnostic)
    → is_ordered (d ∷ es) ≡ true
    → (fits d es ≡ true) × (is_ordered es ≡ true)
ordered-parts d [] h = (refl, refl)
ordered-parts d (e ∷ es) h = ground (arith, h)

insert-fits :
    (e d : Diagnostic) (es : List Diagnostic)
    → fits e es ≡ true
    → is_gt (compare_diagnostic e d) ≡ false
    → fits e (insert_diagnostic d es) ≡ true
unfolding insert_diagnostic
insert-fits e d [] f n = ap not n
insert-fits e d (x ∷ xs) f n = elim (Bool-cases (is_gt (compare_diagnostic d x))) [
  | inl g ↦ rw g f
  | inr k ↦ rw k (ap not n)
]

insert-is_ordered :
    (d : Diagnostic) (es : List Diagnostic)
    → is_ordered es ≡ true
    → is_ordered (insert_diagnostic d es) ≡ true
unfolding insert_diagnostic
insert-is_ordered d [] h = refl
insert-is_ordered d (e ∷ es) h =
    let (fit, rest) = ordered-parts e es h in
    elim (Bool-cases (is_gt (compare_diagnostic d e))) [
      | inl g ↦ rw g (
          ordered-cons e (insert_diagnostic d es)
            (insert-fits e d es fit
              (ap is_gt (compare_diagnostic-flip d e) ∙ gt_flip (compare_diagnostic d e) g))
            (insert-is_ordered d es rest))
      | inr n ↦ rw n (ordered-cons d (e ∷ es) (ap not n) h)
    ]

insert-Perm : (d : Diagnostic) (es : List Diagnostic) → Perm (insert_diagnostic d es) (d ∷ es)
unfolding insert_diagnostic
insert-Perm d [] = Perm.refl (d ∷ [])
insert-Perm d (e ∷ es) = elim (Bool-cases (is_gt (compare_diagnostic d e))) [
  | inl g ↦ rw g (Perm.trans (Perm.cons e (insert-Perm d es)) (Perm.swap d e es))
  | inr n ↦ rw n (Perm.refl (d ∷ e ∷ es))
]

pub sort-Perm : (ds : List Diagnostic) → Perm (sort_diagnostics ds) ds
unfolding sort_diagnostics
sort-Perm [] = Perm.refl []
sort-Perm (d ∷ ds) = Perm.trans (insert-Perm d (sort_diagnostics ds)) (Perm.cons d (sort-Perm ds))

pub sort-is_ordered : (ds : List Diagnostic) → is_ordered (sort_diagnostics ds) ≡ true
unfolding sort_diagnostics
sort-is_ordered [] = refl
sort-is_ordered (d ∷ ds) = insert-is_ordered d (sort_diagnostics ds) (sort-is_ordered ds)
