-- ===== src/Diagnostics/Sorted.antt =====
-- The report order of diagnostics.rs, by path, position and code, stated apart from the comparison
-- that sorts it.
use Prim.Native.Nat.{compare, Ordering, lt, eq, gt}
use Prim.Native.String as Text
use Prim.Native.String.compare as Laws
use Prim.Native.String.{then as chain}
use mathlib.Core.List.{Perm}
use nopal.Prelude.{
  ℕ, String, Bool, true, false, not, ◌≡◌, refl, sym, ap, ◌∙◌, ◌⊎◌, Option, none, some, List, [],
  ◌∷◌, arith, Bool-cases, inl, inr, ◌&&◌, ◌||◌, ◌==◌, eqb, ltb, eq_iff, keep, text_lt,
}
use nopal.Diagnostics.Codes.{code_rank}
use nopal.Diagnostics.Report.{
  Position, Diagnostic, and_then, compare_position, compare_optional, compare_code,
  compare_diagnostic, is_gt, insert_diagnostic, sort_diagnostics,
}
use nopal.Diagnostics.Order.{flip, text_flip, is_ordered, sort-Perm, sort-is_ordered}

-- A diagnostic without a position stands before those that have one; positions go by line, then by
-- column.
abbrev pub position_before : Option Position → Option Position → Bool
position_before none (some q) = true
position_before (some p) (some q) = ltb p.line q.line || eqb p.line q.line && ltb p.column q.column
position_before _ _ = false

abbrev pub same_position : Option Position → Option Position → Bool
same_position none none = true
same_position (some p) (some q) = eqb p.line q.line && eqb p.column q.column
same_position _ _ = false

-- The first stands before the second: its path is smaller, or it is the same and the position comes
-- before, or both are the same and the code comes before.
abbrev pub stands_before : Diagnostic → Diagnostic → Bool
stands_before a b =
    text_lt a.path b.path
    || a.path == b.path
      && (position_before a.position b.position
          || same_position a.position b.position && ltb (code_rank a.code) (code_rank b.code))

-- Path, position and code are the same.
abbrev pub ties : Diagnostic → Diagnostic → Bool
ties a b =
    a.path == b.path
    && same_position a.position b.position
    && eqb (code_rank a.code) (code_rank b.code)

-- No diagnostic stands before its predecessor.
abbrev pub is_sorted : List Diagnostic → Bool
is_sorted [] = true
is_sorted (d ∷ []) = true
is_sorted (d ∷ e ∷ es) = not (stands_before e d) && is_sorted (e ∷ es)

compare_text_refl : (s : String) → Text.compare s s ≡ eq
compare_text_refl String.[] = Laws.nil-nil
compare_text_refl (String.◌∷◌ c s) =
    Laws.cons-cons c c s s ∙ rw (compare_text_refl s) (ground arith)

Ordering-cases : (o : Ordering) → (o ≡ lt) ⊎ (o ≡ eq) ⊎ (o ≡ gt)
Ordering-cases lt = inl refl
Ordering-cases eq = inr (inl refl)
Ordering-cases gt = inr (inr refl)

positions_gt :
    (p q : Option Position) (a b : ℕ)
    → is_gt (and_then (compare_optional p q) (compare a b))
      ≡ (position_before q p || same_position q p && ltb b a)
unfolding compare_optional compare_position
positions_gt none none a b = ground arith
positions_gt none (some q) a b = refl
positions_gt (some p) none a b = refl
positions_gt (some p) (some q) a b = ground arith

-- The comparison says that a diagnostic comes after another exactly if the other stands before it.
compare_diagnostic-stands_before :
    (d e : Diagnostic) → is_gt (compare_diagnostic d e) ≡ stands_before e d
unfolding compare_diagnostic compare_code
compare_diagnostic-stands_before d e =
    let back : Text.compare e.path d.path ≡ flip (Text.compare d.path e.path) =
      text_flip d.path e.path in
    elim (Ordering-cases (Text.compare d.path e.path)) [
      | inl o ↦ rw (o, back ∙ ap flip o, text_lt) refl
      | inr (inl o) ↦ rw (o, back ∙ ap flip o, text_lt) (positions_gt d.position e.position _ _)
      | inr (inr o) ↦ rw (o, back ∙ ap flip o, text_lt) refl
    ]

is_ordered-is_sorted : (ds : List Diagnostic) → is_ordered ds ≡ true → is_sorted ds ≡ true
is_ordered-is_sorted [] h = refl
is_ordered-is_sorted (d ∷ []) h = refl
is_ordered-is_sorted (d ∷ e ∷ es) h =
    ground (arith, h, compare_diagnostic-stands_before d e, is_ordered-is_sorted (e ∷ es))

-- Two that tie with a third do not stand one before the other.
same_positions :
    (k p q : Option Position)
    → same_position k p ≡ true
    → same_position k q ≡ true
    → position_before q p ≡ false
same_positions none none none h l = refl
same_positions none none (some q) h l = cc
same_positions none (some p) q h l = cc
same_positions (some k) none q h l = cc
same_positions (some k) (some p) none h l = cc
same_positions (some k) (some p) (some q) h l = ground (arith, h, l)

text_lt_irreflexive : (s : String) → text_lt s s ≡ false
text_lt_irreflexive s = rw (compare_text_refl s, text_lt) refl

ties-stands_before :
    (k d e : Diagnostic) → ties k d ≡ true → ties k e ≡ true → stands_before e d ≡ false
ties-stands_before k d e h l =
    let from : k.path ≡ d.path = (eq_iff k.path d.path).0 (ground (arith, h)) in
    let to : k.path ≡ e.path = (eq_iff k.path e.path).0 (ground (arith, l)) in
    let both : e.path ≡ d.path = sym to ∙ from in
    let irreflexive : text_lt e.path d.path ≡ false =
      ap (text_lt e.path) (sym both) ∙ text_lt_irreflexive e.path in
    ground (arith, h, l, irreflexive, same_positions k.position d.position e.position)

insert-ties :
    (k d : Diagnostic) (es : List Diagnostic)
    → keep (ties k) (insert_diagnostic d es) ≡ keep (ties k) (d ∷ es)
unfolding insert_diagnostic keep
insert-ties k d [] = refl
insert-ties k d (e ∷ es) = elim (Bool-cases (is_gt (compare_diagnostic d e))) [
  | inr n ↦ rw n refl
  | inl g ↦
      let before : stands_before e d ≡ true = sym (compare_diagnostic-stands_before d e) ∙ g in
      elim (Bool-cases (ties k e)) [
        | inr other ↦ rw (g, other, insert-ties k d es) refl
        | inl tied ↦ elim (Bool-cases (ties k d)) [
          | inl also ↦ absurd (ground (arith, before, ties-stands_before k d e also tied))
          | inr apart ↦
              let step : keep (ties k) (insert_diagnostic d es) ≡ keep (ties k) es =
                insert-ties k d es ∙ rw apart refl in
              rw (g, tied, apart, step) refl
        ]
      ]
]

sort-ties :
    (k : Diagnostic) (ds : List Diagnostic) → keep (ties k) (sort_diagnostics ds) ≡ keep (ties k) ds
unfolding sort_diagnostics keep
sort-ties k [] = refl
sort-ties k (d ∷ ds) = insert-ties k d (sort_diagnostics ds) ∙ rw (sort-ties k ds) refl

-- A sorted report has the diagnostics it was given, each as often. None stands before its
-- predecessor: by path, then by position, where one without a position comes first, then by code.
-- Those that have the path, the position and the code of one stay in the order they had.
pub sort_diagnostics-sorts :
    (ds : List Diagnostic) (k : Diagnostic)
    → Perm (sort_diagnostics ds) ds
      × (is_sorted (sort_diagnostics ds) ≡ true)
      × (keep (ties k) (sort_diagnostics ds) ≡ keep (ties k) ds)
sort_diagnostics-sorts ds k =
    (sort-Perm ds, is_ordered-is_sorted (sort_diagnostics ds) (sort-is_ordered ds), sort-ties k ds)
