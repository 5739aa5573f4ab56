-- ===== src/Enforcement/Added.antt =====
-- What adding one gate, and the gates of one source, does to the required gates (enforcement.rs).
use nopal.Prelude.{
  ◌≡◌, refl, subst, ap, ◌∙◌, arith, Bool-cases, Option-cases, inl, inr, ◌==◌, eq_iff, eq_refl,
  String, Bool, true, false, ◌||◌, Option, none, some, List, [], ◌∷◌, ◌++◌, map, any, all, find,
  is_some, any-find, any-append, contains,
}
use nopal.Diagnostics.Report.{error_diagnostic, new_diagnostic}
use nopal.Diagnostics.Errors.{is_error}
use nopal.Parse.Distinct.{is_distinct, distinct-snoc}
use nopal.Gates.{Run, command, argv}
use nopal.Selection.Types.{SelectedGate}
use nopal.Enforcement.Required.{
  text_option_eq, bool_option_eq, texts_eq, run_eq, GateSemantics, gate_semantics, semantics_eq,
  Sourced, Required, same_id, StageSource, unsuppressed, conflict, add_gate, add_gates, add_sources,
}

texts_eq_refl : (xs : List String) → texts_eq xs xs ≡ true
unfolding texts_eq
texts_eq_refl [] = refl
texts_eq_refl (x ∷ xs) = ground (arith, eq_refl x, texts_eq_refl xs)

text_option_eq_refl : (o : Option String) → text_option_eq o o ≡ true
unfolding text_option_eq
text_option_eq_refl none = refl
text_option_eq_refl (some x) = eq_refl x

bool_option_eq_refl : (o : Option Bool) → bool_option_eq o o ≡ true
unfolding bool_option_eq
bool_option_eq_refl none = refl
bool_option_eq_refl (some true) = refl
bool_option_eq_refl (some false) = refl

run_eq_refl : (r : Run) → run_eq r r ≡ true
unfolding run_eq
run_eq_refl (command c) = eq_refl c
run_eq_refl (argv words) = texts_eq_refl words

semantics_eq_refl : (s : GateSemantics) → semantics_eq s s ≡ true
unfolding semantics_eq
semantics_eq_refl s =
    rw
      (
        eq_refl s.id,
        eq_refl s.stage,
        run_eq_refl s.run,
        text_option_eq_refl s.cwd,
        text_option_eq_refl s.autofix,
        bool_option_eq_refl s.parallel_safe,
        bool_option_eq_refl s.mutates,
      )
      refl

any_of_find :
    {A : Type 0} (p q : A → Bool) (xs : List A) {x : A}
    → find p xs ≡ some x
    → q x ≡ true
    → any q xs ≡ true
unfolding find any
any_of_find p q [] h k = cc
any_of_find p q (y ∷ ys) h k = elim (Bool-cases (p y)) [
  | inl e ↦ ground (arith, e, h, k)
  | inr e ↦ ground (arith, any_of_find p q ys (rw e at h) k)
]

-- The gate has the id.
abbrev pub has_id : String → SelectedGate → Bool
has_id id gate = gate.id == id

-- An error was pushed, or some gate in the result has the semantics.
abbrev pub is_covered : Required → SelectedGate → Bool
is_covered r gate =
    any is_error r.said
    || any (λ (p : Sourced). semantics_eq (gate_semantics p.1) (gate_semantics gate)) r.selected

abbrev pub ids : List Sourced → List String
ids selected = map (λ (p : Sourced). p.1.id) selected

pub contains-ids :
    (selected : List Sourced) (id : String) → contains (ids selected) id ≡ any (same_id id) selected
unfolding contains any
contains-ids [] id = refl
contains-ids (p ∷ rest) id = ground (arith, contains-ids rest id)

ids-append : (xs ys : List Sourced) → ids (xs ++ ys) ≡ ids xs ++ ids ys
ids-append [] ys = refl
ids-append (x ∷ xs) ys = ap (λ rest. x.1.id ∷ rest) (ids-append xs ys)

-- A gate whose id is found changes no test of ids.
known_id :
    (id : String) (r : Required) (gate : Sourced) {previous : Sourced}
    → find (same_id gate.1.id) r.selected ≡ some previous
    → any (same_id id) r.selected ≡ (any (same_id id) r.selected || has_id id gate.1)
known_id id r gate e = elim (Bool-cases (has_id id gate.1)) [
  | inl h ↦
      let same : gate.1.id ≡ id = (eq_iff gate.1.id id).0 h in
      let found : any (same_id id) r.selected ≡ true =
        subst (λ x. any (same_id x) r.selected ≡ true) same
          (any-find (same_id gate.1.id) r.selected ∙ ap is_some e) in
      rw found refl
  | inr h ↦ ground (arith, h)
]

module _ (debug : String → String) where
  add_gate-ids :
      (id : String) (r : Required) (gate : Sourced)
      → any (same_id id) (add_gate debug r gate).selected
        ≡ (any (same_id id) r.selected || has_id id gate.1)
  unfolding any add_gate
  add_gate-ids id r gate = elim (Option-cases (find (same_id gate.1.id) r.selected)) [
    | inl e ↦ rw (e, add_gate, any-append) (ground arith)
    | inr (previous, e) ↦
        elim (Bool-cases (semantics_eq (gate_semantics previous.1) (gate_semantics gate.1))) [
          | inl same ↦ rw (e, same, add_gate) (known_id id r gate e)
          | inr other ↦ rw (e, other, add_gate) (known_id id r gate e)
        ]
  ]

  add_gates-ids :
      (id source : String) (gates : List SelectedGate) (r : Required)
      → any (same_id id) (add_gates debug r source gates).selected
        ≡ (any (same_id id) r.selected || any (has_id id) gates)
  unfolding any add_gates
  add_gates-ids id source [] r = ground arith
  add_gates-ids id source (gate ∷ gates) r = ground (
    arith,
    add_gates-ids id source gates (add_gate debug r (source, gate)),
    add_gate-ids id r (source, gate),
  )

  pub add_sources-ids :
      (id : String) (explicit : Bool) (sources : List StageSource) (r : Required)
      → any (same_id id) (add_sources debug explicit r sources).selected ≡ (
          any (same_id id) r.selected
          || any (λ s. any (has_id id) (unsuppressed explicit s)) sources)
  unfolding any add_sources
  add_sources-ids id explicit [] r = ground arith
  add_sources-ids id explicit (s ∷ sources) r = ground (
    arith,
    add_sources-ids id explicit sources (add_gates debug r s.source (unsuppressed explicit s)),
    add_gates-ids id s.source (unsuppressed explicit s) r,
  )

  -- Each id stands once.
  add_gate-distinct :
      (r : Required) (gate : Sourced)
      → is_distinct (ids r.selected) ≡ true
      → is_distinct (ids (add_gate debug r gate).selected) ≡ true
  unfolding add_gate
  add_gate-distinct r gate h = elim (Option-cases (find (same_id gate.1.id) r.selected)) [
    | inl e ↦ rw (e, add_gate, ids-append, distinct-snoc, contains-ids, any-find) (rw (e, h) refl)
    | inr (previous, e) ↦
        elim (Bool-cases (semantics_eq (gate_semantics previous.1) (gate_semantics gate.1))) [
          | inl same ↦ rw (e, same, add_gate) h
          | inr other ↦ rw (e, other, add_gate) h
        ]
  ]

  conflict-is_error : (previous gate : Sourced) → is_error (conflict debug previous gate) ≡ true
  unfolding conflict error_diagnostic new_diagnostic
  conflict-is_error previous gate = refl

  -- What is covered stays covered, and a gate that is added is covered.
  add_gate-is_covered :
      (r : Required) (gate : Sourced) (other : SelectedGate)
      → is_covered r other ≡ true
      → is_covered (add_gate debug r gate) other ≡ true
  unfolding add_gate
  add_gate-is_covered r gate other h = elim (Option-cases (find (same_id gate.1.id) r.selected)) [
    | inl e ↦ rw (e, add_gate, any-append) (ground (arith, h))
    | inr (previous, e) ↦
        elim (Bool-cases (semantics_eq (gate_semantics previous.1) (gate_semantics gate.1))) [
          | inl same ↦ rw (e, same, add_gate) h
          | inr differs ↦ rw (e, differs, add_gate, any-append) (ground (arith, h))
        ]
  ]

  add_gate-covers :
      (r : Required) (gate : Sourced) → is_covered (add_gate debug r gate) gate.1 ≡ true
  unfolding add_gate any
  add_gate-covers r gate = elim (Option-cases (find (same_id gate.1.id) r.selected)) [
    | inl e ↦
        rw (e, add_gate, any-append) (ground (arith, semantics_eq_refl (gate_semantics gate.1)))
    | inr (previous, e) ↦
        elim (Bool-cases (semantics_eq (gate_semantics previous.1) (gate_semantics gate.1))) [
          | inl same ↦
              rw (e, same, add_gate)
                (ground (
                  arith,
                  any_of_find (same_id gate.1.id)
                      (λ (p : Sourced). semantics_eq (gate_semantics p.1) (gate_semantics gate.1))
                      r.selected e same,
                ))
          | inr differs ↦
              rw (e, differs, add_gate, any-append)
                (ground (arith, conflict-is_error previous gate))
        ]
  ]

  -- The same for the loops.
  pub add_gates-is_covered :
      (source : String) (gates : List SelectedGate) (r : Required) (other : SelectedGate)
      → is_covered r other ≡ true
      → is_covered (add_gates debug r source gates) other ≡ true
  unfolding add_gates
  add_gates-is_covered source [] r other h = h
  add_gates-is_covered source (gate ∷ gates) r other h =
      add_gates-is_covered source gates _ other (add_gate-is_covered r (source, gate) other h)

  pub add_gates-covers :
      (source : String) (gates : List SelectedGate) (r : Required)
      → all (is_covered (add_gates debug r source gates)) gates ≡ true
  unfolding add_gates all
  add_gates-covers source [] r = refl
  add_gates-covers source (gate ∷ gates) r =
      rw (add_gates-is_covered source gates _ gate (add_gate-covers r (source, gate)))
        (add_gates-covers source gates _)

  pub add_gates-distinct :
      (source : String) (gates : List SelectedGate) (r : Required)
      → is_distinct (ids r.selected) ≡ true
      → is_distinct (ids (add_gates debug r source gates).selected) ≡ true
  unfolding add_gates
  add_gates-distinct source [] r h = h
  add_gates-distinct source (gate ∷ gates) r h =
      add_gates-distinct source gates _ (add_gate-distinct r (source, gate) h)
