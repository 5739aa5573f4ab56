-- ===== src/Enforcement/Asked.antt =====
-- What the sources of a contract ask for at a stage, and what `select_required_gates` of
-- enforcement.rs makes of it.
use mathlib.Core.List.{Memᴰ}
use mathlib.Core.List.Memᴰ.{head, tail}
use nopal.Prelude.{
  ◌≡◌, refl, sym, ap, subst, ◌⊎◌, arith, Bool-cases, inl, inr, String, Bool, true, false, not, ◌&&◌,
  List, [], ◌∷◌, map, any, all, keep, contains,
}
use nopal.Diagnostics.Errors.{is_error}
use nopal.Gates.{GateStage, GatesConfig, generated_gate_ids}
use nopal.Selection.Globs.{Globset}
use nopal.Selection.Types.{SelectedGate}
use nopal.Selection.Select.{select}
use nopal.Enforcement.Required.{
  gate_semantics, semantics_eq, Sourced, unsuppressed, select_source, stage_sources,
}
use nopal.Enforcement.Added.{has_id, is_covered}
use nopal.Enforcement.Complete.{at_stage, has_authority, covers, chosen, chosen-covers_stage}
use nopal.Enforcement.Same.{IsSame, semantics_eq_sound}

-- Tests of lists and their members.
all_at :
    {A : Type 0} (p : A → Bool) {x : A} (xs : List A) → all p xs ≡ true → Memᴰ x xs → p x ≡ true
unfolding all
all_at p [] h m = elim m [ ]
all_at p (y ∷ ys) h (head e) = subst (λ z. p z ≡ true) (sym e) (ground (arith, h))
all_at p (y ∷ ys) h (tail m) = all_at p ys (ground (arith, h)) m

any_found :
    {A : Type 0} (p : A → Bool) (xs : List A) → any p xs ≡ true → (x : A) × Memᴰ x xs × (p x ≡ true)
unfolding any
any_found p [] h = cc
any_found p (x ∷ xs) h = elim (Bool-cases (p x)) [
  | inl e ↦ (x, head refl, e)
  | inr e ↦ let (y, m, k) = any_found p xs (ground (arith, h, e)) in (y, tail m, k)
]

any-map :
    {A B : Type 0} (p : B → Bool) (q : A → Bool) (f : A → B)
    → ((x : A) → p (f x) ≡ q x)
    → (xs : List A) → any p (map f xs) ≡ any q xs
unfolding any
any-map p q f h [] = refl
any-map p q f h (x ∷ xs) = rw (h x, any-map p q f h xs) refl

map-member : {A B : Type 0} (f : A → B) {x : A} {xs : List A} → Memᴰ x xs → Memᴰ (f x) (map f xs)
map-member f (head e) = head (ap f e)
map-member f (tail m) = tail (map-member f m)

keep-member :
    {A : Type 0} (p : A → Bool) {x : A} (xs : List A) → Memᴰ x xs → p x ≡ true → Memᴰ x (keep p xs)
unfolding keep
keep-member p [] m h = elim m [ ]
keep-member p (y ∷ ys) (head e) h = rw (subst (λ z. p z ≡ true) e h) (head e)
keep-member p (y ∷ ys) (tail m) h = elim (Bool-cases (p y)) [
  | inl e ↦ rw e (tail (keep-member p ys m h))
  | inr e ↦ rw e (keep-member p ys m h)
]

module _ (debug : String → String) (globset : Globset) (files : List String)
    (sources : List (String × GatesConfig)) where
  -- What a source selects at a stage, and whether one of its ids is of a generated gate.
  abbrev pub at_source : GateStage → String × GatesConfig → List SelectedGate
  at_source stage source = (select globset source.1 stage files).selected

  abbrev pub generates : String × GatesConfig → String → Bool
  generates source id = contains (generated_gate_ids source.1) id

  -- Some source selects a gate at the stage that is not generated there.
  abbrev pub has_own : GateStage → Bool
  has_own stage =
      any
        (λ (s : String × GatesConfig).
          any (λ (g : SelectedGate). not (generates s g.id)) (at_source stage s))
        sources

  -- A source selects a gate with the id at the stage, and the gate is not generated if some source
  -- selects one there that is not.
  abbrev pub asks : String → GateStage → Bool
  asks id stage =
      any
        (λ (s : String × GatesConfig).
          any (has_id id) (at_source stage s) && not (has_own stage && generates s id))
        sources

  has_authority-has_own :
      (stage : GateStage) → has_authority debug globset files sources stage ≡ has_own stage
  unfolding stage_sources
  has_authority-has_own stage =
      any-map _ _ (select_source debug globset files sources stage) (λ s. refl) sources

  covered :
      (stages : List GateStage) {stage : GateStage} {source : String × GatesConfig}
      {gate : SelectedGate}
      → Memᴰ stage stages
      → Memᴰ source sources
      → Memᴰ gate (at_source stage source)
      → (has_own stage && generates source gate.id) ≡ false
      → is_covered (chosen debug globset files sources stages) gate ≡ true
  unfolding stage_sources
  covered stages {stage} {source} {gate} m n o h =
      let here : covers debug (chosen debug globset files sources stages)
            (has_authority debug globset files sources stage)
            (at_stage debug globset files sources stage)
          ≡ true =
        all_at _ stages (chosen-covers_stage debug globset files sources stages) m in
      let from : all (is_covered (chosen debug globset files sources stages)) (
            unsuppressed (has_authority debug globset files sources stage)
              (select_source debug globset files sources stage source))
          ≡ true =
        all_at _ (at_stage debug globset files sources stage) here
          (map-member (select_source debug globset files sources stage) n) in
      all_at _ _ from
        (keep-member _ (at_source stage source) o (rw (has_authority-has_own stage) (ap not h)))

  -- Each gate that a source selects at a required stage, and that is not generated while some source
  -- selects one there that is not, is required with its own id, stage, command, directory, autofix
  -- and flags, or there is an error.
  pub select_required_gates-covers_stage :
      (stages : List GateStage) {stage : GateStage} {source : String × GatesConfig}
      {gate : SelectedGate}
      → Memᴰ stage stages
      → Memᴰ source sources
      → Memᴰ gate (at_source stage source)
      → (has_own stage && generates source gate.id) ≡ false
      → (any is_error (chosen debug globset files sources stages).said ≡ true)
        ⊎ ((p : Sourced) × Memᴰ p (chosen debug globset files sources stages).selected
            × IsSame p.1 gate)
  select_required_gates-covers_stage stages {gate = gate} m n o h =
      let done_so : is_covered (chosen debug globset files sources stages) gate ≡ true =
        covered stages m n o h in
      elim (Bool-cases (any is_error (chosen debug globset files sources stages).said)) [
        | inl e ↦ inl e
        | inr e ↦
            let (p, member, same) =
              any_found (λ (p : Sourced). semantics_eq (gate_semantics p.1) (gate_semantics gate))
                (chosen debug globset files sources stages).selected (ground (arith, done_so, e)) in
            inr (p, member, semantics_eq_sound p.1 gate same)
      ]
