-- ===== src/Enforcement/Complete.antt =====
-- Which gates `select_required_gates` of enforcement.rs gives, and that it loses none.
use nopal.Prelude.{
  ◌≡◌, refl, ◌∙◌, arith, String, Bool, true, ◌||◌, List, [], ◌∷◌, any, all, contains,
}
use nopal.Parse.Distinct.{is_distinct}
use nopal.Gates.{GateStage, GatesConfig}
use nopal.Selection.Globs.{Globset}
use nopal.Selection.Types.{SelectedGate}
use nopal.Enforcement.Required.{
  Required, same_id, StageSource, is_explicit_source, unsuppressed, add_sources, stage_sources,
  add_stage, add_stages, select_required_gates,
}
use nopal.Enforcement.Added.{
  has_id, is_covered, ids, contains-ids, add_sources-ids, add_gates-is_covered, add_gates-covers,
  add_gates-distinct,
}

all_imp :
    {A : Type 0} (p q : A → Bool)
    → ((x : A) → p x ≡ true → q x ≡ true)
    → (xs : List A) → all p xs ≡ true
    → all q xs ≡ true
unfolding all
all_imp p q h [] e = e
all_imp p q h (x ∷ xs) e = ground (arith, h x, all_imp p q h xs)

module _ (debug : String → String) where
  add_sources-is_covered :
      (explicit : Bool) (sources : List StageSource) (r : Required) (other : SelectedGate)
      → is_covered r other ≡ true
      → is_covered (add_sources debug explicit r sources) other ≡ true
  unfolding add_sources
  add_sources-is_covered explicit [] r other h = h
  add_sources-is_covered explicit (s ∷ sources) r other h =
      add_sources-is_covered explicit sources _ other
        (add_gates-is_covered debug s.source (unsuppressed explicit s) r other h)

  abbrev pub covers : Required → Bool → List StageSource → Bool
  covers r explicit sources = all (λ s. all (is_covered r) (unsuppressed explicit s)) sources

  add_sources-covers :
      (explicit : Bool) (sources : List StageSource) (r : Required)
      → covers (add_sources debug explicit r sources) explicit sources ≡ true
  unfolding add_sources all
  add_sources-covers explicit [] r = refl
  add_sources-covers explicit (s ∷ sources) r =
      rw
        (all_imp _ _ (add_sources-is_covered explicit sources _) (unsuppressed explicit s)
          (add_gates-covers debug s.source (unsuppressed explicit s) r))
        (add_sources-covers explicit sources _)

  add_sources-distinct :
      (explicit : Bool) (sources : List StageSource) (r : Required)
      → is_distinct (ids r.selected) ≡ true
      → is_distinct (ids (add_sources debug explicit r sources).selected) ≡ true
  unfolding add_sources
  add_sources-distinct explicit [] r h = h
  add_sources-distinct explicit (s ∷ sources) r h =
      add_sources-distinct explicit sources _
        (add_gates-distinct debug s.source (unsuppressed explicit s) r h)

  module _ (globset : Globset) (files : List String) (sources : List (String × GatesConfig)) where
    abbrev pub at_stage : GateStage → List StageSource
    at_stage stage = stage_sources debug globset files sources stage

    -- Some gate that the stage selects is not generated.
    abbrev pub has_authority : GateStage → Bool
    has_authority stage = any is_explicit_source (at_stage stage)

    -- The stage leaves a gate with the id.
    abbrev pub pulls : String → GateStage → Bool
    pulls id stage =
        any (λ s. any (has_id id) (unsuppressed (has_authority stage) s)) (at_stage stage)

    abbrev pub covers_stage : Required → GateStage → Bool
    covers_stage r stage = covers r (has_authority stage) (at_stage stage)

    add_stages-ids :
        (id : String) (stages : List GateStage) (r : Required)
        → any (same_id id) (add_stages debug globset files sources r stages).selected
          ≡ (any (same_id id) r.selected || any (pulls id) stages)
    unfolding any add_stages add_stage
    add_stages-ids id [] r = ground arith
    add_stages-ids id (stage ∷ stages) r = ground (
      arith,
      add_stages-ids id stages (add_stage debug globset files sources r stage),
      add_sources-ids debug id (has_authority stage) (at_stage stage) r,
    )

    add_stages-is_covered :
        (stages : List GateStage) (r : Required) (other : SelectedGate)
        → is_covered r other ≡ true
        → is_covered (add_stages debug globset files sources r stages) other ≡ true
    unfolding add_stages add_stage
    add_stages-is_covered [] r other h = h
    add_stages-is_covered (stage ∷ stages) r other h =
        add_stages-is_covered stages _ other
          (add_sources-is_covered (has_authority stage) (at_stage stage) r other h)

    add_stages-covers :
        (stages : List GateStage) (r : Required)
        → all (covers_stage (add_stages debug globset files sources r stages)) stages ≡ true
    unfolding add_stages add_stage all
    add_stages-covers [] r = refl
    add_stages-covers (stage ∷ stages) r =
        rw
          (all_imp _ _
            (λ (s : StageSource).
              all_imp _ _ (add_stages-is_covered stages _) (unsuppressed (has_authority stage) s))
            (at_stage stage) (add_sources-covers (has_authority stage) (at_stage stage) r))
          (add_stages-covers stages _)

    add_stages-distinct :
        (stages : List GateStage) (r : Required)
        → is_distinct (ids r.selected) ≡ true
        → is_distinct (ids (add_stages debug globset files sources r stages).selected) ≡ true
    unfolding add_stages add_stage
    add_stages-distinct [] r h = h
    add_stages-distinct (stage ∷ stages) r h =
        add_stages-distinct stages _
          (add_sources-distinct (has_authority stage) (at_stage stage) r h)

    abbrev pub chosen : List GateStage → Required
    chosen stages = select_required_gates debug globset files sources stages

    pub chosen-distinct :
        (stages : List GateStage) → is_distinct (ids (chosen stages).selected) ≡ true
    unfolding select_required_gates
    chosen-distinct stages = add_stages-distinct stages _ refl

    pub chosen-pulls :
        (stages : List GateStage) (id : String)
        → contains (ids (chosen stages).selected) id ≡ any (pulls id) stages
    unfolding select_required_gates any
    chosen-pulls stages id = contains-ids (chosen stages).selected id ∙ add_stages-ids id stages _

    pub chosen-covers_stage :
        (stages : List GateStage) → all (covers_stage (chosen stages)) stages ≡ true
    unfolding select_required_gates
    chosen-covers_stage stages = add_stages-covers stages _
