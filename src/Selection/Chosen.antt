-- ===== src/Selection/Chosen.antt =====
-- Which gates `select` selects, exactly.
use nopal.Prelude.{
  String, Bool, not, ◌||◌, ◌&&◌, ◌≡◌, ◌∙◌, List, [], ◌∷◌, ◌==◌, arith, if◌then◌else◌, is_empty, any,
  contains, is_some_and, Option-cases, inl, inr,
}
use nopal.Gates.{GateStage, stage_eq, Gate, GatesConfig, generated_gate_ids}
use nopal.Selection.Types.{SelectedGate}
use nopal.Selection.Globs.{Globset, sort, dedup}
use nopal.Selection.Pull.{find_gate, Pulled, is_pulled, scan}
use nopal.Selection.Pulled.{selects}
use nopal.Selection.Scanned.{is_matched, has-scan}
use nopal.Selection.Partition.{find_gate-id, find_gate-same}
use nopal.Selection.Select.{decide_gate, decide_pulled, suppressed_generated, select}

abbrev pub is_selected : String → List SelectedGate → Bool
is_selected id = any (λ g. g.id == id)

-- A gate of the stage that is not suppressed.
abbrev pub runs_at : GateStage → List String → Gate → Bool
runs_at stage suppressed gate = stage_eq gate.stage stage && not (contains suppressed gate.id)

module _ (config : GatesConfig) (stage : GateStage) (suppressed : List String) where
  decide_pulled-selected :
      (pulled : Pulled) (id : String)
      → is_selected id (decide_pulled config stage suppressed pulled).selected
        ≡ (is_some_and (find_gate config id) (runs_at stage suppressed) && is_pulled pulled id)
  unfolding decide_pulled decide_gate any
  decide_pulled-selected [] id = ground arith
  decide_pulled-selected ((j, via) ∷ rest) id = elim (Option-cases (find_gate config j)) [
    | inl absent ↦
        rw (absent, decide_pulled)
          (ground (arith, absent, find_gate-same config j id, decide_pulled-selected rest id))
    | inr (gate, found) ↦
        rw (found, decide_pulled)
          (ground (
            arith,
            found,
            find_gate-same config j id,
            find_gate-id config j found,
            decide_pulled-selected rest id,
          ))
  ]

-- What the selectors ask for: every declared gate if there is no selector, and otherwise the
-- generated gates and those of the sets of the selectors that matched a changed file.
abbrev pub is_wanted : Globset → GatesConfig → List String → String → Bool
is_wanted globset config files id =
    if is_empty config.selectors
    then any (λ (g : Gate). g.id == id) config.gates
    else any (λ (g : Gate). contains (generated_gate_ids config) g.id && g.id == id) config.gates
      || any
          (λ selector. is_matched globset files selector && selects (λ i. i == id) config selector)
          config.selectors

-- A gate is selected exactly if it is declared, its stage is the requested one, it is not a
-- suppressed generated gate, and the selectors ask for it.
pub select-exactly :
    (globset : Globset) (config : GatesConfig) (stage : GateStage) (changed_files : List String)
    (id : String)
    → is_selected id (select globset config stage changed_files).selected ≡ (
        is_some_and
          (find_gate config id)
          (runs_at stage (suppressed_generated globset config stage (dedup (sort changed_files))))
        && is_wanted globset config (dedup (sort changed_files)) id)
unfolding select
select-exactly globset config stage changed_files id =
    let files = dedup (sort changed_files) in
    decide_pulled-selected config stage (suppressed_generated globset config stage files)
      (scan globset config files).pulled id
    ∙ rw (has-scan globset files (λ i. i == id) config)
