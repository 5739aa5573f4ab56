-- ===== src/Selection/Select.antt =====
-- `select` of selection.rs: explicit authority, the stage filter and the gates that no one pulled.
use nopal.Prelude.{
  String, Bool, false, not, ◌&&◌, Option, none, some, List, [], ◌∷◌, ◌++◌, if◌then◌else◌, is_empty,
  any, all, contains, is_some_and,
}
use nopal.Gates.{
  GateStage, stage_eq, Gate, Selector, GatesConfig, get_set, generated_gate_ids, has_scaffold,
}
use nopal.Selection.Types.{
  SkipReason, stage_mismatch, not_selected, superseded_by_explicit_authority, Via, SelectedGate,
  SkippedGate, SelectorMatch, Selection,
}
use nopal.Selection.Globs.{Globset, sort, dedup}
use nopal.Selection.Pull.{find_gate, Pulled, is_pulled, scan}

-- A gate that the repository declares itself, at the stage.
unfoldable pub is_explicit_at : GatesConfig → GateStage → List String → String → Bool
is_explicit_at config stage generated id =
    is_some_and (find_gate config id)
      (λ gate. stage_eq gate.stage stage && not (contains generated gate.id))

unfoldable pub selects_explicit_gate : GatesConfig → GateStage → List String → Selector → Bool
selects_explicit_gate config stage generated selector =
    any
      (λ name.
        is_some_and (get_set config.gate_sets name)
          (λ set. any (is_explicit_at config stage generated) set.gates))
      selector.gate_sets

-- The files that a selector with an explicit gate at the stage matched: `zip` and `extend`.
unfoldable pub covered_files :
    GatesConfig → GateStage → List String → List Selector → List SelectorMatch → List String
covered_files config stage generated (selector ∷ selectors) (m ∷ matches) =
    let rest = covered_files config stage generated selectors matches in
    if selects_explicit_gate config stage generated selector then m.matched_files ++ rest else rest
covered_files config stage generated [] matches = []
covered_files config stage generated (selector ∷ selectors) [] = []

unfoldable pub explicit_authority_covers_selection :
    GatesConfig → GateStage → List String → List SelectorMatch → Pulled → List String → Bool
explicit_authority_covers_selection config stage files matches pulled generated =
    if is_empty config.selectors
    then any (λ (p : String × Via). is_explicit_at config stage generated p.0) pulled
    else if is_empty files
    then false
    else all (contains (covered_files config stage generated config.selectors matches)) files

-- The two lists of gates that `select` fills.
pub record Outcome : Type 0 where
  pub selected : List SelectedGate
  pub skipped : List SkippedGate

abbrev pub select_gate : Gate → Via → SelectedGate
select_gate gate via = record {
  id = gate.id;
  stage = gate.stage;
  run = gate.run;
  cwd = gate.cwd;
  autofix = gate.autofix;
  parallel_safe = gate.parallel_safe;
  mutates = gate.mutates;
  via = via;
}

abbrev pub skip_gate : Gate → SkipReason → Option Via → SkippedGate
skip_gate gate reason via = record { id = gate.id; stage = gate.stage; reason = reason; via = via }

unfoldable pub decide_gate : GateStage → List String → Gate → Via → Outcome → Outcome
decide_gate stage suppressed gate via o =
    if contains suppressed gate.id
    then record o {
      skipped = skip_gate gate superseded_by_explicit_authority (some via) ∷ o.skipped;
    }
    else if stage_eq gate.stage stage
    then record o { selected = select_gate gate via ∷ o.selected }
    else record o { skipped = skip_gate gate stage_mismatch (some via) ∷ o.skipped }

-- An id that names no gate is passed over.
unfoldable pub decide_pulled : GatesConfig → GateStage → List String → Pulled → Outcome
decide_pulled config stage suppressed [] = record { selected = []; skipped = [] }
decide_pulled config stage suppressed ((id, via) ∷ rest) =
    let o = decide_pulled config stage suppressed rest in
    elim (find_gate config id) [ none ↦ o | some gate ↦ decide_gate stage suppressed gate via o ]

unfoldable pub skip_unpulled : List String → Pulled → List Gate → List SkippedGate
skip_unpulled suppressed pulled [] = []
skip_unpulled suppressed pulled (gate ∷ gates) =
    let rest = skip_unpulled suppressed pulled gates in
    if is_pulled pulled gate.id
    then rest
    else skip_gate gate
        (if contains suppressed gate.id then superseded_by_explicit_authority else not_selected)
        none
      ∷ rest

unfoldable pub suppressed_generated : Globset → GatesConfig → GateStage → List String → List String
suppressed_generated globset config stage files =
    let s = scan globset config files in
    if has_scaffold config
      && explicit_authority_covers_selection config stage files s.selectors s.pulled
          (generated_gate_ids config)
    then generated_gate_ids config
    else []

unfoldable pub select : Globset → GatesConfig → GateStage → List String → Selection
select globset config stage changed_files =
    let files = dedup (sort changed_files) in
    let s = scan globset config files in
    let suppressed = suppressed_generated globset config stage files in
    let o = decide_pulled config stage suppressed s.pulled in
    record {
      stage = stage;
      changed_files = files;
      selectors = s.selectors;
      selected = o.selected;
      skipped = o.skipped ++ skip_unpulled suppressed s.pulled config.gates;
    }
