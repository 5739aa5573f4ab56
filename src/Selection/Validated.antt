-- ===== src/Selection/Validated.antt =====
-- Gate selection on a validated gates document: the ids of its gates are unique, so that selection
-- accounts for each gate once.
use nopal.Prelude.{◌+◌, String, ◌≡◌, List, arith}
use nopal.Json.{Json}
use nopal.Gates.{GateStage}
use nopal.Gates.Document.Scaffold.{Read}
use nopal.Gates.Document.Validate.{validate_document}
use nopal.Gates.Document.Unique.{validate_document_unique}
use nopal.Selection.Types.{SelectedGate, SkippedGate}
use nopal.Selection.Globs.{Globset}
use nopal.Selection.Select.{select}
use nopal.Selection.Partition.{count, gate_id, select-partition}

-- Whatever a gates document holds and whatever errors it has, selection on what its validator keeps
-- gives each id as often, selected or skipped, as it is declared.
pub validated-partition :
    (json : Json) (from_value : json.Value → Read) (path : String) (root : json.Value)
    (globset : Globset) (stage : GateStage) (changed_files : List String) (id : String)
    → let config = (validate_document json from_value path root).value in
      count (λ (g : SelectedGate). g.id) id (select globset config stage changed_files).selected
        + count (λ (g : SkippedGate). g.id) id (select globset config stage changed_files).skipped
      ≡ count gate_id id config.gates
validated-partition json from_value path root globset stage changed_files id =
    select-partition globset (validate_document json from_value path root).value stage changed_files
      id (λ i. omega (arith, validate_document_unique json path from_value root i))
