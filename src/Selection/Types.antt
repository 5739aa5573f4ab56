-- ===== src/Selection/Types.antt =====
-- The types of crates/nopal-core/src/selection.rs.
use nopal.Prelude.{String, Bool, Option, List}
use nopal.Gates.{GateStage, Run}

pub data SkipReason : Type 0 where
  stage_mismatch not_selected superseded_by_explicit_authority : SkipReason

unfoldable pub skip_reason_text : SkipReason → String
skip_reason_text stage_mismatch = "stage_mismatch"
skip_reason_text not_selected = "not_selected"
skip_reason_text superseded_by_explicit_authority = "superseded_by_explicit_authority"

pub data Via : Type 0 where
  default : Via
  by_selector : String → String → Via

pub record SelectedGate : Type 0 where
  pub id : String
  pub stage : GateStage
  pub run : Run
  pub cwd : Option String
  pub autofix : Option String
  pub parallel_safe : Option Bool
  pub mutates : Option Bool
  pub via : Via

pub record SkippedGate : Type 0 where
  pub id : String
  pub stage : GateStage
  pub reason : SkipReason
  pub via : Option Via

pub record SelectorMatch : Type 0 where
  pub name : String
  pub matched : Bool
  pub matched_files : List String

pub record Selection : Type 0 where
  pub stage : GateStage
  pub changed_files : List String
  pub selectors : List SelectorMatch
  pub selected : List SelectedGate
  pub skipped : List SkippedGate
