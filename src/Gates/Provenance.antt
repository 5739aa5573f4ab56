-- ===== src/Gates/Provenance.antt =====
-- The record of a generated gate configuration (crates/nopal-core/src/gate_scaffold.rs).
use nopal.Prelude.{String, Option, List}

pub data Readiness : Type 0 where
  ready needs_configuration blocked : Readiness

unfoldable pub readiness_text : Readiness → String
readiness_text ready = "ready"
readiness_text needs_configuration = "needs_configuration"
readiness_text Readiness.blocked = "blocked"

pub data Authority : Type 0 where
  generated explicit_nopal explicit_beislid explicit_nopal_and_beislid : Authority

unfoldable pub authority_text : Authority → String
authority_text generated = "generated"
authority_text explicit_nopal = "explicit_nopal"
authority_text explicit_beislid = "explicit_beislid"
authority_text explicit_nopal_and_beislid = "explicit_nopal_and_beislid"

pub data DecisionOutcome : Type 0 where
  selected skipped superseded ambiguous blocked : DecisionOutcome

unfoldable pub outcome_text : DecisionOutcome → String
outcome_text selected = "selected"
outcome_text skipped = "skipped"
outcome_text superseded = "superseded"
outcome_text ambiguous = "ambiguous"
outcome_text DecisionOutcome.blocked = "blocked"

pub record DetectionDecision : Type 0 where
  pub scope : String
  pub template_id : Option String
  pub outcome : DecisionOutcome
  pub reason_code : String
  pub evidence : List String
  pub message : String

pub record TemplateSelection : Type 0 where
  pub id : String
  pub scope : String
  pub evidence : List String

pub record ScaffoldProvenance : Type 0 where
  pub version : String
  pub readiness : Readiness
  pub authority : Authority
  pub templates : List TemplateSelection
  pub generated_gate_ids : List String
  pub decisions : List DetectionDecision
