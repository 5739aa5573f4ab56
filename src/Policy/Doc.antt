-- ===== src/Policy/Doc.antt =====
-- The policy document of policy.rs, a request for its evaluation, and the evaluation.
use nopal.Prelude.{String, Bool, Option, List}
use nopal.Policy.Vocabulary.{Mode, ActionClass, Decision, Placement}

pub record Rule : Type 0 where
  pub id : String
  pub decision : Option Decision
  pub placement : Option Placement
  pub classes : List ActionClass
  pub actions : List String
  pub reason : Option String

pub record ModePolicy : Type 0 where
  pub default_decision : Option Decision
  pub default_placement : Option Placement
  pub rules : List Rule

pub record EnvRef : Type 0 where
  pub name : String
  pub classes : List ActionClass

pub record PolicyDoc : Type 0 where
  pub modes : List (Mode × ModePolicy)
  pub env : List EnvRef

pub data Source : Type 0 where
  rule mode_default builtin_default safety_floor : Source

pub record EvalRequest : Type 0 where
  pub mode : Mode
  pub action : String
  pub classes : List ActionClass
  pub env : List String

pub record EnvRefReport : Type 0 where
  pub name : String
  pub known : Bool
  pub classes : List ActionClass

pub record MatchedRule : Type 0 where
  pub id : String
  pub via : String
  pub decision : Option Decision
  pub placement : Option Placement
  pub reason : Option String

pub record Evaluation : Type 0 where
  pub mode : Mode
  pub action : String
  pub classes : List ActionClass
  pub env : List EnvRefReport
  pub matched_rules : List MatchedRule
  pub decision : Decision
  pub decision_source : Source
  pub placement : Placement
  pub placement_source : Source
  pub class_notes : List String
