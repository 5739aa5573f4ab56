-- ===== src/Review/Types.antt =====
-- The configuration, the request and the verdicts of crates/nopal-core/src/review_policy.rs.
use nopal.Prelude.{ℕ, String, Bool, Option, none, some, List, [], ◌==◌, if◌then◌else◌, ltb}
use nopal.Gates.{GateStage}

pub data RiskClass : Type 0 where
  low medium high : RiskClass

unfoldable pub parse_risk_class : String → Option RiskClass
parse_risk_class s =
    if s == "low"
    then some low
    else if s == "medium"
    then some medium
    else if s == "high"
    then some high
    else none

unfoldable pub risk_class_text : RiskClass → String
risk_class_text low = "low"
risk_class_text medium = "medium"
risk_class_text high = "high"

-- The derived order.
abbrev pub risk_rank : RiskClass → ℕ
risk_rank low = 0
risk_rank medium = 1
risk_rank high = 2

abbrev pub risk_lt : RiskClass → RiskClass → Bool
risk_lt a b = ltb (risk_rank a) (risk_rank b)

pub record RiskConfig : Type 0 where
  pub max_auto_closeout_risk : RiskClass
  pub high_risk_paths : List String
  pub low_risk_paths : List String
  pub high_risk_file_count : Option ℕ
  pub high_risk_total_changes : Option ℕ
  pub low_risk_file_count : Option ℕ
  pub low_risk_total_changes : Option ℕ

unfoldable pub default_risk_config : RiskConfig
default_risk_config = record {
  max_auto_closeout_risk = low;
  high_risk_paths = [];
  low_risk_paths = [];
  high_risk_file_count = none;
  high_risk_total_changes = none;
  low_risk_file_count = none;
  low_risk_total_changes = none;
}

pub record FastPathConfig : Type 0 where
  pub max_changed_lines : ℕ

unfoldable pub default_fast_path_config : FastPathConfig
default_fast_path_config = record { max_changed_lines = 100 }

pub record ReviewPolicyConfig : Type 0 where
  pub risk : RiskConfig
  pub fast_path : FastPathConfig
  pub split_policy : Option String

pub record FastPathFacts : Type 0 where
  pub base_fresh : Bool
  pub needs_merge : Bool
  pub existing_pr : Bool

pub record ReviewRiskRequest : Type 0 where
  pub changed_files : List String
  pub total_changes : Option ℕ
  pub facts : FastPathFacts
  pub stage : GateStage

pub record RiskVerdict : Type 0 where
  pub class : RiskClass
  pub max_auto_closeout_risk : RiskClass
  pub agentic_reviewer_required : Bool

pub record FastPathVerdict : Type 0 where
  pub eligible : Bool
  pub reason : Option String
  pub max_changed_lines : ℕ
  pub changed_lines : Option ℕ

pub record ScopesVerdict : Type 0 where
  pub model : String
  pub touched : List String
  pub policy : Option String
  pub violation : Bool

pub record Verdict : Type 0 where
  pub risk : RiskVerdict
  pub fast_path : FastPathVerdict
  pub scopes : ScopesVerdict
