-- ===== src/Consistency/Output.antt =====
-- What an evaluation of consistency answers: contracts/ai/consistency.py of backend/src/kosmo, less the
-- ids, titles, sections and reasons that are only shown.
use kosmo.Base.{Option, List}
use kosmo.Base.Text.{Text}
use kosmo.Consistency.Evaluations.{SuggestedDiff}

pub data ConsistencyStatus : Type 0 where
  analizado_sin_impacto analizado_con_impacto analisis_fallido : ConsistencyStatus

pub record ArtifactAction : Type 0 where
  pub artifact_id : Text
  pub action : Text
  pub rationale : Text
  pub suggested_field : Text
  pub suggested_before : Text
  pub suggested_after : Text

pub record ConsistencyEvaluationOutput : Type 0 where
  pub status : ConsistencyStatus
  pub affected_artifact_ids : List Text
  pub failure_reason : Text
  pub actions : List ArtifactAction

pub record ImpactItem : Type 0 where
  pub target_id : Text
  pub artifact_type : Text
  pub target_display_id : Text
  pub diff : Option SuggestedDiff
  pub action : Text
