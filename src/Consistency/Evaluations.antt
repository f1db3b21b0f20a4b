-- ===== src/Consistency/Evaluations.antt =====
-- The evaluations of consistency and their table: contracts/ai/consistency.py and
-- infrastructure/persistence/postgres/repositories/consistency_repo.py of
-- backend/src/kosmo. The rows stand in the order of `created_at`, which a save never changes.
pub mod Keyed
use kosmo.Base.{ℕ, Bool, true, false, ◌&&◌, Option, none, some, List, [], ◌∷◌, if◌then◌else◌, keep}
use kosmo.Base.Text.{Text, text_eq}
use kosmo.Trace.{SpecPhase, phase_eq}

pub data ConsistencyEvaluationStatus : Type 0 where
  evaluating completed failed applied discarded : ConsistencyEvaluationStatus

-- The dict `result["diff"]` and the dict `result`, less the fields that are only shown; a key that is
-- missing is `none`.
pub record SuggestedDiff : Type 0 where
  pub field : Option Text
  pub before : Option Text
  pub after : Option Text

pub record Suggestion : Type 0 where
  pub action : Option Text
  pub diff : Option SuggestedDiff

pub record ConsistencyEvaluation : Type 0 where
  pub id : Text
  pub project_id : Text
  pub source_phase : SpecPhase
  pub target_phase : SpecPhase
  pub target_artifact_id : Text
  pub artifact_type : Text
  pub snapshot_hash : Text
  pub status : ConsistencyEvaluationStatus
  pub result : Option Suggestion
  pub failure_reason : Option Text
  pub updated_at : ℕ

abbrev pub is_completed : ConsistencyEvaluationStatus → Bool
is_completed completed = true
is_completed _ = false

-- `_UNRESOLVED_STATUSES`.
abbrev pub is_unresolved : ConsistencyEvaluationStatus → Bool
is_unresolved applied = false
is_unresolved discarded = false
is_unresolved _ = true

-- The columns by which `save` looks for the row.
unfoldable pub same_key : ConsistencyEvaluation → ConsistencyEvaluation → Bool
same_key r e =
    text_eq r.project_id e.project_id
    && (phase_eq r.source_phase e.source_phase
        && (phase_eq r.target_phase e.target_phase
            && text_eq r.target_artifact_id e.target_artifact_id))

-- `save`: the row with the key of the evaluation is overwritten and keeps its id.
unfoldable pub save :
    ℕ → ConsistencyEvaluation → List ConsistencyEvaluation → List ConsistencyEvaluation
save now e [] = record e { updated_at = now } ∷ []
save now e (r ∷ rs) =
    if same_key r e then record e { id = r.id; updated_at = now } ∷ rs else r ∷ save now e rs

unfoldable pub by_id : Text → List ConsistencyEvaluation → Option ConsistencyEvaluation
by_id id [] = none
by_id id (r ∷ rs) = if text_eq r.id id then some r else by_id id rs

unfoldable pub list_unresolved :
    Text → SpecPhase → List ConsistencyEvaluation → List ConsistencyEvaluation
list_unresolved project_id target_phase rows =
    keep
      (λ (r : ConsistencyEvaluation).
        text_eq r.project_id project_id
        && (phase_eq r.target_phase target_phase && is_unresolved r.status))
      rows
