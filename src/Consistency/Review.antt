-- ===== src/Consistency/Review.antt =====
-- Reviewing the suggestions of a phase: GetConsistencyReviewUseCase, GetConsistencyStatusUseCase and
-- GetConsistencyActivityUseCase of backend/src/kosmo/application/consistency/manage_consistency.py,
-- with list_for_activity and delete_by_project of infrastructure/persistence/postgres/repositories/
-- consistency_repo.py. Whether reading the snapshot of a row raises is an argument.
pub mod Fresh
mod Tests
use kosmo.Base.{
  ℕ, zero, suc, Bool, true, false, not, ◌&&◌, Option, none, some, List, [], ◌∷◌, map, keep, ◌||◌,
  count_if, is_empty, leb, if◌then◌else◌,
}
use kosmo.Base.Text.{Text, codes, text_eq}
use kosmo.Trace.{
  SpecPhase, caracteristicas, requisitos, modelo, implementacion, value, spec_to_api_phase,
}
use kosmo.Consistency.Artifacts.{Artifacts, ActivityDiagram}
use kosmo.Consistency.Handlers.{Editing}
use kosmo.Consistency.Snapshot.{is_current}
use kosmo.Consistency.Evaluations.{
  ConsistencyEvaluation, Suggestion, SuggestedDiff, ConsistencyEvaluationStatus, evaluating,
  completed, failed, applied, discarded, is_completed, save, list_unresolved,
}
use kosmo.Consistency.Evaluations.Keyed.{resolved_as}
use kosmo.Consistency.Resolve.{Board, action_of}

-- A diff, with the whole diagram before and after the change if it is shown.
pub record ReviewDiff : Type 0 where
  pub diff : SuggestedDiff
  pub diagrams : Option (Text × Text)

-- `ReviewCard`, less the titles and reasons that are only shown.
pub record ReviewCard : Type 0 where
  pub evaluation_id : Text
  pub source_phase : Text
  pub target_phase : Text
  pub target_artifact_id : Text
  pub artifact_type : Text
  pub action : Text
  pub diff : Option ReviewDiff
  pub status : ConsistencyEvaluationStatus
  pub failure_reason : Option Text

-- `result.get("diff")`.
abbrev pub diff_of_result : Option Suggestion → Option SuggestedDiff
diff_of_result none = none
diff_of_result (some s) = s.diff

abbrev pub with_diagrams : Option (Text × Text) → Option SuggestedDiff → Option ReviewDiff
with_diagrams shown none = none
with_diagrams shown (some d) = some (record { diff = d; diagrams = shown })

-- `_card_from_row`, with the diagrams that are put into the diff.
unfoldable pub card_from_row : Option (Text × Text) → ConsistencyEvaluation → ReviewCard
unfolding action_of value
card_from_row shown row = record {
  evaluation_id = row.id;
  source_phase = value row.source_phase;
  target_phase = value row.target_phase;
  target_artifact_id = row.target_artifact_id;
  artifact_type = row.artifact_type;
  action = action_of row.result;
  diff = with_diagrams shown (diff_of_result row.result);
  status = row.status;
  failure_reason = row.failure_reason;
}

abbrev pub text_of : Option Text → Text
text_of none = []
text_of (some t) = t

module _ (edit : Editing) (sha256_hex : Text → Text) (now : ℕ) where
  open edit use {Document, apply_change_diff, diagram_errors}

  -- The whole diagrams, if both are valid.
  unfoldable pub valid_diagrams : Text → Option Text → Option (Text × Text)
  valid_diagrams before none = none
  valid_diagrams before (some after) =
      if is_empty (diagram_errors before) && is_empty (diagram_errors after)
      then some (before, after)
      else none

  unfoldable pub changed_diagram : SuggestedDiff → Option ActivityDiagram → Option (Text × Text)
  unfolding valid_diagrams
  changed_diagram d none = none
  changed_diagram d (some diagram) =
      valid_diagrams diagram.diagram_syntax
        (apply_change_diff diagram.diagram_syntax (text_of d.before) (text_of d.after))

  unfoldable pub diff_diagrams :
      Artifacts Document → Text → Option SuggestedDiff → Option (Text × Text)
  unfolding changed_diagram
  diff_diagrams w target none = none
  diff_diagrams w target (some d) =
      if is_empty (text_of d.before) && is_empty (text_of d.after)
      then none
      else changed_diagram d (w.diagrams target)

  -- `_enrich_diagram_diff`: the diagrams that it puts into the diff of a row.
  unfoldable pub enrich_diagram_diff :
      Artifacts Document → ConsistencyEvaluation → Option (Text × Text)
  unfolding diff_diagrams
  enrich_diagram_diff w row =
      if text_eq row.artifact_type (codes "ActivityDiagram")
      then diff_diagrams w row.target_artifact_id (diff_of_result row.result)
      else none

  module _ (snapshot_raises : Text → Bool) (w : Artifacts Document) where
    -- The loop of the review: the cards, and the table.
    unfoldable pub review_rows :
        List ConsistencyEvaluation
        → List ConsistencyEvaluation
        → List ReviewCard × List ConsistencyEvaluation
    unfolding card_from_row enrich_diagram_diff
    review_rows [] table = ([], table)
    review_rows (row ∷ rows) table =
        let is_stale =
          is_completed row.status
          && (not (snapshot_raises row.id) && not (is_current edit sha256_hex row w)) in
        let (cards, table') = review_rows rows (
          if is_stale
          then save now
              (resolved_as now discarded (some (codes "Obsoleto: la entrada cambió.")) row) table
          else table) in
        (
          (if is_stale || (is_completed row.status && snapshot_raises row.id)
              then cards
              else card_from_row
                  (if is_completed row.status then enrich_diagram_diff w row else none) row
                ∷ cards),
          table',
        )

    -- `GetConsistencyReviewUseCase.execute`.
    unfoldable pub get_consistency_review :
        Text → SpecPhase → List ConsistencyEvaluation → List ReviewCard × List ConsistencyEvaluation
    unfolding review_rows
    get_consistency_review project_id target_phase table =
        review_rows (list_unresolved project_id target_phase table) table

pub record PhaseStatus : Type 0 where
  pub phase : Text
  pub pending : ℕ
  pub evaluating_count : ℕ
  pub failed_count : ℕ

abbrev pub is_evaluating : ConsistencyEvaluationStatus → Bool
is_evaluating evaluating = true
is_evaluating _ = false

abbrev pub is_failed_row : ConsistencyEvaluationStatus → Bool
is_failed_row failed = true
is_failed_row _ = false

-- `_REVIEW_TARGET_PHASES`.
abbrev pub review_target_phases : List SpecPhase
review_target_phases = caracteristicas ∷ requisitos ∷ modelo ∷ implementacion ∷ []

-- `GetConsistencyStatusUseCase.execute`.
unfoldable pub get_consistency_status : Text → List ConsistencyEvaluation → List PhaseStatus
unfolding spec_to_api_phase list_unresolved
get_consistency_status project_id table =
    map
      (λ (phase : SpecPhase).
        let rows = list_unresolved project_id phase table in
        record {
          phase = spec_to_api_phase phase;
          pending = count_if (λ (r : ConsistencyEvaluation). is_completed r.status) rows;
          evaluating_count = count_if (λ (r : ConsistencyEvaluation). is_evaluating r.status) rows;
          failed_count = count_if (λ (r : ConsistencyEvaluation). is_failed_row r.status) rows;
        })
      review_target_phases

-- `delete_by_project` of the repository.
unfoldable pub delete_by_project : Text → List ConsistencyEvaluation → List ConsistencyEvaluation
delete_by_project project_id table =
    keep (λ (r : ConsistencyEvaluation). not (text_eq r.project_id project_id)) table

-- `_RESOLVED_STATUSES`.
abbrev pub is_resolved : ConsistencyEvaluationStatus → Bool
is_resolved applied = true
is_resolved discarded = true
is_resolved _ = false

-- The order of `updated_at`, the latest first; rows of one time keep the order of the table.
unfoldable pub insert_latest :
    ConsistencyEvaluation → List ConsistencyEvaluation → List ConsistencyEvaluation
insert_latest r [] = r ∷ []
insert_latest r (q ∷ qs) =
    let rest = insert_latest r qs in if leb q.updated_at r.updated_at then r ∷ q ∷ qs else q ∷ rest

unfoldable pub latest_first : List ConsistencyEvaluation → List ConsistencyEvaluation
unfolding insert_latest
latest_first [] = []
latest_first (r ∷ rs) = insert_latest r (latest_first rs)

abbrev pub first : ℕ → List ConsistencyEvaluation → List ConsistencyEvaluation
first zero rows = []
first (suc n) [] = []
first (suc n) (r ∷ rows) = r ∷ first n rows

-- `list_for_activity`, whose rows `GetConsistencyActivityUseCase.execute` shows one by one.
unfoldable pub list_for_activity :
    Text → ℕ → List ConsistencyEvaluation → List ConsistencyEvaluation
unfolding latest_first
list_for_activity project_id limit table = first limit (
    latest_first (
      keep (λ (r : ConsistencyEvaluation). text_eq r.project_id project_id && is_resolved r.status)
        table))
