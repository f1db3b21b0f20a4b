-- ===== src/Consistency/Resolve.antt =====
-- Resolving the suggestions of consistency: backend/src/kosmo/application/consistency/
-- manage_consistency.py. SHA-256 is a parameter; what a repository call of the applied impact raises,
-- and whether the save of the row raises, are an argument. The other repository calls answer, the save
-- of a discard among them.
pub mod Outcomes
pub mod Invariant
pub mod Kept
pub mod Later
pub mod Pending
use kosmo.Base.{
  ℕ, ◌+◌, Bool, true, false, not, ◌&&◌, ◌||◌, Option, none, some, List, [], ◌∷◌, ◌++◌, Result, ok,
  err, keep, is_empty, if◌then◌else◌,
}
use kosmo.Base.Text.{Text, codes, text_eq}
use kosmo.Consistency.Snapshot.{feature_scope, is_current}
use kosmo.Trace.{SpecPhase}
use kosmo.Consistency.Artifacts.{Artifacts}
use kosmo.Consistency.Handlers.{Editing}
use kosmo.Consistency.Impacts.{Impact, FailedImpact, ApplyOutput, apply_impacts}
use kosmo.Consistency.Evaluations.{
  ConsistencyEvaluation, Suggestion, SuggestedDiff, ConsistencyEvaluationStatus, completed, failed,
  applied, discarded, is_completed, save, evaluating, by_id, list_unresolved,
}
use kosmo.Consistency.Evaluations.Keyed.{resolved_as}

pub data ConsistencyError : Type 0 where
  evaluation_not_found : Text → ConsistencyError
  stale : Text → Text → ConsistencyError
  project_not_found : Text → ConsistencyError
  repository_error : ConsistencyError

abbrev pub is_repository_error : Result ConsistencyError Text → Bool
is_repository_error (err repository_error) = true
is_repository_error _ = false

-- The exceptions of the repositories in one call: what a call of the applied impact raises, and whether
-- the save of the row raises.
pub record Trouble : Type 0 where
  pub raised : Option Text
  pub save_raises : Bool

pub record Board (Document : Type 0) : Type 0 where
  pub rows : List ConsistencyEvaluation
  pub artifacts : Artifacts Document

abbrev pub or_default : Text → Option Text → Text
or_default default none = default
or_default default (some t) = t

abbrev pub diff_or_empty : Option SuggestedDiff → SuggestedDiff
diff_or_empty none = record { field = none; before = none; after = none }
diff_or_empty (some d) = d

unfoldable pub diff_of : Option Suggestion → SuggestedDiff
diff_of none = record { field = none; before = none; after = none }
diff_of (some s) = diff_or_empty s.diff

unfoldable pub action_of : Option Suggestion → Text
action_of none = codes "update"
action_of (some s) = or_default (codes "update") s.action

-- `_impact_for_apply`.
unfoldable pub impact_for_apply : ConsistencyEvaluation → Impact
unfolding diff_of action_of feature_scope
impact_for_apply row = record {
  artifact_type = row.artifact_type;
  target_id = feature_scope row.target_artifact_id;
  action = action_of row.result;
  field = or_default (codes "description") (diff_of row.result).field;
  before = or_default [] (diff_of row.result).before;
  after = or_default [] (diff_of row.result).after;
}

pub record Tally : Type 0 where
  pub resolved : ℕ
  pub skipped : ℕ
  pub raised : Bool

abbrev pub counted : Result ConsistencyError Text → Tally → Tally
counted (ok t) tally = record tally { resolved = tally.resolved + 1 }
counted (err e) tally = record tally { skipped = tally.skipped + 1 }

module _ (edit : Editing) (sha256_hex : Text → Text) (now : ℕ) where
  open edit use {Document}

  unfoldable pub marked :
      ConsistencyEvaluationStatus
      → Option Text
      → ConsistencyEvaluation
      → Board Document
      → Board Document
  marked status reason row s = record s {
    rows = save now (resolved_as now status reason row) s.rows;
  }

  -- An answer after the save of the row, or the exception of that save.
  unfoldable pub after_save :
      Bool
      → Result ConsistencyError Text
      → ConsistencyEvaluationStatus
      → Option Text
      → ConsistencyEvaluation
      → Board Document
      → Result ConsistencyError Text × Board Document
  unfolding marked
  after_save true answer status reason row s = (err repository_error, s)
  after_save false answer status reason row s = (answer, marked status reason row s)

  unfoldable pub applied_row :
      Trouble
      → Text
      → ConsistencyEvaluation
      → Board Document
      → List FailedImpact
      → Result ConsistencyError Text × Board Document
  unfolding after_save
  applied_row trouble id row s [] =
      after_save trouble.save_raises (ok row.target_artifact_id) applied row.failure_reason row s
  applied_row trouble id row s (f ∷ fs) =
      after_save trouble.save_raises
        (err (stale id (codes "No se pudo aplicar el cambio: " ++ f.reason))) failed (some f.reason)
        row s

  unfoldable pub reported_row :
      Trouble
      → Text
      → ConsistencyEvaluation
      → Board Document
      → Option ApplyOutput
      → Result ConsistencyError Text × Board Document
  reported_row trouble id row s none = (err (project_not_found row.project_id), s)
  reported_row trouble id row s (some out) = applied_row trouble id row s out.failed

  unfoldable pub apply_row :
      Trouble
      → Text
      → ConsistencyEvaluation
      → Board Document
      → Result ConsistencyError Text × Board Document
  unfolding after_save
  apply_row trouble id row s =
      let (out, w) =
        apply_impacts edit now s.artifacts row.project_id
          ((impact_for_apply row, trouble.raised) ∷ []) in
      if not (is_completed row.status)
      then (err (stale id (codes "La sugerencia ya fue procesada o el análisis falló.")), s)
      else if not (is_current edit sha256_hex row s.artifacts)
      then after_save trouble.save_raises
          (err (stale id (codes "La lógica de origen cambió. La sugerencia ha sido descartada.")))
          discarded (some (codes "La lógica de origen cambió.")) row s
      else reported_row trouble id row (record s { artifacts = w }) out

  -- `project_id is not None and str(row.project_id) != str(project_id)`.
  unfoldable pub foreign : Option Text → ConsistencyEvaluation → Bool
  foreign none row = false
  foreign (some p) row = not (text_eq row.project_id p)

  unfoldable pub apply_found :
      Trouble
      → Text
      → Option Text
      → Board Document
      → Option ConsistencyEvaluation
      → Result ConsistencyError Text × Board Document
  apply_found trouble id project_id s none = (err (evaluation_not_found id), s)
  apply_found trouble id project_id s (some row) =
      if foreign project_id row
      then (err (evaluation_not_found id), s)
      else apply_row trouble id row s

  -- `ApplyConsistencyEvaluationUseCase.execute`.
  unfoldable pub apply_evaluation :
      Trouble → Text → Option Text → Board Document → Result ConsistencyError Text × Board Document
  apply_evaluation trouble id project_id s = apply_found trouble id project_id s (by_id id s.rows)

  unfoldable pub discard_found :
      Text
      → Option Text
      → Board Document
      → Option ConsistencyEvaluation
      → Result ConsistencyError Text × Board Document
  discard_found id project_id s none = (err (evaluation_not_found id), s)
  discard_found id project_id s (some row) =
      if foreign project_id row
      then (err (evaluation_not_found id), s)
      else if not (is_completed row.status)
      then (err (stale id (codes "La sugerencia ya fue procesada o el análisis falló.")), s)
      else (ok row.id, marked discarded (some (codes "Descartada por el usuario.")) row s)

  -- `DiscardConsistencyEvaluationUseCase.execute`.
  unfoldable pub discard_evaluation :
      Text → Option Text → Board Document → Result ConsistencyError Text × Board Document
  discard_evaluation id project_id s = discard_found id project_id s (by_id id s.rows)

  -- One row of the loop of `BulkResolveConsistencyUseCase.execute`.
  unfoldable pub resolve_row :
      (Text → Trouble)
      → Text
      → Text
      → ConsistencyEvaluation
      → Board Document
      → Result ConsistencyError Text × Board Document
  resolve_row trouble project_id action row s =
      if text_eq action (codes "apply")
      then apply_evaluation (trouble row.id) row.id (some project_id) s
      else discard_evaluation row.id (some project_id) s

  -- The loop catches its three exceptions, and ends with any other.
  unfoldable pub resolve_rows :
      (Text → Trouble)
      → Text
      → Text
      → List ConsistencyEvaluation
      → Board Document
      → Tally × Board Document
  resolve_rows trouble project_id action [] s =
      (record { resolved = 0; skipped = 0; raised = false }, s)
  resolve_rows trouble project_id action (row ∷ rows) s =
      let (result, s') = resolve_row trouble project_id action row s in
      let (tally, s'') = resolve_rows trouble project_id action rows s' in
      if is_repository_error result
      then (record { resolved = 0; skipped = 0; raised = true }, s')
      else (counted result tally, s'')

  unfoldable pub bulk_resolve :
      (Text → Trouble) → Text → SpecPhase → Text → Board Document → Tally × Board Document
  bulk_resolve trouble project_id target_phase action s =
      resolve_rows trouble project_id action
        (keep (λ (r : ConsistencyEvaluation). is_completed r.status)
          (list_unresolved project_id target_phase s.rows))
        s
