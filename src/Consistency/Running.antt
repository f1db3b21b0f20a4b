-- ===== src/Consistency/Running.antt =====
-- Running evaluations of consistency: backend/src/kosmo/application/consistency/
-- run_consistency_evaluation.py, after the payload is read. The evaluator, with the changes of the
-- payload, is a parameter, as are the ids that are drawn and the exceptions of the snapshot. The
-- repositories of artifacts are not written meanwhile. The repository of the evaluations answers: its
-- exceptions leave the run at lines 160, 185, 233 and 249, which lie outside the `try`, and those of
-- line 127 are taken for a failed evaluation; neither is modelled.

pub mod Saves
pub mod Superseded
pub mod Fresh
pub mod Pending
pub mod Frame
pub mod Contained
mod Tests
use kosmo.Base.{
  ℕ, Bool, true, false, not, ◌&&◌, Option, none, some, List, [], ◌∷◌, ◌++◌, Result, ok, err,
  is_some, map, any, if◌then◌else◌,
}
use kosmo.Base.Text.{Text, codes, text_eq, member, filled, take}
use kosmo.Trace.{
  SpecPhase, caracteristicas, requisitos, modelo, implementacion, descubrimiento, phase_eq, Feature,
  trace_downstream_phases,
}
use kosmo.Consistency.Artifacts.{Artifacts}
use kosmo.Consistency.Handlers.{Editing}
use kosmo.Consistency.Snapshot.{fetch_snapshot_parts, compute_snapshot_hash}
use kosmo.Consistency.Evaluations.{
  ConsistencyEvaluation, Suggestion, completed, failed, discarded, is_completed, save,
  list_unresolved,
}
use kosmo.Consistency.Evaluations.Keyed.{resolved_as}
use kosmo.Consistency.Output.{
  ConsistencyStatus, analizado_sin_impacto, analizado_con_impacto, analisis_fallido,
  ConsistencyEvaluationOutput, ImpactItem,
}

-- The collaborators: the evaluator and `enrich_impact_items`, which may raise, what the features are,
-- whether reading the snapshot of an artifact raises, and the id that is drawn for a row.
pub record Collaborators (Document : Type 0) : Type 0 where
  pub evaluate : SpecPhase → SpecPhase → Text → Result Text ConsistencyEvaluationOutput
  pub enrich_impact_items :
      ConsistencyEvaluationOutput
      → SpecPhase
      → SpecPhase
      → Artifacts Document
      → Result Text (List ImpactItem)
  pub list_by_project : Text → List Feature
  pub snapshot_raises : SpecPhase → Text → Bool
  pub generate : SpecPhase → Text → Text

-- Whether a feature has an artifact of the phase.
unfoldable pub has_artifact : {Document : Type 0} → SpecPhase → Artifacts Document → Feature → Bool
has_artifact requisitos w f = is_some (filled (w.requirements f.id))
has_artifact modelo w f = is_some (w.diagrams f.id)
has_artifact implementacion w f = is_some (w.implementations f.id)
has_artifact _ w f = false

-- `_has_target_artifacts`.
unfoldable pub has_target_artifacts :
    {Document : Type 0} → SpecPhase → List Feature → Artifacts Document → Bool
unfolding has_artifact
has_target_artifacts target_phase [] w = false
has_target_artifacts target_phase (f ∷ fs) w =
    if phase_eq target_phase caracteristicas
    then true
    else any (has_artifact target_phase w) (f ∷ fs)

-- `_row_key`.
unfoldable pub row_key : ImpactItem → Text
row_key item =
    if text_eq item.artifact_type (codes "EARSRequirement")
    then item.target_id ++ (codes ":" ++ item.target_display_id)
    else item.target_id

module _ (now : ℕ) (project_id : Text) (source_phase target_phase : SpecPhase) where
  -- The rows that `_supersede_pair` discards among those that are unresolved.
  abbrev pub is_superseded : List Text → ConsistencyEvaluation → Bool
  is_superseded kept_keys row =
      phase_eq row.source_phase source_phase
      && (is_completed row.status && not (member row.target_artifact_id kept_keys))

  unfoldable pub supersede_rows :
      List Text
      → List ConsistencyEvaluation
      → List ConsistencyEvaluation
      → List ConsistencyEvaluation
  supersede_rows kept_keys [] rows = rows
  supersede_rows kept_keys (row ∷ existing) rows = supersede_rows kept_keys existing (
      if is_superseded kept_keys row
      then save now
          (resolved_as now discarded (some (codes "Superado por una evaluación más reciente.")) row)
          rows
      else rows)

  unfoldable pub supersede_pair :
      List Text → List ConsistencyEvaluation → List ConsistencyEvaluation
  unfolding supersede_rows
  supersede_pair kept_keys rows =
      supersede_rows kept_keys (list_unresolved project_id target_phase rows) rows

-- `result.failure_reason or "Analisis fallido"`.
abbrev pub reason_of : Text → Text
reason_of [] = codes "Analisis fallido"
reason_of (c ∷ s) = c ∷ s

abbrev pub is_failed : ConsistencyStatus → Bool
is_failed analisis_fallido = true
is_failed _ = false

-- The next round, unless an exception has left the loop.
abbrev pub continued :
    Option Text × List ConsistencyEvaluation
    → (List ConsistencyEvaluation → Option Text × List ConsistencyEvaluation)
    → Option Text × List ConsistencyEvaluation
continued (some e, rows) rest = (some e, rows)
continued (none, rows) rest = rest rows

module _ (edit : Editing) (sha256_hex : Text → Text) (now : ℕ) where
  open edit use {Document}

  module _ (with_ : Collaborators Document) (w : Artifacts Document) (project_id : Text)
      (source_phase : SpecPhase) where
    open with_ use {evaluate, enrich_impact_items, list_by_project, snapshot_raises, generate}

    module _ (target_phase : SpecPhase) where
      -- A row of the pair.
      unfoldable pub pair_row : Text → Text → ConsistencyEvaluation
      pair_row key artifact_type = record {
        id = generate target_phase key;
        project_id = project_id;
        source_phase = source_phase;
        target_phase = target_phase;
        target_artifact_id = key;
        artifact_type = artifact_type;
        snapshot_hash = [];
        status = completed;
        result = none;
        failure_reason = none;
        updated_at = now;
      }

      unfoldable pub failed_pair : Text → ConsistencyEvaluation
      unfolding pair_row
      failed_pair reason = record (pair_row (codes "_pair") (codes "_PairEvaluation")) {
        status = failed;
        failure_reason = some (take 1000 reason);
      }

      unfoldable pub suggested : ImpactItem → ConsistencyEvaluation
      unfolding pair_row
      suggested item =
          let row = pair_row (row_key item) item.artifact_type in
          record row {
            snapshot_hash =
                compute_snapshot_hash edit sha256_hex (fetch_snapshot_parts edit sha256_hex row w);
            result = some (record { action = some item.action; diff = item.diff });
          }

      unfoldable pub save_items :
          List ImpactItem → List ConsistencyEvaluation → List ConsistencyEvaluation
      unfolding suggested
      save_items [] rows = rows
      save_items (item ∷ items) rows = save_items items (
          if snapshot_raises target_phase (row_key item)
          then rows
          else save now (suggested item) rows)

      unfoldable pub store_items :
          Result Text (List ImpactItem)
          → List ConsistencyEvaluation
          → Option Text × List ConsistencyEvaluation
      unfolding save_items supersede_pair
      store_items (err e) rows = (some e, rows)
      store_items (ok items) rows = (
        none,
        supersede_pair now project_id source_phase target_phase (map row_key items)
            (save_items items rows),
      )

      unfoldable pub store_result :
          Result Text ConsistencyEvaluationOutput
          → List ConsistencyEvaluation
          → Option Text × List ConsistencyEvaluation
      unfolding failed_pair store_items
      store_result (err e) rows = (none, save now (failed_pair e) rows)
      store_result (ok out) rows =
          if is_failed out.status
          then (none, save now (failed_pair (reason_of out.failure_reason)) rows)
          else store_items (enrich_impact_items out target_phase source_phase w) rows

      -- One round of the loop over the targets; an exception that leaves it comes with the rows.
      unfoldable pub evaluate_target :
          List ConsistencyEvaluation → Option Text × List ConsistencyEvaluation
      unfolding store_result supersede_pair has_target_artifacts
      evaluate_target rows =
          if has_target_artifacts target_phase (list_by_project project_id) w
          then store_result (evaluate source_phase target_phase project_id) rows
          else (none, supersede_pair now project_id source_phase target_phase [] rows)

    unfoldable pub evaluate_targets :
        List SpecPhase → List ConsistencyEvaluation → Option Text × List ConsistencyEvaluation
    unfolding evaluate_target
    evaluate_targets [] rows = (none, rows)
    evaluate_targets (target ∷ targets) rows =
        continued (evaluate_target target rows) (evaluate_targets targets)

    unfoldable pub run_consistency_evaluation :
        List ConsistencyEvaluation → Option Text × List ConsistencyEvaluation
    unfolding evaluate_targets
    run_consistency_evaluation rows =
        if w.projects project_id
        then evaluate_targets (trace_downstream_phases source_phase) rows
        else (none, rows)
