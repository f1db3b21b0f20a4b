-- ===== src/Consistency/Impacts.antt =====
-- backend/src/kosmo/application/consistency/apply_consistency_impacts.py: applying suggested
-- changes, each in a transaction of its own. An impact is the dict of the source with the defaults of
-- its `get` calls filled in.
pub mod Accounting
pub mod Locality
use kosmo.Base.{
  ℕ, Bool, true, false, not, ◌&&◌, ◌||◌, Option, none, some, List, [], ◌∷◌, ◌++◌, is_empty,
  if◌then◌else◌,
}
use kosmo.Base.Text.{Text, codes, text_eq}
use kosmo.Consistency.Artifacts.{Artifacts}
use kosmo.Consistency.Handlers.{
  Editing, Outcome, update_discovery, apply_requirement, update_feature, delete_feature,
  update_diagram, mark_implementation_for_review, delete_implementation,
}

pub record Impact : Type 0 where
  pub artifact_type : Text
  pub target_id : Text
  pub action : Text
  pub field : Text
  pub before : Text
  pub after : Text

pub record AppliedImpact : Type 0 where
  pub target_id : Text
  pub artifact_type : Text

pub record FailedImpact : Type 0 where
  pub target_id : Text
  pub artifact_type : Text
  pub reason : Text

pub record ApplyOutput : Type 0 where
  pub applied : List AppliedImpact
  pub failed : List FailedImpact

module _ (edit : Editing) (now : ℕ) where
  open edit use {Document}

  -- `_apply_impact`: the dispatch on the type of the artifact and the action.
  unfoldable pub apply_impact : Artifacts Document → Text → Impact → Outcome edit now
  apply_impact w project_id impact =
      let id = impact.target_id in
      let is_delete = text_eq impact.action (codes "delete") in
      if text_eq impact.artifact_type (codes "EARSRequirement")
      then (if is_delete
          then (w, none)
          else apply_requirement edit now w id (w.requirements id) impact.before impact.after)
      else if text_eq impact.artifact_type (codes "Feature")
      then (if is_delete
          then delete_feature edit now w id (w.features id)
          else update_feature edit now w id (w.features id) impact.field impact.before impact.after)
      else if text_eq impact.artifact_type (codes "ActivityDiagram")
      then (if is_delete
          then (w, none)
          else update_diagram edit now w id (w.diagrams id) impact.before impact.after)
      else if text_eq impact.artifact_type (codes "FeatureImplementation")
      then (if is_delete
          then delete_implementation edit now w id (w.implementations id)
          else mark_implementation_for_review edit now w id (w.implementations id))
      else if text_eq impact.artifact_type (codes "DiscoveryDocument")
      then (if is_delete
          then (w, some (codes "El documento de Descubrimiento no puede eliminarse"))
          else update_discovery edit now w project_id (w.discovery project_id) impact.before
              impact.after)
      else (w, some (codes "Tipo de artefacto desconocido: " ++ impact.artifact_type))

  -- The transaction: `raised` is the exception of a repository call, if one fails. It rolls back.
  unfoldable pub attempt_impact :
      Artifacts Document → Text → Option Text → Impact → Outcome edit now
  attempt_impact w project_id (some raised) impact = (w, some raised)
  attempt_impact w project_id none impact = apply_impact w project_id impact

  -- The guards of the loop's body, before the transaction.
  unfoldable pub process_impact :
      Artifacts Document → Text → Option Text → Impact → Outcome edit now
  process_impact w project_id raised impact =
      if is_empty impact.artifact_type || is_empty impact.target_id
      then (w, some (codes "Datos incompletos"))
      else if text_eq impact.action (codes "update")
          && (is_empty impact.before
              && (is_empty impact.after
                  && not (text_eq impact.artifact_type (codes "FeatureImplementation"))))
      then (w, some (codes "Sin sugerencia de cambio"))
      else attempt_impact w project_id raised impact

  unfoldable pub recorded : Impact → Option Text → ApplyOutput → ApplyOutput
  recorded impact none out = record out {
    applied =
        record { target_id = impact.target_id; artifact_type = impact.artifact_type } ∷ out.applied;
  }
  recorded impact (some reason) out = record out {
    failed =
        record {
          target_id = impact.target_id;
          artifact_type = impact.artifact_type;
          reason = reason;
        }
        ∷ out.failed;
  }

  -- The loop over the impacts, each with the exception that its transaction meets.
  unfoldable pub process_impacts :
      Artifacts Document → Text → List (Impact × Option Text) → Artifacts Document × ApplyOutput
  process_impacts w project_id [] = (w, record { applied = []; failed = [] })
  process_impacts w project_id ((impact, raised) ∷ rest) =
      let (w', reason) = process_impact w project_id raised impact in
      let (w'', out) = process_impacts w' project_id rest in (w'', recorded impact reason out)

  -- `ApplyConsistencyImpactsUseCase.execute`; `none` is `ProjectNotFoundError`.
  unfoldable pub apply_impacts :
      Artifacts Document
      → Text
      → List (Impact × Option Text)
      → Option ApplyOutput × Artifacts Document
  apply_impacts w project_id impacts =
      let (w', out) = process_impacts w project_id impacts in
      if w.projects project_id then (some out, w') else (none, w)
