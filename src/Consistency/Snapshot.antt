-- ===== src/Consistency/Snapshot.antt =====
-- The snapshot that keeps a suggestion fresh: application/consistency/consistency_snapshot.py and
-- domain/sdd/consistency_snapshot.py of backend/src/kosmo. SHA-256 is a parameter.
use kosmo.Base.{Bool, Option, none, some, List, [], ◌∷◌, ◌++◌, if◌then◌else◌}
use kosmo.Base.Text.{Text, codes, text_eq, split, join}
use kosmo.Trace.{
  SpecPhase, descubrimiento, caracteristicas, requisitos, modelo, implementacion, value, Feature,
}
use kosmo.Consistency.Artifacts.{
  Artifacts, ActivityDiagram, Implementation, ImplementationStatus, pending, in_progress,
  implemented, requires_review, failed as failed_status,
}
use kosmo.Consistency.Handlers.{Editing}
use kosmo.Consistency.Evaluations.{ConsistencyEvaluation}

-- `target_artifact_id.split(":", 1)[0]`, also `_feature_scope`.
unfoldable pub head_of : List Text → Text
head_of [] = []
head_of (p ∷ ps) = p

unfoldable pub feature_scope : Text → Text
unfolding head_of
feature_scope target_artifact_id = head_of (split b':' target_artifact_id)

abbrev pub status_value : ImplementationStatus → Text
status_value pending = codes "pending"
status_value in_progress = codes "in_progress"
status_value implemented = codes "implemented"
status_value requires_review = codes "requires_review"
status_value failed_status = codes "failed"

-- `markdown or "none"`.
abbrev pub markdown_part : Option Text → Text
markdown_part none = codes "none"
markdown_part (some []) = codes "none"
markdown_part (some (c ∷ s)) = c ∷ s

abbrev pub feature_part : Option Feature → Text
feature_part none = codes "none"
feature_part (some f) = f.title ++ codes "|" ++ f.description ++ codes "|" ++ f.origin

abbrev pub diagram_part : Option ActivityDiagram → Text
diagram_part none = codes "none"
diagram_part (some d) = d.diagram_syntax

abbrev pub implementation_part : Option Implementation → Text
implementation_part none = codes "none"
implementation_part (some i) = status_value i.status ++ codes "|" ++ join b',' i.generated_files

module _ (edit : Editing) (sha256_hex : Text → Text) where
  open edit use {Document, document_to_markdown}

  unfoldable pub discovery_part : Option Document → Text
  discovery_part none = codes "none"
  discovery_part (some d) = document_to_markdown d

  unfoldable pub source_part : SpecPhase → Text → Text → Artifacts Document → Text
  source_part descubrimiento project_id target w = discovery_part (w.discovery project_id)
  source_part caracteristicas project_id target w = feature_part (w.features (feature_scope target))
  source_part requisitos project_id target w = markdown_part (w.requirements (feature_scope target))
  source_part modelo project_id target w = diagram_part (w.diagrams (feature_scope target))
  source_part implementacion project_id target w = codes "none"

  unfoldable pub target_part : Text → Text → Text → Artifacts Document → Text
  target_part artifact_type project_id target w =
      if text_eq artifact_type (codes "Feature")
      then feature_part (w.features (feature_scope target))
      else if text_eq artifact_type (codes "EARSRequirement")
      then markdown_part (w.requirements (feature_scope target))
      else if text_eq artifact_type (codes "ActivityDiagram")
      then diagram_part (w.diagrams (feature_scope target))
      else if text_eq artifact_type (codes "DiscoveryDocument")
      then discovery_part (w.discovery project_id)
      else if text_eq artifact_type (codes "FeatureImplementation")
      then implementation_part (w.implementations (feature_scope target))
      else codes "none"

  -- `fetch_snapshot_parts`, called with every repository.
  unfoldable pub fetch_snapshot_parts : ConsistencyEvaluation → Artifacts Document → List Text
  fetch_snapshot_parts row w =
      value row.source_phase
      ∷ value row.target_phase
      ∷ row.target_artifact_id
      ∷ row.artifact_type
      ∷ source_part row.source_phase row.project_id row.target_artifact_id w
      ∷ target_part row.artifact_type row.project_id row.target_artifact_id w
      ∷ []

  -- domain/sdd/consistency_snapshot.py.
  unfoldable pub compute_snapshot_hash : List Text → Text
  compute_snapshot_hash parts = sha256_hex (join b'|' parts)

  unfoldable pub is_current : ConsistencyEvaluation → Artifacts Document → Bool
  is_current row w = text_eq (compute_snapshot_hash (fetch_snapshot_parts row w)) row.snapshot_hash
