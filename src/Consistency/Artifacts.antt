-- ===== src/Consistency/Artifacts.antt =====
-- What the specification of a project holds, behind the repositories of a unit of work
-- (backend/src/kosmo/contracts/sdd): the discovery document, and for each feature its requirements,
-- its activity diagram and its implementation; and the traceability edges.
use kosmo.Base.{ℕ, Bool, not, ◌||◌, List, [], ◌∷◌, ◌++◌, keep}
use kosmo.Base.Tables.{Table}
use kosmo.Base.Text.{Text, codes, text_eq}
use kosmo.Trace.{Feature}

-- `DiagramaActividad`.
pub record ActivityDiagram : Type 0 where
  pub id : Text
  pub feature_id : Text
  pub diagram_syntax : Text
  pub created_at : ℕ
  pub updated_at : ℕ

pub data ImplementationStatus : Type 0 where
  pending in_progress implemented requires_review failed : ImplementationStatus

-- `FeatureImplementation`, less what the code of this directory neither reads nor writes.
pub record Implementation : Type 0 where
  pub id : Text
  pub feature_id : Text
  pub project_id : Text
  pub status : ImplementationStatus
  pub generated_files : List Text
  pub updated_at : ℕ

pub record Edge : Type 0 where
  pub source_type : Text
  pub source_id : Text
  pub target_type : Text
  pub target_id : Text

-- `RichTextDocument` is a type that the rules of editing come with.
pub record Artifacts (Document : Type 0) : Type 0 where
  pub projects : Text → Bool
  pub discovery : Table Document
  pub features : Table Feature
  pub requirements : Table Text
  pub diagrams : Table ActivityDiagram
  pub implementations : Table Implementation
  pub edges : List Edge

-- `delete_by_entity_id` of infrastructure/persistence/postgres/repositories/traceability_repo.py.
unfoldable pub delete_by_entity_id : Text → List Edge → List Edge
delete_by_entity_id entity_id edges =
    keep (λ (e : Edge). not (text_eq e.source_id entity_id || text_eq e.target_id entity_id)) edges

-- `add_edge`, from a feature to each of the requirements.
unfoldable pub add_requirement_edges : Text → List Text → List Edge → List Edge
add_requirement_edges feature_id [] edges = edges
add_requirement_edges feature_id (r ∷ rs) edges = add_requirement_edges feature_id rs (
    edges
    ++ record {
      source_type = codes "feature";
      source_id = feature_id;
      target_type = codes "requirement";
      target_id = r;
    }
      ∷ [])
