-- ===== src/Consistency/Tests.antt =====
-- Runs and instances of the propagation of changes between artifacts.
use kosmo.Base.{true, false, Option, none, some, List, [], ◌∷◌, ok, err, ◌≡◌, refl, length}
use kosmo.Base.Text.{Text, codes, split, join}
use kosmo.Trace.{requisitos, implementacion, value}
use kosmo.Consistency.Artifacts.{Artifacts, Implementation, implemented}
use kosmo.Consistency.Handlers.{Editing, mark_implementation_for_review}
use kosmo.Consistency.Handlers.Atomicity.{IsAtomic}
use kosmo.Consistency.Handlers.Frame.{IsSameAt}
use kosmo.Consistency.Impacts.{
  Impact, process_impact, process_impacts, apply_impacts, attempt_impact, apply_impact, recorded,
}
use kosmo.Consistency.Impacts.Accounting.{
  succeeding, process_impact-IsAtomic, process_impacts-succeeding, without_failures,
}
use kosmo.Consistency.Impacts.Locality.{process_impacts-IsSameAt}
use kosmo.Consistency.Evaluations.{ConsistencyEvaluation, completed, by_id}
use kosmo.Consistency.Snapshot.{
  head_of, feature_scope, source_part, target_part, fetch_snapshot_parts, compute_snapshot_hash,
  is_current,
}
use kosmo.Consistency.Resolve.{
  ConsistencyError, Trouble, Board, diff_of, action_of, impact_for_apply, after_save, applied_row,
  reported_row, apply_row, foreign, apply_found, apply_evaluation, discard_evaluation, bulk_resolve,
}
use kosmo.Consistency.Resolve.Outcomes.{LeavesArtifacts, apply_evaluation-LeavesArtifacts}
use kosmo.Consistency.Resolve.Kept.{Call, apply_call, bulk_call, make_calls}
use kosmo.Consistency.Resolve.Later.{apply_evaluation-once}
use kosmo.Consistency.Resolve.Pending.{pending, bulk_resolve-pending}

-- Editing of plain texts, where a change replaces the whole text.
abbrev pub whole_texts : Editing
whole_texts = record {
  Document = Text;
  document_to_markdown = λ d. d;
  markdown_to_document = λ t. t;
  apply_change_diff = λ current before after. some after;
  strip_origin_line = λ t. t;
  parse_requirements = λ t id n. some (codes "R1" ∷ []);
  diagram_errors = λ t. [];
  lower = λ t. t;
}

abbrev pub shop : Implementation
shop = record {
  id = codes "i1";
  feature_id = codes "f1";
  project_id = codes "p1";
  status = implemented;
  generated_files = codes "a.ts" ∷ [];
  updated_at = 1;
}

abbrev pub one_implementation : Artifacts Text
one_implementation = record {
  projects = λ t. true;
  discovery = λ t. none;
  features = λ t. none;
  requirements = λ t. none;
  diagrams = λ t. none;
  implementations = λ t. some shop;
  edges = [];
}

abbrev review : Impact
review = record {
  artifact_type = codes "FeatureImplementation";
  target_id = codes "f1";
  action = codes "update";
  field = codes "description";
  before = [];
  after = [];
}

abbrev unknown : Impact
unknown = record review { artifact_type = codes "Feature" }

abbrev two_impacts : List (Impact × Option Text)
two_impacts = (unknown, none) ∷ (review, none) ∷ []

process_impact-IsAtomic_example :
    IsAtomic whole_texts 5 one_implementation
      (process_impact whole_texts 5 one_implementation (codes "p1") none unknown)
process_impact-IsAtomic_example =
    process_impact-IsAtomic whole_texts 5 one_implementation (codes "p1") none unknown

process_impacts-succeeding_example :
    process_impacts whole_texts 5 one_implementation
      (codes "p1")
      (succeeding whole_texts 5 one_implementation (codes "p1") two_impacts)
    ≡ without_failures whole_texts 5
        (process_impacts whole_texts 5 one_implementation (codes "p1") two_impacts)
process_impacts-succeeding_example =
    process_impacts-succeeding whole_texts 5 (codes "p1") one_implementation two_impacts

-- The first of the two is refused and the second is applied.
two_reported :
    length (process_impacts whole_texts 5 one_implementation (codes "p1") two_impacts).1.applied ≡ 1
unfolding process_impacts process_impact attempt_impact apply_impact recorded
    mark_implementation_for_review
two_reported = refl

process_impacts-IsSameAt_example :
    IsSameAt whole_texts 5
      (codes "f2")
      one_implementation
      (process_impacts whole_texts 5 one_implementation (codes "p1") two_impacts).0
process_impacts-IsSameAt_example =
    process_impacts-IsSameAt whole_texts 5 (codes "p1") (codes "f2") one_implementation two_impacts
      (refl, (refl, tt))

-- A suggestion to review the implementation, made when it was as it is.
abbrev suggestion : ConsistencyEvaluation
suggestion = record {
  id = codes "e1";
  project_id = codes "p1";
  source_phase = requisitos;
  target_phase = implementacion;
  target_artifact_id = codes "f1";
  artifact_type = codes "FeatureImplementation";
  snapshot_hash = codes "requisitos|implementacion|f1|FeatureImplementation|none|implemented|a.ts";
  status = completed;
  result = none;
  failure_reason = none;
  updated_at = 1;
}

abbrev board : Board Text
board = record { rows = suggestion ∷ []; artifacts = one_implementation }

-- Every repository call answers.
abbrev calm : Trouble
calm = record { raised = none; save_raises = false }

-- The impact raises, and the row that says so is saved.
abbrev timeout : Trouble
timeout = record { raised = some (codes "timeout"); save_raises = false }

apply_evaluation-LeavesArtifacts_example :
    LeavesArtifacts whole_texts
      (λ t. t)
      5
      false
      one_implementation
      (apply_evaluation whole_texts (λ t. t) 5 timeout (codes "e1") none board)
apply_evaluation-LeavesArtifacts_example =
    apply_evaluation-LeavesArtifacts whole_texts (λ t. t) 5 timeout (codes "e1") none board

abbrev applied_board : Board Text
applied_board = (apply_evaluation whole_texts (λ t. t) 5 calm (codes "e1") none board).1

applied_run :
    apply_evaluation whole_texts (λ t. t) 5 calm (codes "e1") none board
    ≡ (ok (codes "f1"), applied_board)
unfolding apply_evaluation apply_found apply_row reported_row applied_row after_save foreign
    is_current compute_snapshot_hash fetch_snapshot_parts source_part target_part feature_scope
    head_of split join value apply_impacts process_impacts process_impact attempt_impact
    apply_impact recorded mark_implementation_for_review impact_for_apply diff_of action_of by_id
applied_run = refl

-- Another call for the suggestion and a bulk discard, between the two calls.
abbrev calls : List Call
calls =
    apply_call 6 calm (codes "e1") none
    ∷ bulk_call 7 (λ t. calm) (codes "p1") implementacion (codes "discard")
    ∷ []

apply_evaluation-once_example :
    let s = make_calls whole_texts (λ t. t) calls applied_board in
    ((e : ConsistencyError) × (apply_evaluation whole_texts (λ t. t) 8 calm (codes "e1") none s
        ≡ (err e, s)))
    × ((e : ConsistencyError) × (discard_evaluation whole_texts (λ t. t) 8 (codes "e1") none s
          ≡ (err e, s)))
apply_evaluation-once_example =
    apply_evaluation-once whole_texts (λ t. t) 5 calm (codes "e1") none board applied_board
      (codes "f1") (tt, tt) applied_run calls 8 calm none

bulk_resolve-pending_example :
    (pending
        (codes "p1")
        implementacion
        (bulk_resolve whole_texts
          (λ t. t)
          9
          (λ t. calm)
          (codes "p1")
          implementacion
          (codes "discard")
          board).1.rows
      ≡ [])
    × ((bulk_resolve whole_texts
          (λ t. t)
          9
          (λ t. calm)
          (codes "p1")
          implementacion
          (codes "discard")
          board).0.skipped
        ≡ 0)
    × ((bulk_resolve whole_texts
          (λ t. t)
          9
          (λ t. calm)
          (codes "p1")
          implementacion
          (codes "discard")
          board).0.resolved
        ≡ length (pending (codes "p1") implementacion board.rows))
bulk_resolve-pending_example =
    bulk_resolve-pending whole_texts (λ t. t) 9 (λ t. calm) (codes "p1") implementacion
      (codes "discard") board refl (tt, tt) (tt, tt)
