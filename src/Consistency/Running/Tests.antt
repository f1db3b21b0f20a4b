-- ===== src/Consistency/Running/Tests.antt =====
-- Runs and instances of the evaluations of consistency.
use kosmo.Base.{false, not, ◌&&◌, none, List, [], ◌∷◌, ok, ◌≡◌, refl, any}
use kosmo.Base.Text.{Text, codes, text_eq}
use kosmo.Trace.{modelo, implementacion, phase_eq, trace_downstream_phases, Feature}
use kosmo.Consistency.Snapshot.{is_current}
use kosmo.Consistency.Evaluations.{ConsistencyEvaluation, completed, is_completed}
use kosmo.Consistency.Output.{ConsistencyEvaluationOutput, ImpactItem, analizado_con_impacto}
use kosmo.Consistency.Tests.{whole_texts, one_implementation}
use kosmo.Consistency.Running.{Collaborators, run_consistency_evaluation}
use kosmo.Consistency.Running.Pending.{run_consistency_evaluation-current}

abbrev pay : Feature
pay = record {
  id = codes "f1";
  number = 1;
  title = codes "Pay";
  slug = codes "pay";
  description = codes "d";
  project_id = codes "p1";
  origin = codes "o";
  created_at = 1;
  updated_at = 1;
}

abbrev answer : ConsistencyEvaluationOutput
answer = record {
  status = analizado_con_impacto;
  affected_artifact_ids = codes "f1" ∷ [];
  failure_reason = [];
  actions = [];
}

abbrev one_item : List ImpactItem
one_item =
    record {
      target_id = codes "f1";
      artifact_type = codes "FeatureImplementation";
      target_display_id = codes "CAR-01";
      diff = none;
      action = codes "update";
    }
    ∷ []

abbrev agreeing : Collaborators Text
agreeing = record {
  evaluate = λ s t p. ok answer;
  enrich_impact_items = λ out t s w. ok one_item;
  list_by_project = λ p. pay ∷ [];
  snapshot_raises = λ t key. false;
  generate = λ t key. codes "new";
}

-- A suggestion of an earlier run, of another feature.
abbrev earlier : ConsistencyEvaluation
earlier = record {
  id = codes "e1";
  project_id = codes "p1";
  source_phase = modelo;
  target_phase = implementacion;
  target_artifact_id = codes "f9";
  artifact_type = codes "FeatureImplementation";
  snapshot_hash = codes "old";
  status = completed;
  result = none;
  failure_reason = none;
  updated_at = 1;
}

run_consistency_evaluation-current_example :
    ((run_consistency_evaluation whole_texts
        (λ t. t)
        9
        agreeing
        one_implementation
        (codes "p1")
        modelo
        (earlier ∷ [])).0
      ≡ none)
    × (any
          (λ r.
            (text_eq r.project_id (codes "p1") && phase_eq r.source_phase modelo)
            && (is_completed r.status
                && (any (phase_eq r.target_phase) (trace_downstream_phases modelo)
                    && not (is_current whole_texts (λ t. t) r one_implementation))))
          (run_consistency_evaluation whole_texts
            (λ t. t)
            9
            agreeing
            one_implementation
            (codes "p1")
            modelo
            (earlier ∷ [])).1
        ≡ false)
run_consistency_evaluation-current_example =
    run_consistency_evaluation-current whole_texts (λ t. t) 9 agreeing one_implementation
      (codes "p1") modelo (λ t. answer) (λ t. one_item) (λ t. refl) (λ t. refl) (λ t. refl)
      (λ t key. refl) (earlier ∷ []) refl (tt, tt)
