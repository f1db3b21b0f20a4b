-- ===== src/Consistency/Review/Tests.antt =====
-- Runs and instances of the review of suggestions.
use kosmo.Base.{false, not, ◌&&◌, ◌||◌, none, [], ◌∷◌, ◌≡◌, refl, map, keep, any}
use kosmo.Base.Text.{codes, text_eq}
use kosmo.Trace.{modelo, implementacion, phase_eq}
use kosmo.Consistency.Snapshot.{is_current}
use kosmo.Consistency.Evaluations.{
  ConsistencyEvaluation, completed, failed, applied, discarded, is_completed, is_unresolved,
  list_unresolved, same_key,
}
use kosmo.Consistency.Tests.{whole_texts, one_implementation}
use kosmo.Consistency.Review.{
  ReviewCard, PhaseStatus, get_consistency_review, get_consistency_status, list_for_activity,
  latest_first, insert_latest,
}
use kosmo.Consistency.Review.Fresh.{get_consistency_review-current}

abbrev old : ConsistencyEvaluation
old = record {
  id = codes "e1";
  project_id = codes "p1";
  source_phase = modelo;
  target_phase = implementacion;
  target_artifact_id = codes "f1";
  artifact_type = codes "FeatureImplementation";
  snapshot_hash = codes "old";
  status = completed;
  result = none;
  failure_reason = none;
  updated_at = 1;
}

abbrev broken : ConsistencyEvaluation
broken = record old { id = codes "e2"; target_artifact_id = codes "_pair"; status = failed }

latest :
    list_for_activity (codes "p1") 1 (
      record old { status = applied }
      ∷ record broken { status = discarded; updated_at = 7 }
      ∷ old
      ∷ [])
    ≡ record broken { status = discarded; updated_at = 7 } ∷ []
unfolding list_for_activity latest_first insert_latest
latest = refl

one_failed :
    map
      (λ (s : PhaseStatus). s.failed_count)
      (get_consistency_status (codes "p1") (old ∷ broken ∷ []))
    ≡ 0 ∷ 0 ∷ 0 ∷ 1 ∷ []
unfolding get_consistency_status list_unresolved
one_failed = refl

get_consistency_review-current_example :
    (map
        (λ (c : ReviewCard). c.evaluation_id)
        (get_consistency_review whole_texts
          (λ t. t)
          9
          (λ t. false)
          one_implementation
          (codes "p1")
          implementacion
          (old ∷ broken ∷ [])).0
      ≡ map
          (λ (r : ConsistencyEvaluation). r.id)
          (keep
            (λ r.
              not (is_completed r.status) || is_current whole_texts (λ t. t) r one_implementation)
            (list_unresolved (codes "p1") implementacion (old ∷ broken ∷ []))))
    × (any
          (λ (r : ConsistencyEvaluation).
            (text_eq r.project_id (codes "p1")
              && (phase_eq r.target_phase implementacion && is_unresolved r.status))
            && (is_completed r.status
                && not (is_current whole_texts (λ t. t) r one_implementation)))
          (get_consistency_review whole_texts
            (λ t. t)
            9
            (λ t. false)
            one_implementation
            (codes "p1")
            implementacion
            (old ∷ broken ∷ [])).1
        ≡ false)
get_consistency_review-current_example =
    get_consistency_review-current whole_texts (λ t. t) 9 (λ t. false) one_implementation
      (λ t. refl) (codes "p1") implementacion (old ∷ broken ∷ [])
      ((unfold same_key in refl, tt), (tt, tt))
