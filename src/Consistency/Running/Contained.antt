-- ===== src/Consistency/Running/Contained.antt =====
-- What a run keeps of the other rows, and how a failed evaluation is recorded.
use kosmo.Base.{
  ℕ, Bool, true, false, not, ◌&&◌, Option, none, some, List, [], ◌∷◌, ok, err, ◌≡◌, refl, ap, ◌∙◌,
  arith, keep, any, inl, inr, ◌⊎◌, Bool-cases, or-true, if◌then◌else◌,
}
use kosmo.Base.Text.{Text, text_eq, codes, take}
use kosmo.Trace.{SpecPhase, phase_eq}
use kosmo.Consistency.Artifacts.{Artifacts}
use kosmo.Consistency.Handlers.{Editing}
use kosmo.Consistency.Evaluations.{
  ConsistencyEvaluation, ConsistencyEvaluationStatus, failed, same_key, save,
}
use kosmo.Consistency.Evaluations.Keyed.{
  IsKeyed, save-IsKeyed, same_key_refl, text_eq_refl, phase_eq_refl,
}
use kosmo.Consistency.Output.{ConsistencyEvaluationOutput}
use kosmo.Consistency.Running.{
  Collaborators, has_target_artifacts, is_failed, reason_of, failed_pair, store_result,
  evaluate_target, run_consistency_evaluation,
}
use kosmo.Consistency.Running.Frame.{is_of, others, save-others, run_consistency_evaluation-kept}

abbrev pub has_failed : ConsistencyEvaluationStatus → Bool
has_failed failed = true
has_failed _ = false

abbrev pub is_reason : Text → Option Text → Bool
is_reason t none = false
is_reason t (some s) = text_eq s t

module _ (g : ConsistencyEvaluation → Bool) (now : ℕ) (e : ConsistencyEvaluation) where
  -- The row that is saved is in the table.
  any-save :
      (rows : List ConsistencyEvaluation)
      → ((id : Text) → g (record e { id = id; updated_at = now }) ≡ true)
      → any g (save now e rows) ≡ true
  unfolding save
  any-save [] h = rw (h e.id) refl
  any-save (r ∷ rs) h = elim (Bool-cases (same_key r e)) [
    | inl k ↦ rw (k, h r.id) refl
    | inr k ↦ rw k (or-true (g r) _ (any-save rs h))
  ]

  -- The rows that a save cannot write stay.
  keep-save :
      (rows : List ConsistencyEvaluation)
      → ((r : ConsistencyEvaluation) → same_key r e ≡ true → g r ≡ false)
      → ((id : Text) → g (record e { id = id; updated_at = now }) ≡ false)
      → keep g (save now e rows) ≡ keep g rows
  unfolding save
  keep-save [] old new = rw (new e.id) refl
  keep-save (r ∷ rs) old new = elim (Bool-cases (same_key r e)) [
    | inl k ↦ rw (k, new r.id, old r k) refl
    | inr k ↦ rw k (ap (λ t. if g r then r ∷ t else t) (keep-save rs old new))
  ]

module _ (edit : Editing) (sha256_hex : Text → Text) (now : ℕ) where
  open edit use {Document}

  module _ (with_ : Collaborators Document) (w : Artifacts Document) (project_id : Text)
      (source_phase : SpecPhase) where
    -- A run keeps the key of the table and every row of another project or of the evaluations of
    -- another phase, whatever the evaluator answers and whatever fails.
    pub run_consistency_evaluation-IsKeyed :
        (rows : List ConsistencyEvaluation)
        → IsKeyed rows
        → IsKeyed
            (run_consistency_evaluation edit sha256_hex now with_ w project_id source_phase rows).1
          × (keep
                (λ r. not (text_eq r.project_id project_id && phase_eq r.source_phase source_phase))
                (run_consistency_evaluation edit sha256_hex now with_ w project_id source_phase
                  rows).1
              ≡ keep
                  (λ r.
                    not (text_eq r.project_id project_id && phase_eq r.source_phase source_phase))
                  rows)
    run_consistency_evaluation-IsKeyed rows keyed = (
      run_consistency_evaluation-kept now project_id source_phase IsKeyed
          (λ e rs here k. save-IsKeyed now e rs k) edit sha256_hex with_ w rows keyed,
      run_consistency_evaluation-kept now project_id source_phase
          (λ rs. others now project_id source_phase rs ≡ others now project_id source_phase rows)
          (λ e rs here k. save-others now project_id source_phase e rs here ∙ k) edit sha256_hex
          with_ w rows refl,
    )

    module _ (target_phase : SpecPhase) where
      -- The row of the pair itself.
      abbrev pub is_pair_row : ConsistencyEvaluation → Bool
      is_pair_row r =
          is_of project_id source_phase r
          && (phase_eq r.target_phase target_phase && text_eq r.target_artifact_id (codes "_pair"))

      -- The pair failed for the reason, which is cut off after a thousand characters.
      abbrev pub failed_with : Text → ConsistencyEvaluation → Bool
      failed_with reason r =
          is_pair_row r && (has_failed r.status && is_reason (take 1000 reason) r.failure_reason)

      failed_pair-row :
          (r : ConsistencyEvaluation) (reason : Text)
          → same_key r
              (failed_pair edit sha256_hex now with_ w project_id source_phase target_phase reason)
            ≡ true
          → is_pair_row r ≡ true
      unfolding same_key failed_pair
      failed_pair-row r reason h = ground (arith, h)

      failed_pair-failed :
          (id reason : Text)
          → failed_with reason
              (record (failed_pair edit sha256_hex now with_ w project_id source_phase target_phase
                reason) { id = id; updated_at = now })
            ≡ true
      unfolding failed_pair
      failed_pair-failed id reason =
          rw
            (
              text_eq_refl project_id,
              phase_eq_refl source_phase,
              phase_eq_refl target_phase,
              text_eq_refl (take 1000 reason),
            )
            refl

      -- An evaluation fails if the evaluator raises, or reports a failure.
      abbrev pub Fails : Text → Type 0
      Fails reason =
          (with_.evaluate source_phase target_phase project_id ≡ err reason)
          ⊎ ((out : ConsistencyEvaluationOutput) × ((with_.evaluate source_phase target_phase
                    project_id
                  ≡ ok out)
                × ((is_failed out.status ≡ true) × (reason ≡ reason_of out.failure_reason))))

      evaluate_target-failed_pair :
          (reason : Text) (rows : List ConsistencyEvaluation)
          → has_target_artifacts target_phase (with_.list_by_project project_id) w ≡ true
          → Fails reason
          → evaluate_target edit sha256_hex now with_ w project_id source_phase target_phase rows
            ≡ (
              none,
              save now
                  (failed_pair edit sha256_hex now with_ w project_id source_phase target_phase
                    reason)
                  rows,
            )
      unfolding evaluate_target store_result
      evaluate_target-failed_pair reason rows has (inl e) = rw (has, e) refl
      evaluate_target-failed_pair reason rows has (inr (out, (e, (bad, why)))) =
          rw (has, e, bad, why) refl

      -- An evaluation that fails raises nothing and is recorded in the row of the pair, which is failed
      -- and has the first thousand characters of the reason; every other row, so every suggestion of an
      -- earlier run, stays as it is.
      pub evaluate_target-failed :
          (reason : Text) (rows : List ConsistencyEvaluation)
          → has_target_artifacts target_phase (with_.list_by_project project_id) w ≡ true
          → Fails reason
          → ((evaluate_target edit sha256_hex now with_ w project_id source_phase target_phase
                rows).0
              ≡ none)
            × ((any
                    (failed_with reason)
                    (evaluate_target edit sha256_hex now with_ w project_id source_phase
                      target_phase rows).1
                  ≡ true)
                × (keep
                      (λ r. not (is_pair_row r))
                      (evaluate_target edit sha256_hex now with_ w project_id source_phase
                        target_phase rows).1
                    ≡ keep (λ r. not (is_pair_row r)) rows))
      evaluate_target-failed reason rows has fails =
          let row =
            failed_pair edit sha256_hex now with_ w project_id source_phase target_phase reason in
          rw (evaluate_target-failed_pair reason rows has fails) (
            refl,
            (
              any-save (failed_with reason) now row rows (λ id. failed_pair-failed id reason),
              keep-save (λ r. not (is_pair_row r)) now row rows
                  (λ r k. rw (failed_pair-row r reason k) refl)
                  (λ id.
                    rw
                      (failed_pair-row (record row { id = id; updated_at = now }) reason
                        (unfold same_key in same_key_refl row))
                      refl),
            ),
          )
