-- ===== src/Consistency/Resolve/Outcomes.antt =====
-- What one call of `ApplyConsistencyEvaluationUseCase.execute` may do.
use kosmo.Base.{
  ℕ, Bool, true, false, not, Option, none, some, List, [], ◌∷◌, Result, ok, err, if◌then◌else◌, ◌≡◌,
  refl, ◌⊎◌, inl, inr, ap, ◌∙◌, sym, subst,
}
use kosmo.Base.Text.{Text}
use kosmo.Consistency.Artifacts.{Artifacts}
use kosmo.Consistency.Handlers.{Editing, Outcome}
use kosmo.Consistency.Handlers.Atomicity.{IsAtomic}
use kosmo.Consistency.Impacts.{
  Impact, FailedImpact, ApplyOutput, recorded, process_impact, process_impacts, apply_impacts,
}
use kosmo.Consistency.Impacts.Accounting.{process_impact-IsAtomic}
use kosmo.Consistency.Evaluations.{
  ConsistencyEvaluation, ConsistencyEvaluationStatus, applied, is_completed, by_id,
}
use kosmo.Consistency.Evaluations.Keyed.{IsKeyed, save-IsKeyed, resolved_as, by_id-save}
use kosmo.Consistency.Snapshot.{is_current}
use kosmo.Consistency.Resolve.{
  ConsistencyError, repository_error, Trouble, Board, impact_for_apply, marked, after_save,
  applied_row, reported_row, apply_row, foreign, apply_found, apply_evaluation,
}

module _ (edit : Editing) (sha256_hex : Text → Text) (now : ℕ) where
  open edit use {Document}

  abbrev Answer : Type 0
  Answer = Result ConsistencyError Text × Board Document

  -- The call succeeded, or the artifacts are as they were, or the save of the row raised.
  abbrev pub LeavesArtifacts : Bool → Artifacts Document → Answer → Type 0
  LeavesArtifacts raises w o =
      ((t : Text) × (o.0 ≡ ok t))
      ⊎ ((o.1.artifacts ≡ w) ⊎ ((raises ≡ true) × (o.0 ≡ err repository_error)))

  abbrev IsApplied : Option Text → ConsistencyEvaluation → Board Document → Board Document → Type 0
  IsApplied raised row s s' =
      (is_completed row.status ≡ true)
      × (is_current edit sha256_hex row s.artifacts ≡ true)
      × ((out : ApplyOutput) × ((apply_impacts edit now s.artifacts row.project_id
              ((impact_for_apply row, raised) ∷ [])).0
            ≡ some out)
          × (out.failed ≡ [])
          × (s'
              ≡ marked edit sha256_hex now applied row.failure_reason row (record s {
                artifacts =
                    (apply_impacts edit now s.artifacts row.project_id
                      ((impact_for_apply row, raised) ∷ [])).1;
              })))

  -- A guard that a successful call has passed.
  gate :
      (b : Bool) (e : ConsistencyError) (refused s' : Board Document) (t : Text) (o : Answer)
      → (if not b then (err e, refused) else o) ≡ (ok t, s')
      → (b ≡ true) × (o ≡ (ok t, s'))
  gate true e refused s' t o h = (refl, h)
  gate false e refused s' t o h = cc

  refusal :
      (b : Bool) (e : ConsistencyError) (refused s' : Board Document) (t : Text) (o : Answer)
      → (if b then (err e, refused) else o) ≡ (ok t, s')
      → o ≡ (ok t, s')
  refusal true e refused s' t o h = cc
  refusal false e refused s' t o h = h

  if-LeavesArtifacts :
      (raises : Bool) (w : Artifacts Document) (b : Bool) (o o' : Answer)
      → LeavesArtifacts raises w o
      → LeavesArtifacts raises w o'
      → LeavesArtifacts raises w (if b then o else o')
  if-LeavesArtifacts raises w true o o' h h' = h
  if-LeavesArtifacts raises w false o o' h h' = h'

  -- A save that succeeds stores the row and passes the answer on.
  after_save_sound :
      (raises : Bool) (answer : Result ConsistencyError Text) (status : ConsistencyEvaluationStatus)
      (reason : Option Text) (row : ConsistencyEvaluation) (s s' : Board Document) (t : Text)
      → after_save edit sha256_hex now raises answer status reason row s ≡ (ok t, s')
      → (answer ≡ ok t) × (s' ≡ marked edit sha256_hex now status reason row s)
  unfolding after_save
  after_save_sound true answer status reason row s s' t h = cc
  after_save_sound false answer status reason row s s' t h =
      (ap (λ (o : Answer). o.0) h, sym (ap (λ (o : Answer). o.1) h))

  -- A save leaves the artifacts.
  after_save-artifacts :
      (raises : Bool) (answer : Result ConsistencyError Text) (status : ConsistencyEvaluationStatus)
      (reason : Option Text) (row : ConsistencyEvaluation) (s : Board Document)
      → (after_save edit sha256_hex now raises answer status reason row s).1.artifacts ≡ s.artifacts
  unfolding after_save marked
  after_save-artifacts true answer status reason row s = refl
  after_save-artifacts false answer status reason row s = refl

  after_save-LeavesArtifacts :
      (raises : Bool) (w : Artifacts Document) (t : Text) (status : ConsistencyEvaluationStatus)
      (reason : Option Text) (row : ConsistencyEvaluation) (s : Board Document)
      → LeavesArtifacts raises w (after_save edit sha256_hex now raises (ok t) status reason row s)
  unfolding after_save
  after_save-LeavesArtifacts true w t status reason row s = inr (inr (refl, refl))
  after_save-LeavesArtifacts false w t status reason row s = inl (t, refl)

  module _ (id : Text) (row : ConsistencyEvaluation) (s : Board Document) where
    -- What the use case gives for one impact whose processing gives `o`.
    abbrev single : Impact → Outcome edit now → Bool → Option ApplyOutput × Artifacts Document
    single impact o exists =
        if exists
        then (some (recorded edit now impact o.1 (record { applied = []; failed = [] })), o.0)
        else (none, s.artifacts)

    one_impact-LeavesArtifacts :
        (trouble : Trouble) (impact : Impact) (o : Outcome edit now) (exists : Bool)
        → IsAtomic edit now s.artifacts o
        → LeavesArtifacts trouble.save_raises s.artifacts (
            reported_row edit sha256_hex now trouble id row
              (record s { artifacts = (single impact o exists).1 })
              (single impact o exists).0)
    unfolding reported_row applied_row recorded
    one_impact-LeavesArtifacts trouble impact o false atomic = inr (inl refl)
    one_impact-LeavesArtifacts trouble impact (w, none) true atomic =
        after_save-LeavesArtifacts trouble.save_raises s.artifacts row.target_artifact_id applied
          row.failure_reason row (record s { artifacts = w })
    one_impact-LeavesArtifacts trouble impact (w, some r) true (inl absurd) = cc
    one_impact-LeavesArtifacts trouble impact (w, some r) true (inr same) =
        inr (inl (after_save-artifacts trouble.save_raises _ _ _ row _ ∙ same))

    apply_row-LeavesArtifacts :
        (trouble : Trouble)
        → LeavesArtifacts trouble.save_raises s.artifacts
            (apply_row edit sha256_hex now trouble id row s)
    unfolding apply_row apply_impacts process_impacts
    apply_row-LeavesArtifacts trouble =
        let raises = trouble.save_raises in
        if-LeavesArtifacts raises s.artifacts (not (is_completed row.status)) _ _ (inr (inl refl)) (
          if-LeavesArtifacts raises s.artifacts (not (is_current edit sha256_hex row s.artifacts)) _
            _ (inr (inl (after_save-artifacts raises _ _ _ row s)))
            (one_impact-LeavesArtifacts trouble (impact_for_apply row)
              (process_impact edit now s.artifacts row.project_id trouble.raised
                (impact_for_apply row))
              (s.artifacts.projects row.project_id)
              (process_impact-IsAtomic edit now s.artifacts row.project_id trouble.raised
                (impact_for_apply row))))

    applied_row_sound :
        (trouble : Trouble) (s s' : Board Document) (t : Text) (fs : List FailedImpact)
        → applied_row edit sha256_hex now trouble id row s fs ≡ (ok t, s')
        → (fs ≡ []) × (s' ≡ marked edit sha256_hex now applied row.failure_reason row s)
    unfolding applied_row
    applied_row_sound trouble s s' t [] h =
        (refl, (after_save_sound trouble.save_raises _ _ _ row s s' t h).1)
    applied_row_sound trouble s s' t (f ∷ fs) h =
        let (absurd, _) = after_save_sound trouble.save_raises _ _ _ row s s' t h in cc

    reported_row_sound :
        (trouble : Trouble) (s s' : Board Document) (t : Text) (o : Option ApplyOutput)
        → reported_row edit sha256_hex now trouble id row s o ≡ (ok t, s')
        → (out : ApplyOutput) × (o ≡ some out)
          × (out.failed ≡ [])
          × (s' ≡ marked edit sha256_hex now applied row.failure_reason row s)
    unfolding reported_row
    reported_row_sound trouble s s' t none h = cc
    reported_row_sound trouble s s' t (some out) h =
        let (clean, same) = applied_row_sound trouble s s' t out.failed h in
        (out, refl, clean, same)

    -- A guard that answers with the save of a row.
    saved_gate :
        (b raises : Bool) (e : ConsistencyError) (status : ConsistencyEvaluationStatus)
        (reason : Option Text) (s' : Board Document) (t : Text) (o : Answer)
        → (if not b then after_save edit sha256_hex now raises (err e) status reason row s else o)
          ≡ (ok t, s')
        → (b ≡ true) × (o ≡ (ok t, s'))
    saved_gate true raises e status reason s' t o h = (refl, h)
    saved_gate false raises e status reason s' t o h =
        let (absurd, _) = after_save_sound raises (err e) status reason row s s' t h in cc

    apply_row_sound :
        (trouble : Trouble) (t : Text) (s' : Board Document)
        → apply_row edit sha256_hex now trouble id row s ≡ (ok t, s')
        → IsApplied trouble.raised row s s'
    unfolding apply_row
    apply_row_sound trouble t s' h =
        let impacts = (impact_for_apply row, trouble.raised) ∷ [] in
        let result = apply_impacts edit now s.artifacts row.project_id impacts in
        let (complete, h1) = gate (is_completed row.status) _ s s' t _ h in
        let (current, h2) =
          saved_gate (is_current edit sha256_hex row s.artifacts) _ _ _ _ s' t _ h1 in
        (
          complete,
          current,
          reported_row_sound trouble (record s { artifacts = result.1 }) s' t result.0 h2,
        )

  found_row-LeavesArtifacts :
      (trouble : Trouble) (id : Text) (project_id : Option Text) (s : Board Document)
      (o : Option ConsistencyEvaluation)
      → LeavesArtifacts trouble.save_raises s.artifacts
          (apply_found edit sha256_hex now trouble id project_id s o)
  unfolding apply_found
  found_row-LeavesArtifacts trouble id project_id s none = inr (inl refl)
  found_row-LeavesArtifacts trouble id project_id s (some row) =
      if-LeavesArtifacts trouble.save_raises s.artifacts
        (foreign edit sha256_hex now project_id row) _ _ (inr (inl refl))
        (apply_row-LeavesArtifacts id row s trouble)

  found_row_sound :
      (trouble : Trouble) (id : Text) (project_id : Option Text) (s s' : Board Document) (t : Text)
      (o : Option ConsistencyEvaluation)
      → apply_found edit sha256_hex now trouble id project_id s o ≡ (ok t, s')
      → (row : ConsistencyEvaluation) × (o ≡ some row) × IsApplied trouble.raised row s s'
  unfolding apply_found
  found_row_sound trouble id project_id s s' t none h = cc
  found_row_sound trouble id project_id s s' t (some row) h = (
    row,
    refl,
    apply_row_sound id row s trouble t s'
        (refusal (foreign edit sha256_hex now project_id row) _ s s' t _ h),
  )

  module _ (trouble : Trouble) (id : Text) (project_id : Option Text) (s : Board Document) where
    -- A call succeeds, or changes none of the artifacts, or ends with the exception of a save of the
    -- row that raised. So where no save raises, every call that fails leaves the artifacts: for an
    -- unknown id, another project, a suggestion that is not pending or no longer fresh, a handler's
    -- refusal or an exception inside the impact.
    pub apply_evaluation-LeavesArtifacts :
        LeavesArtifacts trouble.save_raises s.artifacts
          (apply_evaluation edit sha256_hex now trouble id project_id s)
    unfolding apply_evaluation
    apply_evaluation-LeavesArtifacts =
        found_row-LeavesArtifacts trouble id project_id s (by_id id s.rows)

    apply_evaluation_sound :
        (t : Text) (s' : Board Document)
        → apply_evaluation edit sha256_hex now trouble id project_id s ≡ (ok t, s')
        → (row : ConsistencyEvaluation) × (by_id id s.rows ≡ some row)
          × IsApplied trouble.raised row s s'
    unfolding apply_evaluation
    apply_evaluation_sound t s' h = found_row_sound trouble id project_id s s' t (by_id id s.rows) h

    -- The table after a call that succeeds has its key, and the row of the id as an applied one.
    pub apply_evaluation-by_id :
        (t : Text) (s' : Board Document)
        → IsKeyed s.rows
        → apply_evaluation edit sha256_hex now trouble id project_id s ≡ (ok t, s')
        → (row : ConsistencyEvaluation) × (is_completed row.status ≡ false)
          × IsKeyed s'.rows
          × (by_id id s'.rows ≡ some row)
    unfolding marked
    apply_evaluation-by_id t s' keyed h =
        let (row, found, (complete, current, (out, result, clean, same))) =
          apply_evaluation_sound t s' h in
        (
          resolved_as now applied row.failure_reason row,
          unfold resolved_as in refl,
          subst (λ (b : Board Document). IsKeyed b.rows) (sym same)
              (save-IsKeyed now (resolved_as now applied row.failure_reason row) s.rows keyed),
          ap (λ (b : Board Document). by_id id b.rows) same
              ∙ by_id-save now applied row.failure_reason id row s.rows keyed found,
        )
