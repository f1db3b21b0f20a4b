-- ===== src/Consistency/Running/Pending.antt =====
-- What a whole run of the evaluations leaves pending.
use kosmo.Base.{
  ℕ, Bool, true, false, not, ◌&&◌, Option, none, some, List, [], ◌∷◌, ok, ◌≡◌, refl, arith, All,
  All-imp, All-any, any, inl, inr, ◌⊎◌, either, if◌then◌else◌,
}
use kosmo.Base.Text.{Text, text_eq}
use kosmo.Trace.{SpecPhase, phase_eq, trace_downstream_phases}
use kosmo.Consistency.Artifacts.{Artifacts}
use kosmo.Consistency.Handlers.{Editing}
use kosmo.Consistency.Snapshot.{is_current}
use kosmo.Consistency.Evaluations.{ConsistencyEvaluation, is_completed}
use kosmo.Consistency.Evaluations.Keyed.{IsKeyed}
use kosmo.Consistency.Output.{ConsistencyEvaluationOutput, ImpactItem}
use kosmo.Consistency.Running.{
  Collaborators, has_target_artifacts, is_failed, store_result, evaluate_target, evaluate_targets,
  continued, run_consistency_evaluation,
}
use kosmo.Consistency.Running.Superseded.{supersede_pair-IsKeyed}
use kosmo.Consistency.Running.Fresh.{
  IsFree, IsFreshTarget, in_source, supersede_none-All, store_items-All,
}

continued-next :
    (P : Option Text × List ConsistencyEvaluation → Type 0)
    (o : Option Text × List ConsistencyEvaluation)
    (rest : List ConsistencyEvaluation → Option Text × List ConsistencyEvaluation)
    → o.0 ≡ none
    → P (rest o.1)
    → P (continued o rest)
continued-next P (none, rows) rest e h = h
continued-next P (some t, rows) rest e h = cc

All-unit : (rows : List ConsistencyEvaluation) → All (λ r. Unit {0}) rows
All-unit [] = tt
All-unit (r ∷ rs) = (tt, All-unit rs)

no_stale :
    (a b c d : Bool)
    → (a ≡ true → b ≡ true → c ≡ true → d ≡ true)
    → (a && (b && (c && not d))) ≡ false
no_stale true true true d h = ground (arith, h refl refl refl)
no_stale true true false d h = refl
no_stale true false c d h = refl
no_stale false b c d h = refl

module _ (edit : Editing) (sha256_hex : Text → Text) (now : ℕ) where
  open edit use {Document}

  module _ (with_ : Collaborators Document) (w : Artifacts Document) (project_id : Text)
      (source_phase : SpecPhase) (answers : SpecPhase → ConsistencyEvaluationOutput)
      (items : SpecPhase → List ImpactItem)
      (evaluated : (t : SpecPhase) → with_.evaluate source_phase t project_id ≡ ok (answers t))
      (accepted : (t : SpecPhase) → is_failed (answers t).status ≡ false)
      (enriched : (t : SpecPhase)
        → with_.enrich_impact_items (answers t) t source_phase w ≡ ok (items t))
      (readable : (t : SpecPhase) (key : Text) → with_.snapshot_raises t key ≡ false) where
    current_of :
        (r : ConsistencyEvaluation)
        → (is_completed r.status ≡ false) ⊎ (is_current edit sha256_hex r w ≡ true)
        → is_completed r.status ≡ true
        → is_current edit sha256_hex r w ≡ true
    current_of r (inl e) done = cc
    current_of r (inr e) done = e

    abbrev IsGood :
        (ConsistencyEvaluation → Type 0)
        → SpecPhase
        → Option Text × List ConsistencyEvaluation
        → Type 0
    IsGood X t o =
        (o.0 ≡ none)
        × (IsKeyed o.1
            × All (λ r. X r × IsFreshTarget edit sha256_hex now with_ w project_id source_phase t r)
                o.1)

    IsGood-if :
        (X : ConsistencyEvaluation → Type 0) (t : SpecPhase) (b : Bool)
        (x y : Option Text × List ConsistencyEvaluation)
        → IsGood X t x
        → IsGood X t y
        → IsGood X t (if b then x else y)
    IsGood-if X t true x y hx hy = hx
    IsGood-if X t false x y hx hy = hy

    evaluate_target-IsGood :
        (t : SpecPhase) (X : ConsistencyEvaluation → Type 0)
        (free : IsFree edit sha256_hex now with_ w project_id source_phase X)
        (rows : List ConsistencyEvaluation)
        → IsKeyed rows
        → All X rows
        → IsGood X t (evaluate_target edit sha256_hex now with_ w project_id source_phase t rows)
    unfolding evaluate_target store_result
    evaluate_target-IsGood t X free rows keyed h =
        IsGood-if X t (has_target_artifacts t (with_.list_by_project project_id) w) _ _
          (rw (evaluated t) (
            rw (accepted t, enriched t)
              (store_items-All edit sha256_hex now with_ w project_id source_phase t (readable t)
                (items t) X free rows keyed h)))
          (
            refl,
            (
              supersede_pair-IsKeyed now project_id source_phase t [] rows keyed,
              supersede_none-All edit sha256_hex now with_ w project_id source_phase t (readable t)
                  X free rows keyed h,
            ),
          )

    -- A pending suggestion of the phase for one of the targets is current.
    abbrev IsFreshIn : List SpecPhase → ConsistencyEvaluation → Type 0
    IsFreshIn ts r =
        in_source edit sha256_hex now with_ w project_id source_phase r ≡ true
        → is_completed r.status ≡ true
        → any (phase_eq r.target_phase) ts ≡ true
        → is_current edit sha256_hex r w ≡ true

    evaluate_targets-All :
        (ts : List SpecPhase) (X : ConsistencyEvaluation → Type 0)
        (free : IsFree edit sha256_hex now with_ w project_id source_phase X)
        (rows : List ConsistencyEvaluation)
        → IsKeyed rows
        → All X rows
        → let o = evaluate_targets edit sha256_hex now with_ w project_id source_phase ts rows in
          (o.0 ≡ none) × (IsKeyed o.1 × All (λ r. X r × IsFreshIn ts r) o.1)
    unfolding evaluate_targets
    evaluate_targets-All [] X free rows keyed h =
        (refl, (keyed, All-imp X _ rows (λ r x. (x, λ here done no. cc)) h))
    evaluate_targets-All (t ∷ ts) X free rows keyed h =
        let (ends, (keyed', good)) = evaluate_target-IsGood t X free rows keyed h in
        let (none_raised, (keyed'', fresh)) =
          evaluate_targets-All ts
            (λ r. X r × IsFreshTarget edit sha256_hex now with_ w project_id source_phase t r)
            (λ r why. (free r why, λ here done target. current_of r why done)) _ keyed' good in
        continued-next
          (λ x. (x.0 ≡ none) × (IsKeyed x.1 × All (λ r. X r × IsFreshIn (t ∷ ts) r) x.1)) _ _ ends
          (
            none_raised,
            (
              keyed'',
              All-imp _ _ _
                  (λ r fresh. (
                    fresh.0.0,
                    λ here done target.
                        either (phase_eq r.target_phase t) _ target (fresh.0.1 here done)
                          (fresh.1 here done),
                  ))
                  fresh,
            ),
          )

    -- If the evaluator answers for each target without reporting a failure, its answer can be enriched
    -- and every snapshot can be read, a run raises nothing and leaves no pending suggestion of the
    -- phase, for any phase downstream of it, that is not current: a suggestion of an earlier run is
    -- renewed or discarded.
    pub run_consistency_evaluation-current :
        (rows : List ConsistencyEvaluation)
        → w.projects project_id ≡ true
        → IsKeyed rows
        → ((run_consistency_evaluation edit sha256_hex now with_ w project_id source_phase rows).0
            ≡ none)
          × (any
                (λ r.
                  (text_eq r.project_id project_id && phase_eq r.source_phase source_phase)
                  && (is_completed r.status
                      && (any (phase_eq r.target_phase) (trace_downstream_phases source_phase)
                          && not (is_current edit sha256_hex r w))))
                (run_consistency_evaluation edit sha256_hex now with_ w project_id source_phase
                  rows).1
              ≡ false)
    unfolding run_consistency_evaluation
    run_consistency_evaluation-current rows known keyed =
        let (ends, (keyed', fresh)) =
          evaluate_targets-All (trace_downstream_phases source_phase) (λ r. Unit {0}) (λ r why. tt)
            rows keyed (All-unit rows) in
        rw known (ends, All-any _ _ (All-imp _ _ _ (λ r x. no_stale _ _ _ _ x.1) fresh))
