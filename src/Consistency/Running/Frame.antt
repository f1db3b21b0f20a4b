-- ===== src/Consistency/Running/Frame.antt =====
-- What a run of the evaluations leaves alone, and what it never raises.
use kosmo.Base.{
  ℕ, Bool, true, false, not, ◌&&◌, Option, none, some, List, [], ◌∷◌, Result, ok, err, ◌≡◌, refl,
  ap, arith, All, All-imp, All-keep, keep, inl, inr, Bool-cases, map, if◌then◌else◌,
}
use kosmo.Base.Text.{Text, text_eq}
use kosmo.Trace.{SpecPhase, phase_eq, trace_downstream_phases}
use kosmo.Consistency.Artifacts.{Artifacts}
use kosmo.Consistency.Handlers.{Editing}
use kosmo.Consistency.Evaluations.{
  ConsistencyEvaluation, discarded, same_key, save, list_unresolved,
}
use kosmo.Consistency.Evaluations.Keyed.{same_key-eq, resolved_as, text_eq_refl, phase_eq_refl}
use kosmo.Consistency.Output.{ConsistencyEvaluationOutput, ImpactItem}
use kosmo.Consistency.Running.{
  Collaborators, has_target_artifacts, row_key, is_superseded, supersede_rows, supersede_pair,
  is_failed, reason_of, failed_pair, suggested, save_items, store_items, store_result,
  evaluate_target, evaluate_targets, continued, run_consistency_evaluation,
}
use kosmo.Consistency.Running.Superseded.{superseding}

-- The rows of the evaluations of a phase in a project.
abbrev pub is_of : Text → SpecPhase → ConsistencyEvaluation → Bool
is_of project_id source_phase r =
    text_eq r.project_id project_id && phase_eq r.source_phase source_phase

module _ (now : ℕ) (project_id : Text) (source_phase : SpecPhase) where
  abbrev pub others : List ConsistencyEvaluation → List ConsistencyEvaluation
  others rows = keep (λ r. not (is_of project_id source_phase r)) rows

  is_of-eq :
      (r e : ConsistencyEvaluation)
      → same_key r e ≡ true
      → is_of project_id source_phase r ≡ is_of project_id source_phase e
  is_of-eq r e h = let (a, b, c, d) = same_key-eq r e h in rw (a, b) refl

  pub save-others :
      (e : ConsistencyEvaluation) (rows : List ConsistencyEvaluation)
      → is_of project_id source_phase e ≡ true
      → others (save now e rows) ≡ others rows
  unfolding save
  save-others e [] h = rw h refl
  save-others e (r ∷ rs) h = elim (Bool-cases (same_key r e)) [
    | inl k ↦ rw (k, h, is_of-eq r e k) (rw h refl)
    | inr k ↦
        rw k (
          ap (λ t. if not (is_of project_id source_phase r) then r ∷ t else t) (save-others e rs h))
  ]

  -- What every save of a row of the evaluations of the phase keeps, a run keeps.
  module _ (I : List ConsistencyEvaluation → Type 0)
      (saved : (e : ConsistencyEvaluation) (rows : List ConsistencyEvaluation)
        → is_of project_id source_phase e ≡ true
        → I rows
        → I (save now e rows)) where
    supersede_rows-kept :
        (target_phase : SpecPhase) (kept : List Text) (todo rows : List ConsistencyEvaluation)
        → All (λ r. text_eq r.project_id project_id ≡ true) todo
        → I rows
        → I (supersede_rows now project_id source_phase target_phase kept todo rows)
    unfolding supersede_rows
    supersede_rows-kept target_phase kept [] rows h i = i
    supersede_rows-kept target_phase kept (row ∷ todo) rows (here, h) i =
        elim (Bool-cases (is_superseded now project_id source_phase target_phase kept row)) [
          | inl e ↦ rw e (
              supersede_rows-kept target_phase kept todo _ h (
                saved (resolved_as now discarded superseding row) rows
                  (unfold resolved_as in ground (arith, here, e)) i))
          | inr e ↦ rw e (supersede_rows-kept target_phase kept todo rows h i)
        ]

    pub supersede_pair-kept :
        (target_phase : SpecPhase) (kept : List Text) (rows : List ConsistencyEvaluation)
        → I rows
        → I (supersede_pair now project_id source_phase target_phase kept rows)
    unfolding supersede_pair list_unresolved
    supersede_pair-kept target_phase kept rows i =
        supersede_rows-kept target_phase kept _ rows
          (All-imp _ _ _ (λ r h. ground (arith, h)) (All-keep _ rows)) i

    module _ (edit : Editing) (sha256_hex : Text → Text) where
      open edit use {Document}

      module _ (with_ : Collaborators Document) (w : Artifacts Document) where
        suggested-is_of :
            (t : SpecPhase) (item : ImpactItem)
            → is_of project_id source_phase
                (suggested edit sha256_hex now with_ w project_id source_phase t item)
              ≡ true
        unfolding suggested
        suggested-is_of t item = rw (text_eq_refl project_id, phase_eq_refl source_phase) refl

        failed_pair-is_of :
            (t : SpecPhase) (reason : Text)
            → is_of project_id source_phase
                (failed_pair edit sha256_hex now with_ w project_id source_phase t reason)
              ≡ true
        unfolding failed_pair
        failed_pair-is_of t reason = rw (text_eq_refl project_id, phase_eq_refl source_phase) refl

        save_items-kept :
            (t : SpecPhase) (items : List ImpactItem) (rows : List ConsistencyEvaluation)
            → I rows
            → I (save_items edit sha256_hex now with_ w project_id source_phase t items rows)
        unfolding save_items
        save_items-kept t [] rows i = i
        save_items-kept t (item ∷ items) rows i =
            elim (Bool-cases (with_.snapshot_raises t (row_key item))) [
              | inl e ↦ rw e (save_items-kept t items rows i)
              | inr e ↦ rw e (save_items-kept t items _ (saved _ rows (suggested-is_of t item) i))
            ]

        store_items-kept :
            (t : SpecPhase) (r : Result Text (List ImpactItem)) (rows : List ConsistencyEvaluation)
            → I rows
            → I (store_items edit sha256_hex now with_ w project_id source_phase t r rows).1
        unfolding store_items
        store_items-kept t (err e) rows i = i
        store_items-kept t (ok items) rows i =
            supersede_pair-kept t (map row_key items) _ (save_items-kept t items rows i)

        I-if :
            (b : Bool) (x y : Option Text × List ConsistencyEvaluation)
            → I x.1
            → I y.1
            → I (if b then x else y).1
        I-if true x y hx hy = hx
        I-if false x y hx hy = hy

        store_result-kept :
            (t : SpecPhase) (r : Result Text ConsistencyEvaluationOutput)
            (rows : List ConsistencyEvaluation)
            → I rows
            → I (store_result edit sha256_hex now with_ w project_id source_phase t r rows).1
        unfolding store_result
        store_result-kept t (err e) rows i = saved _ rows (failed_pair-is_of t e) i
        store_result-kept t (ok out) rows i =
            I-if (is_failed out.status) _ _
              (saved _ rows (failed_pair-is_of t (reason_of out.failure_reason)) i)
              (store_items-kept t (with_.enrich_impact_items out t source_phase w) rows i)

        evaluate_target-kept :
            (t : SpecPhase) (rows : List ConsistencyEvaluation)
            → I rows
            → I (evaluate_target edit sha256_hex now with_ w project_id source_phase t rows).1
        unfolding evaluate_target
        evaluate_target-kept t rows i =
            I-if (has_target_artifacts t (with_.list_by_project project_id) w) _ _
              (store_result-kept t (with_.evaluate source_phase t project_id) rows i)
              (supersede_pair-kept t [] rows i)

        continued-kept :
            (o : Option Text × List ConsistencyEvaluation)
            (rest : List ConsistencyEvaluation → Option Text × List ConsistencyEvaluation)
            → I o.1
            → ((rows : List ConsistencyEvaluation) → I rows → I (rest rows).1)
            → I (continued o rest).1
        continued-kept (some e, rows) rest i h = i
        continued-kept (none, rows) rest i h = h rows i

        evaluate_targets-kept :
            (ts : List SpecPhase) (rows : List ConsistencyEvaluation)
            → I rows
            → I (evaluate_targets edit sha256_hex now with_ w project_id source_phase ts rows).1
        unfolding evaluate_targets
        evaluate_targets-kept [] rows i = i
        evaluate_targets-kept (t ∷ ts) rows i =
            continued-kept _ _ (evaluate_target-kept t rows i)
              (λ rows' i'. evaluate_targets-kept ts rows' i')

        pub run_consistency_evaluation-kept :
            (rows : List ConsistencyEvaluation)
            → I rows
            → I
                (run_consistency_evaluation edit sha256_hex now with_ w project_id source_phase
                  rows).1
        unfolding run_consistency_evaluation
        run_consistency_evaluation-kept rows i =
            I-if (w.projects project_id) _ _
              (evaluate_targets-kept (trace_downstream_phases source_phase) rows i) i
