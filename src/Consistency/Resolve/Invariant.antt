-- ===== src/Consistency/Resolve/Invariant.antt =====
-- The unique key of the table of evaluations, under every use case that resolves them.
use kosmo.Base.{ℕ, Bool, true, false, not, Option, none, some, List, [], ◌∷◌, Result, if◌then◌else◌}
use kosmo.Base.Text.{Text, text_eq, codes}
use kosmo.Trace.{SpecPhase}
use kosmo.Consistency.Handlers.{Editing}
use kosmo.Consistency.Impacts.{FailedImpact, ApplyOutput}
use kosmo.Consistency.Evaluations.{
  ConsistencyEvaluation, ConsistencyEvaluationStatus, is_completed, by_id,
}
use kosmo.Consistency.Evaluations.Keyed.{IsKeyed, save-IsKeyed, resolved_as}
use kosmo.Consistency.Snapshot.{is_current}
use kosmo.Consistency.Resolve.{
  Trouble, Tally, after_save, is_repository_error, ConsistencyError, Board, marked, applied_row,
  reported_row, apply_row, foreign, apply_found, apply_evaluation, discard_found,
  discard_evaluation, resolve_row, resolve_rows, bulk_resolve,
}

module _ (edit : Editing) (sha256_hex : Text → Text) (now : ℕ) where
  open edit use {Document}

  if-IsKeyed :
      (b : Bool) (o o' : Result ConsistencyError Text × Board Document)
      → IsKeyed o.1.rows
      → IsKeyed o'.1.rows
      → IsKeyed (if b then o else o').1.rows
  if-IsKeyed true o o' h h' = h
  if-IsKeyed false o o' h h' = h'

  stopped-IsKeyed :
      (b : Bool) (t t' : Tally) (s s' : Board Document)
      → IsKeyed s.rows
      → IsKeyed s'.rows
      → IsKeyed (let o : Tally × Board Document = if b then (t, s) else (t', s') in o.1.rows)
  stopped-IsKeyed true t t' s s' h h' = h
  stopped-IsKeyed false t t' s s' h h' = h'

  module _ (row : ConsistencyEvaluation) where
    marked-IsKeyed :
        (status : ConsistencyEvaluationStatus) (reason : Option Text) (s : Board Document)
        → IsKeyed s.rows
        → IsKeyed (marked edit sha256_hex now status reason row s).rows
    unfolding marked
    marked-IsKeyed status reason s h = save-IsKeyed now (resolved_as now status reason row) s.rows h

    after_save-IsKeyed :
        (raises : Bool) (answer : Result ConsistencyError Text)
        (status : ConsistencyEvaluationStatus) (reason : Option Text) (s : Board Document)
        → IsKeyed s.rows
        → IsKeyed (after_save edit sha256_hex now raises answer status reason row s).1.rows
    unfolding after_save
    after_save-IsKeyed true answer status reason s h = h
    after_save-IsKeyed false answer status reason s h = marked-IsKeyed status reason s h

    applied_row-IsKeyed :
        (trouble : Trouble) (id : Text) (s : Board Document) (fs : List FailedImpact)
        → IsKeyed s.rows
        → IsKeyed (applied_row edit sha256_hex now trouble id row s fs).1.rows
    unfolding applied_row
    applied_row-IsKeyed trouble id s [] h = after_save-IsKeyed trouble.save_raises _ _ _ s h
    applied_row-IsKeyed trouble id s (f ∷ fs) h = after_save-IsKeyed trouble.save_raises _ _ _ s h

    reported_row-IsKeyed :
        (trouble : Trouble) (id : Text) (s : Board Document) (o : Option ApplyOutput)
        → IsKeyed s.rows
        → IsKeyed (reported_row edit sha256_hex now trouble id row s o).1.rows
    unfolding reported_row
    reported_row-IsKeyed trouble id s none h = h
    reported_row-IsKeyed trouble id s (some out) h = applied_row-IsKeyed trouble id s out.failed h

    apply_row-IsKeyed :
        (trouble : Trouble) (id : Text) (s : Board Document)
        → IsKeyed s.rows
        → IsKeyed (apply_row edit sha256_hex now trouble id row s).1.rows
    unfolding apply_row
    apply_row-IsKeyed trouble id s h = if-IsKeyed (not (is_completed row.status)) _ _ h (
        if-IsKeyed (not (is_current edit sha256_hex row s.artifacts)) _ _
          (after_save-IsKeyed trouble.save_raises _ _ _ s h)
          (reported_row-IsKeyed trouble id _ _ h))

  apply_found-IsKeyed :
      (trouble : Trouble) (id : Text) (project_id : Option Text) (s : Board Document)
      (o : Option ConsistencyEvaluation)
      → IsKeyed s.rows
      → IsKeyed (apply_found edit sha256_hex now trouble id project_id s o).1.rows
  unfolding apply_found
  apply_found-IsKeyed trouble id project_id s none h = h
  apply_found-IsKeyed trouble id project_id s (some row) h =
      if-IsKeyed (foreign edit sha256_hex now project_id row) _ _ h
        (apply_row-IsKeyed row trouble id s h)

  discard_found-IsKeyed :
      (id : Text) (project_id : Option Text) (s : Board Document) (o : Option ConsistencyEvaluation)
      → IsKeyed s.rows
      → IsKeyed (discard_found edit sha256_hex now id project_id s o).1.rows
  unfolding discard_found
  discard_found-IsKeyed id project_id s none h = h
  discard_found-IsKeyed id project_id s (some row) h =
      if-IsKeyed (foreign edit sha256_hex now project_id row) _ _ h
        (if-IsKeyed (not (is_completed row.status)) _ _ h (marked-IsKeyed row _ _ s h))

  module _ (trouble : Text → Trouble) (project_id action : Text) where
    resolve_row-IsKeyed :
        (row : ConsistencyEvaluation) (s : Board Document)
        → IsKeyed s.rows
        → IsKeyed (resolve_row edit sha256_hex now trouble project_id action row s).1.rows
    unfolding resolve_row apply_evaluation discard_evaluation
    resolve_row-IsKeyed row s h =
        if-IsKeyed (text_eq action (codes "apply")) _ _
          (apply_found-IsKeyed (trouble row.id) row.id (some project_id) s (by_id row.id s.rows) h)
          (discard_found-IsKeyed row.id (some project_id) s (by_id row.id s.rows) h)

    resolve_rows-IsKeyed :
        (rows : List ConsistencyEvaluation) (s : Board Document)
        → IsKeyed s.rows
        → IsKeyed (resolve_rows edit sha256_hex now trouble project_id action rows s).1.rows
    unfolding resolve_rows
    resolve_rows-IsKeyed [] s h = h
    resolve_rows-IsKeyed (row ∷ rows) s h =
        let r = resolve_row edit sha256_hex now trouble project_id action row s in
        stopped-IsKeyed (is_repository_error r.0) _ _ _ _ (resolve_row-IsKeyed row s h)
          (resolve_rows-IsKeyed rows r.1 (resolve_row-IsKeyed row s h))

    -- Applying or discarding all the pending suggestions keeps the unique key of the table, whichever
    -- of them are applied, fail, are stale or are refused.
    pub bulk_resolve-IsKeyed :
        (target_phase : SpecPhase) (s : Board Document)
        → IsKeyed s.rows
        → IsKeyed (bulk_resolve edit sha256_hex now trouble project_id target_phase action s).1.rows
    unfolding bulk_resolve
    bulk_resolve-IsKeyed target_phase s h = resolve_rows-IsKeyed _ s h
