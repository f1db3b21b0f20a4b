-- ===== src/Consistency/Resolve/Later.antt =====
-- A suggestion that was applied stays applied: manage_consistency.py, over sequences of calls.
use kosmo.Base.{ℕ, false, Option, some, List, ok, err, ◌≡◌, Bool-cases, inl, inr}
use kosmo.Base.Text.{Text, codes}
use kosmo.Consistency.Handlers.{Editing}
use kosmo.Consistency.Evaluations.{ConsistencyEvaluation, is_completed}
use kosmo.Consistency.Evaluations.Keyed.{IsKeyed}
use kosmo.Consistency.Resolve.{
  Trouble, ConsistencyError, evaluation_not_found, stale, Board, apply_row, foreign, apply_found,
  apply_evaluation, discard_found, discard_evaluation,
}
use kosmo.Consistency.Resolve.Outcomes.{apply_evaluation-by_id}
use kosmo.Consistency.Resolve.Kept.{Call, make_calls, make_calls-Keeps}

module _ (edit : Editing) (sha256_hex : Text → Text) where
  open edit use {Document}

  module _ (now : ℕ) (id : Text) (row : ConsistencyEvaluation) (s : Board Document) where
    refused_apply :
        (trouble : Trouble) (project_id : Option Text)
        → is_completed row.status ≡ false
        → (e : ConsistencyError) × (apply_found edit sha256_hex now trouble id project_id s
              (some row)
            ≡ (err e, s))
    unfolding apply_found apply_row
    refused_apply trouble project_id done =
        elim (Bool-cases (foreign edit sha256_hex now project_id row)) [
          | inl e ↦ (evaluation_not_found id, rw e)
          | inr e ↦
              (stale id (codes "La sugerencia ya fue procesada o el análisis falló."), rw (e, done))
        ]

    refused_discard :
        (project_id : Option Text)
        → is_completed row.status ≡ false
        → (e : ConsistencyError) × (discard_found edit sha256_hex now id project_id s (some row)
            ≡ (err e, s))
    unfolding discard_found
    refused_discard project_id done =
        elim (Bool-cases (foreign edit sha256_hex now project_id row)) [
          | inl e ↦ (evaluation_not_found id, rw e)
          | inr e ↦
              (stale id (codes "La sugerencia ya fue procesada o el análisis falló."), rw (e, done))
        ]

  -- A suggestion that was applied is neither applied nor discarded again by the use cases that
  -- resolve suggestions: over a table with its unique key, and after any sequence of calls that apply,
  -- discard or resolve in bulk, a call that applies or discards the same id is refused and changes
  -- nothing. An evaluation run, which may save the pair again as a new suggestion, is none of those
  -- calls.
  pub apply_evaluation-once :
      (now : ℕ) (trouble : Trouble) (id : Text) (project_id : Option Text) (s s' : Board Document)
      (t : Text)
      → IsKeyed s.rows
      → apply_evaluation edit sha256_hex now trouble id project_id s ≡ (ok t, s')
      → (between : List Call) (now' : ℕ) (trouble' : Trouble) (project_id' : Option Text)
      → let s'' = make_calls edit sha256_hex between s' in
        ((e : ConsistencyError) × (apply_evaluation edit sha256_hex now' trouble' id project_id' s''
            ≡ (err e, s'')))
        × ((e : ConsistencyError) × (discard_evaluation edit sha256_hex now' id project_id' s''
              ≡ (err e, s'')))
  apply_evaluation-once now trouble id project_id s s' t keyed h between now' trouble' project_id' =
      let (row, resolved, keyed', here) =
        apply_evaluation-by_id edit sha256_hex now trouble id project_id s t s' keyed h in
      let s'' = make_calls edit sha256_hex between s' in
      let (_, found) = make_calls-Keeps edit sha256_hex id row between s' resolved (keyed', here) in
      (unfold apply_evaluation discard_evaluation in
        rw found (
          refused_apply now' id row s'' trouble' project_id' resolved,
          refused_discard now' id row s'' project_id' resolved,
        ))
