-- ===== src/Consistency/Resolve/Kept.antt =====
-- What calls of the use cases of manage_consistency.py do to a suggestion that is not pending.
use kosmo.Base.{
  ℕ, Bool, true, false, Option, none, some, List, [], ◌∷◌, Result, if◌then◌else◌, ◌≡◌, refl,
  Bool-cases, inl, inr,
}
use kosmo.Base.Text.{Text, text_eq, codes}
use kosmo.Trace.{SpecPhase}
use kosmo.Consistency.Handlers.{Editing}
use kosmo.Consistency.Impacts.{FailedImpact, ApplyOutput}
use kosmo.Consistency.Evaluations.{
  ConsistencyEvaluation, ConsistencyEvaluationStatus, is_completed, by_id,
}
use kosmo.Consistency.Evaluations.Keyed.{IsKeyed, save-IsKeyed, resolved_as, by_id-save-other}
use kosmo.Consistency.Snapshot.{is_current}
use kosmo.Consistency.Resolve.{
  Trouble, Tally, after_save, is_repository_error, ConsistencyError, Board, marked, applied_row,
  reported_row, apply_row, foreign, apply_found, apply_evaluation, discard_found,
  discard_evaluation, resolve_row, resolve_rows, bulk_resolve,
}

-- A call of a use case that resolves suggestions, at its time.
pub data Call : Type 0 where
  apply_call : ℕ → Trouble → Text → Option Text → Call
  discard_call : ℕ → Text → Option Text → Call
  bulk_call : ℕ → (Text → Trouble) → Text → SpecPhase → Text → Call

module _ (edit : Editing) (sha256_hex : Text → Text) where
  open edit use {Document}

  abbrev make_call : Call → Board Document → Board Document
  make_call (apply_call now trouble id project_id) s =
      (apply_evaluation edit sha256_hex now trouble id project_id s).1
  make_call (discard_call now id project_id) s =
      (discard_evaluation edit sha256_hex now id project_id s).1
  make_call (bulk_call now trouble project_id target_phase action) s =
      (bulk_resolve edit sha256_hex now trouble project_id target_phase action s).1

  abbrev pub make_calls : List Call → Board Document → Board Document
  make_calls [] s = s
  make_calls (c ∷ cs) s = make_calls cs (make_call c s)

  module _ (id : Text) (r : ConsistencyEvaluation) where
    -- The table has its unique key, and the id finds the row.
    abbrev pub Keeps : Board Document → Type 0
    Keeps s = IsKeyed s.rows × (by_id id s.rows ≡ some r)

    stopped-Keeps :
        (b : Bool) (t t' : Tally) (s s' : Board Document)
        → Keeps s
        → Keeps s'
        → Keeps (let o : Tally × Board Document = if b then (t, s) else (t', s') in o.1)
    stopped-Keeps true t t' s s' h h' = h
    stopped-Keeps false t t' s s' h h' = h'

    module _ (now : ℕ) (resolved : is_completed r.status ≡ false) where
      module _ (id2 : Text) (row : ConsistencyEvaluation)
          (complete : is_completed row.status ≡ true) where
        marked-Keeps :
            (status : ConsistencyEvaluationStatus) (reason : Option Text) (s : Board Document)
            → by_id id2 s.rows ≡ some row
            → Keeps s
            → Keeps (marked edit sha256_hex now status reason row s)
        unfolding marked
        marked-Keeps status reason s found (keyed, here) = (
          save-IsKeyed now (resolved_as now status reason row) s.rows keyed,
          by_id-save-other now status reason id id2 r row s.rows (λ same. cc) keyed here found,
        )

        after_save-Keeps :
            (raises : Bool) (answer : Result ConsistencyError Text)
            (status : ConsistencyEvaluationStatus) (reason : Option Text) (s : Board Document)
            → by_id id2 s.rows ≡ some row
            → Keeps s
            → Keeps (after_save edit sha256_hex now raises answer status reason row s).1
        unfolding after_save
        after_save-Keeps true answer status reason s found h = h
        after_save-Keeps false answer status reason s found h = marked-Keeps status reason s found h

        applied_row-Keeps :
            (trouble : Trouble) (s : Board Document) (fs : List FailedImpact)
            → by_id id2 s.rows ≡ some row
            → Keeps s
            → Keeps (applied_row edit sha256_hex now trouble id2 row s fs).1
        unfolding applied_row
        applied_row-Keeps trouble s [] found h =
            after_save-Keeps trouble.save_raises _ _ _ s found h
        applied_row-Keeps trouble s (f ∷ fs) found h =
            after_save-Keeps trouble.save_raises _ _ _ s found h

        reported_row-Keeps :
            (trouble : Trouble) (s : Board Document) (o : Option ApplyOutput)
            → by_id id2 s.rows ≡ some row
            → Keeps s
            → Keeps (reported_row edit sha256_hex now trouble id2 row s o).1
        unfolding reported_row
        reported_row-Keeps trouble s none found h = h
        reported_row-Keeps trouble s (some out) found h =
            applied_row-Keeps trouble s out.failed found h

      apply_row-Keeps :
          (trouble : Trouble) (id2 : Text) (row : ConsistencyEvaluation) (s : Board Document)
          → by_id id2 s.rows ≡ some row
          → Keeps s
          → Keeps (apply_row edit sha256_hex now trouble id2 row s).1
      unfolding apply_row
      apply_row-Keeps trouble id2 row s found h = elim (Bool-cases (is_completed row.status)) [
        | inr done ↦ rw done h
        | inl pending ↦ elim (Bool-cases (is_current edit sha256_hex row s.artifacts)) [
          | inl e ↦ rw (pending, e) (reported_row-Keeps id2 row pending trouble _ _ found h)
          | inr e ↦
              rw (pending, e) (after_save-Keeps id2 row pending trouble.save_raises _ _ _ s found h)
        ]
      ]

      apply_found-Keeps :
          (trouble : Trouble) (id2 : Text) (project_id : Option Text) (s : Board Document)
          (o : Option ConsistencyEvaluation)
          → by_id id2 s.rows ≡ o
          → Keeps s
          → Keeps (apply_found edit sha256_hex now trouble id2 project_id s o).1
      unfolding apply_found
      apply_found-Keeps trouble id2 project_id s none found h = h
      apply_found-Keeps trouble id2 project_id s (some row) found h =
          elim (Bool-cases (foreign edit sha256_hex now project_id row)) [
            | inl e ↦ rw e h
            | inr e ↦ rw e (apply_row-Keeps trouble id2 row s found h)
          ]

      discard_found-Keeps :
          (id2 : Text) (project_id : Option Text) (s : Board Document)
          (o : Option ConsistencyEvaluation)
          → by_id id2 s.rows ≡ o
          → Keeps s
          → Keeps (discard_found edit sha256_hex now id2 project_id s o).1
      unfolding discard_found
      discard_found-Keeps id2 project_id s none found h = h
      discard_found-Keeps id2 project_id s (some row) found h =
          elim (Bool-cases (foreign edit sha256_hex now project_id row)) [
            | inl e ↦ rw e h
            | inr e ↦ elim (Bool-cases (is_completed row.status)) [
              | inl pending ↦ rw (e, pending) (marked-Keeps id2 row pending _ _ s found h)
              | inr done ↦ rw (e, done) h
            ]
          ]

      module _ (trouble : Text → Trouble) (project_id action : Text) where
        resolve_row-Keeps :
            (row : ConsistencyEvaluation) (s : Board Document)
            → Keeps s
            → Keeps (resolve_row edit sha256_hex now trouble project_id action row s).1
        unfolding resolve_row apply_evaluation discard_evaluation
        resolve_row-Keeps row s h = elim (Bool-cases (text_eq action (codes "apply"))) [
          | inl e ↦ rw e (apply_found-Keeps (trouble row.id) row.id (some project_id) s _ refl h)
          | inr e ↦ rw e (discard_found-Keeps row.id (some project_id) s _ refl h)
        ]

        resolve_rows-Keeps :
            (rows : List ConsistencyEvaluation) (s : Board Document)
            → Keeps s
            → Keeps (resolve_rows edit sha256_hex now trouble project_id action rows s).1
        unfolding resolve_rows
        resolve_rows-Keeps [] s h = h
        resolve_rows-Keeps (row ∷ rows) s h =
            let next = resolve_row edit sha256_hex now trouble project_id action row s in
            stopped-Keeps (is_repository_error next.0) _ _ _ _ (resolve_row-Keeps row s h)
              (resolve_rows-Keeps rows next.1 (resolve_row-Keeps row s h))

    make_call-Keeps :
        (c : Call) (s : Board Document)
        → is_completed r.status ≡ false
        → Keeps s
        → Keeps (make_call c s)
    unfolding apply_evaluation discard_evaluation bulk_resolve
    make_call-Keeps (apply_call now trouble id2 project_id) s resolved h =
        apply_found-Keeps now resolved trouble id2 project_id s _ refl h
    make_call-Keeps (discard_call now id2 project_id) s resolved h =
        discard_found-Keeps now resolved id2 project_id s _ refl h
    make_call-Keeps (bulk_call now trouble project_id target_phase action) s resolved h =
        resolve_rows-Keeps now resolved trouble project_id action _ s h

    pub make_calls-Keeps :
        (cs : List Call) (s : Board Document)
        → is_completed r.status ≡ false
        → Keeps s
        → Keeps (make_calls cs s)
    make_calls-Keeps [] s resolved h = h
    make_calls-Keeps (c ∷ cs) s resolved h =
        make_calls-Keeps cs (make_call c s) resolved (make_call-Keeps c s resolved h)
