-- ===== src/Consistency/Running/Superseded.antt =====
-- Superseding a pair leaves no pending suggestion of the pair but the kept ones.
use kosmo.Base.{
  ℕ, Bool, true, false, not, ◌&&◌, Option, some, List, [], ◌∷◌, ◌≡◌, arith, All, All-imp, All-and,
  any, inl, inr, Bool-cases,
}
use kosmo.Base.Text.{Text, text_eq, codes, member}
use kosmo.Trace.{SpecPhase, phase_eq}
use kosmo.Consistency.Evaluations.{
  ConsistencyEvaluation, discarded, is_completed, is_unresolved, same_key, list_unresolved,
}
use kosmo.Consistency.Evaluations.Keyed.{IsKeyed, save-IsKeyed, resolved_as}
use kosmo.Consistency.Running.{is_superseded, supersede_rows, supersede_pair}
use kosmo.Consistency.Running.Saves.{save-All, found_kept}

abbrev pub superseding : Option Text
superseding = some (codes "Superado por una evaluación más reciente.")

module _ (now : ℕ) (project_id : Text) (source_phase target_phase : SpecPhase) where
  -- The rows of the pair in the project.
  abbrev pub in_pair : ConsistencyEvaluation → Bool
  in_pair r =
      text_eq r.project_id project_id
      && (phase_eq r.source_phase source_phase && phase_eq r.target_phase target_phase)

  abbrev pub is_stale : List Text → ConsistencyEvaluation → Bool
  is_stale kept r = in_pair r && (is_completed r.status && not (member r.target_artifact_id kept))

  module _ (kept : List Text) (V : ConsistencyEvaluation → Type 0)
      (free : (row : ConsistencyEvaluation) (id : Text)
        → V (record (resolved_as now discarded superseding row) {
          id = id;
          updated_at = now;
        })) where
    abbrev Left : List ConsistencyEvaluation → ConsistencyEvaluation → Type 0
    Left todo r =
        V r
        × (is_stale kept r ≡ true
            → any
                (λ q. is_superseded now project_id source_phase target_phase kept q && same_key r q)
                todo
              ≡ true)

    discarded_free :
        (row : ConsistencyEvaluation) (id : Text) (todo : List ConsistencyEvaluation)
        → Left todo
            (record (resolved_as now discarded superseding row) { id = id; updated_at = now })
    discarded_free row id todo = (free row id, unfold resolved_as in λ h. ground (arith, h))

    later :
        (r row : ConsistencyEvaluation) (todo : List ConsistencyEvaluation)
        → same_key r (resolved_as now discarded superseding row) ≡ false
        → any
            (λ q. is_superseded now project_id source_phase target_phase kept q && same_key r q)
            (row ∷ todo)
          ≡ true
        → any
            (λ q. is_superseded now project_id source_phase target_phase kept q && same_key r q)
            todo
          ≡ true
    unfolding same_key resolved_as
    later r row todo other h = ground (arith, other, h)

    skipped :
        (r row : ConsistencyEvaluation) (todo : List ConsistencyEvaluation)
        → is_superseded now project_id source_phase target_phase kept row ≡ false
        → any
            (λ q. is_superseded now project_id source_phase target_phase kept q && same_key r q)
            (row ∷ todo)
          ≡ true
        → any
            (λ q. is_superseded now project_id source_phase target_phase kept q && same_key r q)
            todo
          ≡ true
    skipped r row todo e h = ground (arith, e, h)

    stale_listed :
        (r : ConsistencyEvaluation)
        → is_stale kept r ≡ true
        → (text_eq r.project_id project_id
            && (phase_eq r.target_phase target_phase && is_unresolved r.status))
          ≡ true
    stale_listed r h = ground (arith, h)

    stale_superseded :
        (r : ConsistencyEvaluation)
        → is_stale kept r ≡ true
        → is_superseded now project_id source_phase target_phase kept r ≡ true
    stale_superseded r h = ground (arith, h)

    supersede_rows-All :
        (todo rows : List ConsistencyEvaluation)
        → IsKeyed rows
        → All (Left todo) rows
        → All
            (λ r. V r × (is_stale kept r ≡ false))
            (supersede_rows now project_id source_phase target_phase kept todo rows)
    unfolding supersede_rows
    supersede_rows-All [] rows keyed h =
        All-imp (Left []) _ rows
          (λ r left. (
            left.0,
            elim (Bool-cases (is_stale kept r)) [ inl e ↦ let no = left.1 e in cc | inr e ↦ e ],
          ))
          h
    supersede_rows-All (row ∷ todo) rows keyed h =
        elim (Bool-cases (is_superseded now project_id source_phase target_phase kept row)) [
          | inl e ↦ rw e (
              supersede_rows-All todo _
                (save-IsKeyed now (resolved_as now discarded superseding row) rows keyed)
                (save-All now (resolved_as now discarded superseding row) (Left (row ∷ todo))
                  (Left todo) (λ id. discarded_free row id todo)
                  (λ r other left. (left.0, λ stale. later r row todo other (left.1 stale))) rows
                  keyed h))
          | inr e ↦ rw e (
              supersede_rows-All todo rows keyed (
                All-imp (Left (row ∷ todo)) (Left todo) rows
                  (λ r left. (left.0, λ stale. skipped r row todo e (left.1 stale))) h))
        ]

    -- After a superseding a pending suggestion of the pair is a kept one.
    pub supersede_pair-All :
        (rows : List ConsistencyEvaluation)
        → IsKeyed rows
        → All V rows
        → All
            (λ r. V r × (is_stale kept r ≡ false))
            (supersede_pair now project_id source_phase target_phase kept rows)
    unfolding supersede_pair list_unresolved
    supersede_pair-All rows keyed h = supersede_rows-All _ rows keyed (
        All-and V _ rows h (
          All-imp _ _ rows
            (λ r found stale. found (stale_listed r stale) (stale_superseded r stale))
            (found_kept
              (λ (r : ConsistencyEvaluation).
                text_eq r.project_id project_id
                && (phase_eq r.target_phase target_phase && is_unresolved r.status))
              (is_superseded now project_id source_phase target_phase kept) rows)))

  supersede_rows-IsKeyed :
      (kept : List Text) (todo rows : List ConsistencyEvaluation)
      → IsKeyed rows
      → IsKeyed (supersede_rows now project_id source_phase target_phase kept todo rows)
  unfolding supersede_rows
  supersede_rows-IsKeyed kept [] rows keyed = keyed
  supersede_rows-IsKeyed kept (row ∷ todo) rows keyed =
      elim (Bool-cases (is_superseded now project_id source_phase target_phase kept row)) [
        | inl e ↦ rw e (
            supersede_rows-IsKeyed kept todo _
              (save-IsKeyed now (resolved_as now discarded superseding row) rows keyed))
        | inr e ↦ rw e (supersede_rows-IsKeyed kept todo rows keyed)
      ]

  pub supersede_pair-IsKeyed :
      (kept : List Text) (rows : List ConsistencyEvaluation)
      → IsKeyed rows
      → IsKeyed (supersede_pair now project_id source_phase target_phase kept rows)
  unfolding supersede_pair
  supersede_pair-IsKeyed kept rows keyed =
      supersede_rows-IsKeyed kept (list_unresolved project_id target_phase rows) rows keyed
