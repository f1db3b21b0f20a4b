-- ===== src/Consistency/Review/Fresh.antt =====
-- What a review shows, and what it leaves pending.
use kosmo.Base.{
  ℕ, Bool, true, false, not, ◌&&◌, ◌||◌, Option, some, List, [], ◌∷◌, ◌≡◌, refl, arith, All,
  All-imp, All-any, keep, any, map, inl, inr, Bool-cases, and-eq-true, if◌then◌else◌,
}
use kosmo.Base.Text.{Text, text_eq, codes}
use kosmo.Trace.{SpecPhase, phase_eq}
use kosmo.Consistency.Artifacts.{Artifacts}
use kosmo.Consistency.Handlers.{Editing}
use kosmo.Consistency.Snapshot.{is_current}
use kosmo.Consistency.Evaluations.{
  ConsistencyEvaluation, discarded, is_completed, is_unresolved, same_key, save, list_unresolved,
}
use kosmo.Consistency.Evaluations.Keyed.{IsKeyed, save-IsKeyed, resolved_as}
use kosmo.Consistency.Running.Saves.{save-All, found_kept}
use kosmo.Consistency.Review.{ReviewCard, card_from_row, review_rows, get_consistency_review}

abbrev obsolete : Option Text
obsolete = some (codes "Obsoleto: la entrada cambió.")

abbrev ids : List ReviewCard → List Text
ids cards = map (λ (c : ReviewCard). c.evaluation_id) cards

-- One round: a card is made unless the row is pending and not current.
shown-if :
    (done current : Bool) (c : ReviewCard) (cards : List ReviewCard) (r : ConsistencyEvaluation)
    (rows : List ConsistencyEvaluation)
    → c.evaluation_id ≡ r.id
    → ids cards ≡ map (λ (q : ConsistencyEvaluation). q.id) rows
    → ids (if (done && not current) || (done && false) then cards else c ∷ cards)
      ≡ map (λ (q : ConsistencyEvaluation). q.id) (if not done || current then r ∷ rows else rows)
shown-if true true c cards r rows same ih = rw (same, ih) refl
shown-if true false c cards r rows same ih = ih
shown-if false current c cards r rows same ih = rw (same, ih) refl

and-false : (b : Bool) → (b && false) ≡ false
and-false true = refl
and-false false = refl

module _ (edit : Editing) (sha256_hex : Text → Text) (now : ℕ) where
  open edit use {Document}

  module _ (snapshot_raises : Text → Bool) (w : Artifacts Document)
      (readable : (id : Text) → snapshot_raises id ≡ false) where
    abbrev is_stale : ConsistencyEvaluation → Bool
    is_stale r = is_completed r.status && not (is_current edit sha256_hex r w)

    -- The rows that are shown.
    abbrev pub is_shown : ConsistencyEvaluation → Bool
    is_shown r = not (is_completed r.status) || is_current edit sha256_hex r w

    review_rows-shown :
        (rows table : List ConsistencyEvaluation)
        → ids (review_rows edit sha256_hex now snapshot_raises w rows table).0
          ≡ map (λ (r : ConsistencyEvaluation). r.id) (keep is_shown rows)
    unfolding review_rows card_from_row
    review_rows-shown [] table = refl
    review_rows-shown (row ∷ rows) table =
        let ih = review_rows-shown rows (
          if is_stale row
          then save now (resolved_as now discarded obsolete row) table
          else table) in
        rw (readable row.id)
          (shown-if (is_completed row.status) (is_current edit sha256_hex row w) _ _ row _ refl ih)

    module _ (h : ConsistencyEvaluation → Bool)
        (resolved : (row : ConsistencyEvaluation) (id : Text)
          → h (record (resolved_as now discarded obsolete row) { id = id; updated_at = now })
            ≡ false) where
      -- A stale row is still to be visited.
      abbrev IsLeft : List ConsistencyEvaluation → ConsistencyEvaluation → Type 0
      IsLeft todo r = h r ≡ true → any (λ q. is_stale q && same_key r q) todo ≡ true

      IsLeft-saved :
          (row r : ConsistencyEvaluation) (todo : List ConsistencyEvaluation)
          → same_key r (resolved_as now discarded obsolete row) ≡ false
          → IsLeft (row ∷ todo) r
          → IsLeft todo r
      unfolding same_key resolved_as
      IsLeft-saved row r todo other left e = let here = left e in ground (arith, other, here)

      IsLeft-skipped :
          (row r : ConsistencyEvaluation) (todo : List ConsistencyEvaluation)
          → is_stale row ≡ false
          → IsLeft (row ∷ todo) r
          → IsLeft todo r
      IsLeft-skipped row r todo fresh left e = let here = left e in ground (arith, fresh, here)

      none_left : (r : ConsistencyEvaluation) → IsLeft [] r → h r ≡ false
      none_left r left = elim (Bool-cases (h r)) [ inl e ↦ let here = left e in cc | inr e ↦ e ]

      review_rows-All :
          (todo table : List ConsistencyEvaluation)
          → IsKeyed table
          → All (IsLeft todo) table
          → All (λ r. h r ≡ false) (review_rows edit sha256_hex now snapshot_raises w todo table).1
      unfolding review_rows
      review_rows-All [] table keyed left = All-imp (IsLeft []) _ table none_left left
      review_rows-All (row ∷ todo) table keyed left = elim (Bool-cases (is_stale row)) [
        | inl e ↦
            rw (readable row.id, e)
              (review_rows-All todo (save now (resolved_as now discarded obsolete row) table)
                (save-IsKeyed now (resolved_as now discarded obsolete row) table keyed)
                (save-All now (resolved_as now discarded obsolete row) (IsLeft (row ∷ todo))
                  (IsLeft todo) (λ id yes_. let no_ = resolved row id in cc)
                  (λ r other l. IsLeft-saved row r todo other l) table keyed left))
        | inr e ↦
            rw (readable row.id, e)
              (review_rows-All todo table keyed (
                All-imp (IsLeft (row ∷ todo)) (IsLeft todo) table
                  (λ r l. IsLeft-skipped row r todo e l) left))
      ]

    -- Over a table with its key, and where every snapshot can be read, a review shows the unresolved
    -- rows of the phase that are not pending or are current, in their order, and leaves no pending
    -- suggestion of the phase in the project that is not current.
    pub get_consistency_review-current :
        (project_id : Text) (target_phase : SpecPhase) (table : List ConsistencyEvaluation)
        → IsKeyed table
        → (map
              (λ (c : ReviewCard). c.evaluation_id)
              (get_consistency_review edit sha256_hex now snapshot_raises w project_id target_phase
                table).0
            ≡ map
                (λ (r : ConsistencyEvaluation). r.id)
                (keep
                  (λ r. not (is_completed r.status) || is_current edit sha256_hex r w)
                  (list_unresolved project_id target_phase table)))
          × (any
                (λ (r : ConsistencyEvaluation).
                  (text_eq r.project_id project_id
                    && (phase_eq r.target_phase target_phase && is_unresolved r.status))
                  && (is_completed r.status && not (is_current edit sha256_hex r w)))
                (get_consistency_review edit sha256_hex now snapshot_raises w project_id
                  target_phase table).1
              ≡ false)
    unfolding get_consistency_review list_unresolved
    get_consistency_review-current project_id target_phase table keyed =
        let f : ConsistencyEvaluation → Bool = λ r.
          text_eq r.project_id project_id
          && (phase_eq r.target_phase target_phase && is_unresolved r.status) in
        (
          review_rows-shown (keep f table) table,
          All-any _ _ (
              review_rows-All (λ r. f r && is_stale r) (λ row id. unfold resolved_as in and-false _)
                (keep f table) table keyed
                (All-imp _ _ table
                  (λ r found e.
                    let (listed, stale) = (and-eq-true (f r) (is_stale r)).0 e in
                    found listed stale)
                  (found_kept f is_stale table))),
        )
