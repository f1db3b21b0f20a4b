-- ===== src/Consistency/Evaluations/Keyed.antt =====
-- The rows of consistency_repo.py under their unique key.
use kosmo.Base.{
  ℕ, Bool, true, false, Option, some, List, [], ◌∷◌, ◌≡◌, refl, arith, ap, ◌∙◌, All, inl, inr,
  subst, sym, ◌⊎◌, and-eq-true, Bool-cases, if◌then◌else◌,
}
use kosmo.Base.Text.{Text, text_eq, text_eq_iff}
use kosmo.Trace.{
  SpecPhase, phase_eq, descubrimiento, caracteristicas, requisitos, modelo, implementacion,
}
use kosmo.Consistency.Evaluations.{
  ConsistencyEvaluation, ConsistencyEvaluationStatus, same_key, save, by_id,
}

-- The unique constraint of the table.
abbrev pub IsKeyed : List ConsistencyEvaluation → Type 0
IsKeyed [] = Unit
IsKeyed (r ∷ rs) = All (λ q. same_key r q ≡ false) rs × IsKeyed rs

pub phase_eq_refl : (p : SpecPhase) → phase_eq p p ≡ true
phase_eq_refl descubrimiento = refl
phase_eq_refl caracteristicas = refl
phase_eq_refl requisitos = refl
phase_eq_refl modelo = refl
phase_eq_refl implementacion = refl

phase_eq_sound : (p q : SpecPhase) → phase_eq p q ≡ true → p ≡ q
phase_eq_sound p q h = ground arith

pub text_eq_refl : (t : Text) → text_eq t t ≡ true
text_eq_refl t = (text_eq_iff t t).1 refl

pub same_key_refl : (r : ConsistencyEvaluation) → same_key r r ≡ true
unfolding same_key
same_key_refl r = rw (
  text_eq_refl r.project_id,
  phase_eq_refl r.source_phase,
  phase_eq_refl r.target_phase,
  text_eq_refl r.target_artifact_id,
)

-- A row with a new verdict, as `dataclasses.replace` makes it.
unfoldable pub resolved_as :
    ℕ → ConsistencyEvaluationStatus → Option Text → ConsistencyEvaluation → ConsistencyEvaluation
resolved_as now status reason row = record row {
  status = status;
  failure_reason = reason;
  updated_at = now;
}

found_head :
    (r row : ConsistencyEvaluation) (o : Option ConsistencyEvaluation) (b : Bool)
    → (if b then some r else o) ≡ some row
    → ((b ≡ true) × (r ≡ row)) ⊎ ((b ≡ false) × (o ≡ some row))
found_head r row o true h = inl (refl, cc)
found_head r row o false h = inr (refl, h)

by_id-cons :
    (id : Text) (r row : ConsistencyEvaluation) (rs : List ConsistencyEvaluation)
    → by_id id (r ∷ rs) ≡ some row
    → ((text_eq r.id id ≡ true) × (r ≡ row))
      ⊎ ((text_eq r.id id ≡ false) × (by_id id rs ≡ some row))
unfolding by_id
by_id-cons id r row rs h = found_head r row (by_id id rs) (text_eq r.id id) h

module _ (id : Text) where
  other_key :
      (r row : ConsistencyEvaluation) (rs : List ConsistencyEvaluation)
      → All (λ q. same_key r q ≡ false) rs
      → by_id id rs ≡ some row
      → same_key r row ≡ false
  unfolding by_id
  other_key r row [] others found = cc
  other_key r row (q ∷ qs) (other, others) found = elim (by_id-cons id q row qs found) [
    | inl (e, same) ↦ subst (λ x. same_key r x ≡ false) same other
    | inr (e, later) ↦ other_key r row qs others later
  ]

module _ (now : ℕ) (status : ConsistencyEvaluationStatus) (reason : Option Text) (id : Text) where
  pub same_key-resolved_as :
      (r row : ConsistencyEvaluation)
      → same_key r (resolved_as now status reason row) ≡ same_key r row
  unfolding same_key resolved_as
  same_key-resolved_as r row = refl

  by_id-save-here :
      (row r : ConsistencyEvaluation) (rs : List ConsistencyEvaluation)
      → text_eq r.id id ≡ true
      → r ≡ row
      → by_id id (save now (resolved_as now status reason row) (r ∷ rs))
        ≡ some (resolved_as now status reason row)
  unfolding by_id save resolved_as
  by_id-save-here row r rs e same =
      let key =
        same_key-resolved_as r row ∙ subst (λ x. same_key r x ≡ true) same (same_key_refl r) in
      rw (key, e)
        (ap
          (λ (x : ConsistencyEvaluation).
            some (record (resolved_as now status reason row) { id = x.id }))
          same)

  by_id-save-there :
      (row r : ConsistencyEvaluation) (rs : List ConsistencyEvaluation)
      → text_eq r.id id ≡ false
      → same_key r row ≡ false
      → by_id id (save now (resolved_as now status reason row) rs)
        ≡ some (resolved_as now status reason row)
      → by_id id (save now (resolved_as now status reason row) (r ∷ rs))
        ≡ some (resolved_as now status reason row)
  unfolding by_id save
  by_id-save-there row r rs e key later =
      let key' = same_key-resolved_as r row ∙ key in rw (key', e) later

  -- The row that an id finds is the one that a save of it with another verdict overwrites.
  pub by_id-save :
      (row : ConsistencyEvaluation) (rows : List ConsistencyEvaluation)
      → IsKeyed rows
      → by_id id rows ≡ some row
      → by_id id (save now (resolved_as now status reason row) rows)
        ≡ some (resolved_as now status reason row)
  by_id-save row [] keyed found = (unfold by_id in cc)
  by_id-save row (r ∷ rs) (others, keyed) found = elim (by_id-cons id r row rs found) [
    | inl (e, same) ↦ by_id-save-here row r rs e same
    | inr (e, later) ↦
        by_id-save-there row r rs e (other_key id r row rs others later)
          (by_id-save row rs keyed later)
  ]

  module _ (id2 : Text) (r row : ConsistencyEvaluation) where
    -- A save of another row, found by its own id, leaves the row that `id` finds.
    pub by_id-save-other :
        (rows : List ConsistencyEvaluation)
        → ¬ (r ≡ row)
        → IsKeyed rows
        → by_id id rows ≡ some r
        → by_id id2 rows ≡ some row
        → by_id id (save now (resolved_as now status reason row) rows) ≡ some r
    unfolding by_id save resolved_as
    by_id-save-other [] other keyed found found2 = cc
    by_id-save-other (q ∷ qs) other (others, keyed) found found2 =
        elim (by_id-cons id q r qs found) [
          | inl (e, same) ↦ elim (by_id-cons id2 q row qs found2) [
            | inl (e2, same2) ↦ absurd (other (sym same ∙ same2))
            | inr (e2, later2) ↦
                let key = same_key-resolved_as q row ∙ other_key id2 q row qs others later2 in
                rw (key, e) (ap some same)
          ]
          | inr (e, later) ↦ elim (by_id-cons id2 q row qs found2) [
            | inl (e2, same2) ↦
                let key =
                  same_key-resolved_as q row
                  ∙ subst (λ x. same_key q x ≡ true) same2 (same_key_refl q) in
                rw (key, e) later
            | inr (e2, later2) ↦
                let key = same_key-resolved_as q row ∙ other_key id2 q row qs others later2 in
                rw (key, e) (by_id-save-other qs other keyed later later2)
          ]
        ]

-- Whether a row has the key of another depends on the columns of the key only.
pub same_key-eq :
    (r e : ConsistencyEvaluation)
    → same_key r e ≡ true
    → (r.project_id ≡ e.project_id)
      × (r.source_phase ≡ e.source_phase)
      × (r.target_phase ≡ e.target_phase)
      × (r.target_artifact_id ≡ e.target_artifact_id)
unfolding same_key
same_key-eq r e h =
    let (a, h1) = (and-eq-true (text_eq r.project_id e.project_id) _).0 h in
    let (b, h2) = (and-eq-true (phase_eq r.source_phase e.source_phase) _).0 h1 in
    let (c, d) = (and-eq-true (phase_eq r.target_phase e.target_phase) _).0 h2 in
    (
      (text_eq_iff r.project_id e.project_id).0 a,
      phase_eq_sound r.source_phase e.source_phase b,
      phase_eq_sound r.target_phase e.target_phase c,
      (text_eq_iff r.target_artifact_id e.target_artifact_id).0 d,
    )

module _ (now : ℕ) (e : ConsistencyEvaluation) where
  same_key-overwritten :
      (id : Text) (r q : ConsistencyEvaluation)
      → same_key r e ≡ true
      → same_key (record e { id = id; updated_at = now }) q ≡ same_key r q
  unfolding same_key
  same_key-overwritten id r q h = let (a, b, c, d) = same_key-eq r e h in rw (a, b, c, d)

  same_key-saved :
      (id : Text) (r : ConsistencyEvaluation)
      → same_key r (record e { id = id; updated_at = now }) ≡ same_key r e
  unfolding same_key
  same_key-saved id r = refl

  others-overwritten :
      (id : Text) (r : ConsistencyEvaluation) (rs : List ConsistencyEvaluation)
      → same_key r e ≡ true
      → All (λ q. same_key r q ≡ false) rs
      → All (λ q. same_key (record e { id = id; updated_at = now }) q ≡ false) rs
  others-overwritten id r [] k others = tt
  others-overwritten id r (q ∷ qs) k (h, others) =
      (same_key-overwritten id r q k ∙ h, others-overwritten id r qs k others)

  others-save :
      (r : ConsistencyEvaluation) (rs : List ConsistencyEvaluation)
      → same_key r e ≡ false
      → All (λ q. same_key r q ≡ false) rs
      → All (λ q. same_key r q ≡ false) (save now e rs)
  unfolding save
  others-save r [] other others = (same_key-saved e.id r ∙ other, tt)
  others-save r (q ∷ qs) other (h, others) = elim (Bool-cases (same_key q e)) [
    | inl k ↦ rw k (same_key-saved q.id r ∙ other, others)
    | inr k ↦ rw k (h, others-save r qs other others)
  ]

  -- A save keeps the key unique.
  pub save-IsKeyed : (rows : List ConsistencyEvaluation) → IsKeyed rows → IsKeyed (save now e rows)
  unfolding save
  save-IsKeyed [] keyed = (tt, tt)
  save-IsKeyed (r ∷ rs) (others, keyed) = elim (Bool-cases (same_key r e)) [
    | inl k ↦ rw k (others-overwritten r.id r rs k others, keyed)
    | inr k ↦ rw k (others-save r rs k others, save-IsKeyed rs keyed)
  ]
