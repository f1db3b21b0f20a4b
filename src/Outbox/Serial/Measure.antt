-- ===== src/Outbox/Serial/Measure.antt =====
-- The tries that the jobs of a table have left, for
-- backend/src/kosmo/infrastructure/persistence/postgres/outbox.py.
use kosmo.Base.{
  ℕ, suc, ◌≤◌, ◌<◌, ◌+◌, ◌-◌, ◌*◌, Bool, true, false, ◌&&◌, Option, none, some, List, [], ◌∷◌, ◌≡◌,
  refl, ap, subst, ltb, leb, if◌then◌else◌, Option-cases, Bool-cases, arith, inl, inr, length, any,
  or-true,
}
use kosmo.Base.Text.{Text, text_eq, text_eq_iff, take}
use kosmo.Base.Tables.{Table}
use kosmo.Outbox.{
  OutboxJob, Jobs, is_available, candidate, sooner, earliest, started, change, finished,
  with_failure,
}
use kosmo.Outbox.Keeps.{change_self, change-ne}
use kosmo.Outbox.Serial.{marked_by}

change-ids :
    (id : Text) (f : OutboxJob → OutboxJob) (jobs : Jobs) → (change id f jobs).ids ≡ jobs.ids
unfolding change
change-ids id f jobs = elim (Option-cases (jobs.row id)) [
  | inl e ↦ rw (e, change) refl
  | inr e ↦ rw (e.1, change) refl
]

-- The tries that a job has left, at most.
unfoldable pub tries : ℕ → Option OutboxJob → ℕ
unfolding is_available
tries max none = 0
tries max (some j) =
    if is_available max j then (if ltb j.attempts max then max - j.attempts else 1) else 0

unfoldable pub total : ℕ → Table OutboxJob → List Text → ℕ
total max row [] = 0
total max row (id ∷ ids) = tries max (row id) + total max row ids

tries-le : (max : ℕ) (o : Option OutboxJob) → 0 < max → tries max o ≤ max
unfolding tries
tries-le max none l = omega arith
tries-le max (some j) l = ground arith

pub total-le :
    (max : ℕ) (row : Table OutboxJob) (ids : List Text)
    → 0 < max
    → total max row ids ≤ length ids * max
unfolding total
total-le max row [] l = omega arith
total-le max row (id ∷ ids) l = grind (arith, tries-le max (row id) l, total-le max row ids l)

-- Another table whose row of `k` alone differs.
module _ (max : ℕ) (k : Text) (row row' : Table OutboxJob)
    (other : (id : Text) → text_eq k id ≡ false → row' id ≡ row id) where
  total-update-le :
      (ids : List Text)
      → tries max (row' k) ≤ tries max (row k)
      → total max row' ids ≤ total max row ids
  unfolding total
  total-update-le [] l = omega arith
  total-update-le (id ∷ ids) l = elim (Bool-cases (text_eq k id)) [
    | inl e ↦
        let here : tries max (row' id) ≤ tries max (row id) =
          subst (λ i. tries max (row' i) ≤ tries max (row i)) ((text_eq_iff k id).0 e) l in
        omega (arith, here, total-update-le ids l)
    | inr e ↦ omega (arith, ap (tries max) (other id e), total-update-le ids l)
  ]

  pub total-update-lt :
      (ids : List Text)
      → tries max (row' k) < tries max (row k)
      → any (text_eq k) ids ≡ true
      → total max row' ids < total max row ids
  unfolding total
  total-update-lt [] l m = absurd (ground arith)
  total-update-lt (id ∷ ids) l m = elim (Bool-cases (text_eq k id)) [
    | inl e ↦
        let here : tries max (row' id) < tries max (row id) =
          subst (λ i. tries max (row' i) < tries max (row i)) ((text_eq_iff k id).0 e) l in
        omega (arith, here, total-update-le ids (omega (arith, l)))
    | inr e ↦
        let later = total-update-lt ids l (ground (arith, m, e)) in
        omega (arith, ap (tries max) (other id e), later)
  ]

-- The row of a job that has been handled.
abbrev pub outcome : ℕ → Option Text → OutboxJob → OutboxJob
outcome max none j = finished j
outcome max (some message) j = with_failure max (some (take 500 message)) j

module _ (max : ℕ) (id : Text) (jobs : Jobs) where
  pub marked_by_self :
      (answer : Option Text) (j : OutboxJob)
      → jobs.row id ≡ some j
      → (marked_by max id answer jobs).row id ≡ some (outcome max answer j)
  unfolding marked_by
  marked_by_self none j e = change_self id finished jobs j e
  marked_by_self (some message) j e =
      change_self id (with_failure max (some (take 500 message))) jobs j e

  pub marked_by-ne :
      (answer : Option Text) (k : Text)
      → text_eq id k ≡ false
      → (marked_by max id answer jobs).row k ≡ jobs.row k
  unfolding marked_by
  marked_by-ne none k e = change-ne id k finished jobs e
  marked_by-ne (some message) k e =
      change-ne id k (with_failure max (some (take 500 message))) jobs e

  pub marked_by-ids : (answer : Option Text) → (marked_by max id answer jobs).ids ≡ jobs.ids
  unfolding marked_by
  marked_by-ids none = change-ids id finished jobs
  marked_by-ids (some message) = change-ids id (with_failure max (some (take 500 message))) jobs

pub tries-outcome :
    (max : ℕ) (answer : Option Text) (j : OutboxJob)
    → is_available max j ≡ true
    → tries max (some (outcome max answer (started j))) < tries max (some j)
unfolding tries started finished with_failure
tries-outcome max none j h = ground (arith, h)
tries-outcome max (some message) j h = elim (Bool-cases (leb max (suc j.attempts))) [
  | inl e ↦ rw e (ground (arith, h))
  | inr e ↦ rw e (ground (arith, h, e))
]

-- The job that is found stands in the table, and none is found only when none may be taken.
abbrev pub IsSearched : ℕ → Table OutboxJob → List Text → Option (Text × OutboxJob) → Type 0
IsSearched max row ids none = total max row ids ≡ 0
IsSearched max row ids (some a) = any (text_eq a.0) ids ≡ true

-- A row that is not picked has no tries left.
abbrev IsCandidate : ℕ → Text → Option OutboxJob → Option (Text × OutboxJob) → Type 0
IsCandidate max id o none = tries max o ≡ 0
IsCandidate max id o (some a) = text_eq a.0 id ≡ true

IsCandidate-if :
    (max : ℕ) (id : Text) (j : OutboxJob) (b : Bool)
    → is_available max j ≡ b
    → IsCandidate max id (some j) (if b && true then some (id, j) else none)
unfolding tries
IsCandidate-if max id j true e = ground (arith, text_eq_iff id id)
IsCandidate-if max id j false e = rw e refl

candidate-IsCandidate :
    (max : ℕ) (id : Text) (o : Option OutboxJob)
    → IsCandidate max id o (candidate max (λ _. false) id o)
unfolding candidate tries
candidate-IsCandidate max id none = refl
candidate-IsCandidate max id (some j) = IsCandidate-if max id j (is_available max j) refl

module _ (max : ℕ) (row : Table OutboxJob) where
  IsSearched-if :
      (ids : List Text) (b : Bool) (x y : Text × OutboxJob)
      → IsSearched max row ids (some x)
      → IsSearched max row ids (some y)
      → IsSearched max row ids (if b then some x else some y)
  IsSearched-if ids true x y hx hy = hx
  IsSearched-if ids false x y hx hy = hy

  sooner-IsSearched :
      (id : Text) (ids : List Text) (x y : Option (Text × OutboxJob))
      → IsCandidate max id (row id) x
      → IsSearched max row ids y
      → IsSearched max row (id ∷ ids) (sooner x y)
  unfolding sooner total
  sooner-IsSearched id ids none none hx hy = omega (arith, hx, hy)
  sooner-IsSearched id ids none (some b) hx hy = or-true (text_eq b.0 id) (any (text_eq b.0) ids) hy
  sooner-IsSearched id ids (some a) none hx hy = ground (arith, hx)
  sooner-IsSearched id ids (some a) (some b) hx hy =
      IsSearched-if (id ∷ ids) (leb a.1.created_at b.1.created_at) a b (ground (arith, hx))
        (or-true (text_eq b.0 id) (any (text_eq b.0) ids) hy)

  pub earliest-IsSearched :
      (ids : List Text) → IsSearched max row ids (earliest max (λ _. false) row ids)
  unfolding earliest total
  earliest-IsSearched [] = refl
  earliest-IsSearched (id ∷ ids) =
      sooner-IsSearched id ids (candidate max (λ _. false) id (row id))
        (earliest max (λ _. false) row ids) (candidate-IsCandidate max id (row id))
        (earliest-IsSearched ids)
