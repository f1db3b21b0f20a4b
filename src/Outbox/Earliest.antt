-- ===== src/Outbox/Earliest.antt =====
-- What the query of `dequeue` finds.
use kosmo.Base.{
  ◌≤◌, ◌⊎◌, inl, inr, All, Bool-cases, ℕ, Bool, true, false, not, ◌&&◌, Option, none, some, List,
  [], ◌∷◌, ◌≡◌, refl, leb, if◌then◌else◌, arith,
}
use kosmo.Base.Text.{Text}
use kosmo.Base.Tables.{Table}
use kosmo.Outbox.{OutboxJob, is_available, candidate, sooner, earliest}

-- A row that may be taken, as it is stored.
abbrev pub IsFound : ℕ → (Text → Bool) → Table OutboxJob → Option (Text × OutboxJob) → Type 0
IsFound n locked row none = Unit
IsFound n locked row (some a) =
    (row a.0 ≡ some a.1) × (is_available n a.1 ≡ true) × (locked a.0 ≡ false)

module _ (n : ℕ) (locked : Text → Bool) (row : Table OutboxJob) where
  IsFound-or-none :
      (b : Bool) (id : Text) (j : OutboxJob)
      → (b ≡ true → IsFound n locked row (some (id, j)))
      → IsFound n locked row (if b then some (id, j) else none)
  IsFound-or-none true id j h = h refl
  IsFound-or-none false id j h = tt

  candidate-IsFound :
      (id : Text) (o : Option OutboxJob)
      → row id ≡ o
      → IsFound n locked row (candidate n locked id o)
  unfolding candidate
  candidate-IsFound id none e = tt
  candidate-IsFound id (some j) e =
      IsFound-or-none (is_available n j && not (locked id)) id j
        (λ h. (e, ground (arith, h), ground (arith, h)))

  IsFound-if :
      (b : Bool) (x y : Text × OutboxJob)
      → IsFound n locked row (some x)
      → IsFound n locked row (some y)
      → IsFound n locked row (if b then some x else some y)
  IsFound-if true x y hx hy = hx
  IsFound-if false x y hx hy = hy

  sooner-IsFound :
      (x y : Option (Text × OutboxJob))
      → IsFound n locked row x
      → IsFound n locked row y
      → IsFound n locked row (sooner x y)
  unfolding sooner
  sooner-IsFound none y hx hy = hy
  sooner-IsFound (some a) none hx hy = hx
  sooner-IsFound (some a) (some b) hx hy = IsFound-if (leb a.1.created_at b.1.created_at) a b hx hy

  -- The row that is found is stored, may be taken and is not locked.
  pub earliest-IsFound : (ids : List Text) → IsFound n locked row (earliest n locked row ids)
  unfolding earliest
  earliest-IsFound [] = tt
  earliest-IsFound (id ∷ ids) =
      sooner-IsFound (candidate n locked id (row id)) (earliest n locked row ids)
        (candidate-IsFound id (row id) refl) (earliest-IsFound ids)

-- The row that is found is not younger than a row that may be taken.
abbrev pub IsNotAfter : Option (Text × OutboxJob) → ℕ → Type 0
IsNotAfter none time = ⊥
IsNotAfter (some a) time = a.1.created_at ≤ time

abbrev pub Precedes :
    ℕ → (Text → Bool) → Option (Text × OutboxJob) → Text → Option OutboxJob → Type 0
Precedes n locked o k none = Unit
Precedes n locked o k (some j) =
    (is_available n j && not (locked k)) ≡ true → IsNotAfter o j.created_at

IsNotAfter-if :
    (x y : Text × OutboxJob) (time : ℕ)
    → (x.1.created_at ≤ time) ⊎ (y.1.created_at ≤ time)
    → IsNotAfter (if leb x.1.created_at y.1.created_at then some x else some y) time
IsNotAfter-if x y time h = elim (Bool-cases (leb x.1.created_at y.1.created_at)) [
  | inl e ↦ rw e (ground (arith, e, h))
  | inr e ↦ rw e (ground (arith, e, h))
]

IsNotAfter-sooner :
    (x y : Option (Text × OutboxJob)) (time : ℕ)
    → IsNotAfter x time ⊎ IsNotAfter y time
    → IsNotAfter (sooner x y) time
unfolding sooner
IsNotAfter-sooner none y time (inl h) = absurd h
IsNotAfter-sooner none y time (inr h) = h
IsNotAfter-sooner (some a) none time (inl h) = h
IsNotAfter-sooner (some a) none time (inr h) = absurd h
IsNotAfter-sooner (some a) (some b) time h = IsNotAfter-if a b time h

module _ (n : ℕ) (locked : Text → Bool) where
  candidate-Precedes :
      (k : Text) (r : Option OutboxJob) (y : Option (Text × OutboxJob))
      → Precedes n locked (sooner (candidate n locked k r) y) k r
  unfolding candidate
  candidate-Precedes k none y = tt
  candidate-Precedes k (some j) y = λ h.
      IsNotAfter-sooner (if is_available n j && not (locked k) then some (k, j) else none) y
        j.created_at (inl (rw h (omega arith)))

  sooner-Precedes :
      (x y : Option (Text × OutboxJob)) (k : Text) (r : Option OutboxJob)
      → Precedes n locked y k r
      → Precedes n locked (sooner x y) k r
  sooner-Precedes x y k none h = tt
  sooner-Precedes x y k (some j) h = λ a. IsNotAfter-sooner x y j.created_at (inr (h a))

  All-Precedes :
      (row : Table OutboxJob) (x y : Option (Text × OutboxJob)) (ids : List Text)
      → All (λ k. Precedes n locked y k (row k)) ids
      → All (λ k. Precedes n locked (sooner x y) k (row k)) ids
  All-Precedes row x y [] h = tt
  All-Precedes row x y (k ∷ ids) h =
      (sooner-Precedes x y k (row k) h.0, All-Precedes row x y ids h.1)

  earliest-All :
      (row : Table OutboxJob) (ids : List Text)
      → All (λ k. Precedes n locked (earliest n locked row ids) k (row k)) ids
  unfolding earliest
  earliest-All row [] = tt
  earliest-All row (k ∷ ids) = (
    candidate-Precedes k (row k) (earliest n locked row ids),
    All-Precedes row (candidate n locked k (row k)) (earliest n locked row ids) ids
        (earliest-All row ids),
  )

  -- The query of `dequeue` gives a stored row that may be taken and that no one locks, and none that
  -- may be taken and is not locked was created before it; it gives no row only if there is none.
  pub earliest-Precedes :
      (row : Table OutboxJob) (ids : List Text)
      → IsFound n locked row (earliest n locked row ids)
        × All (λ k. Precedes n locked (earliest n locked row ids) k (row k)) ids
  earliest-Precedes row ids = (earliest-IsFound n locked row ids, earliest-All row ids)
