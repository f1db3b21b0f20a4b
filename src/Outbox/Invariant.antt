-- ===== src/Outbox/Invariant.antt =====
-- The invariant of the table of jobs and its worker, for
-- backend/src/kosmo/infrastructure/persistence/postgres/outbox.py.
use kosmo.Base.{ℕ, ◌≤◌, ◌<◌, ◌+◌, true, Option, none, some, ◌≡◌, refl, arith, length}
use kosmo.Base.Text.{Text}
use kosmo.Outbox.{JobStatus, pending, processing, done, failed, dead, OutboxJob, is_available}
use kosmo.Outbox.Worker.{Worker, Settings, holders}

-- How often a job of each status has been tried, and how many tasks hold it.
abbrev pub FitsStatus : ℕ → ℕ → ℕ → JobStatus → Type 0
FitsStatus max held attempts pending = (held ≡ 0) × (attempts ≡ 0)
FitsStatus max held attempts processing = (held ≤ 1) × (1 ≤ attempts) × (attempts ≤ max)
FitsStatus max held attempts done = (held ≡ 0) × (1 ≤ attempts) × (attempts ≤ max)
FitsStatus max held attempts failed = (held ≡ 0) × (1 ≤ attempts) × (attempts < max)
FitsStatus max held attempts dead = (held ≡ 0) × (1 ≤ attempts) × (attempts ≡ max)

abbrev pub Fits : ℕ → ℕ → Option OutboxJob → Type 0
Fits max held none = held ≡ 0
Fits max held (some j) = FitsStatus max held j.attempts j.status

-- Every row fits the tasks that hold it, and each task has a permit.
pub record IsValid (c : Settings) (w : Worker) : Type 0 where
  pub fits : (id : Text) → Fits c.max_attempts (holders id w.tasks) (w.jobs.row id)
  pub permits : w.free + length w.tasks ≡ c.max_concurrency

pub FitsStatus-le :
    (max m n a : ℕ) (s : JobStatus) → n ≤ m → FitsStatus max m a s → FitsStatus max n a s
FitsStatus-le max m n a pending l h = ground (arith, l, h.0, h.1)
FitsStatus-le max m n a processing l h = ground (arith, l, h.0, h.1)
FitsStatus-le max m n a done l h = ground (arith, l, h.0, h.1)
FitsStatus-le max m n a failed l h = ground (arith, l, h.0, h.1)
FitsStatus-le max m n a dead l h = ground (arith, l, h.0, h.1)

pub Fits-le : (max m n : ℕ) (o : Option OutboxJob) → n ≤ m → Fits max m o → Fits max n o
Fits-le max m n none l h = omega (arith, l, h)
Fits-le max m n (some j) l h = FitsStatus-le max m n j.attempts j.status l h

-- A held job is being processed, by that task alone.
abbrev pub IsProcessed : ℕ → Option OutboxJob → Type 0
IsProcessed max none = ⊥
IsProcessed max (some j) = (j.status ≡ processing) × (1 ≤ j.attempts) × (j.attempts ≤ max)

FitsStatus-processing :
    (max n a : ℕ) (s : JobStatus)
    → 1 ≤ n
    → FitsStatus max n a s
    → (n ≡ 1) × (s ≡ processing) × (1 ≤ a) × (a ≤ max)
FitsStatus-processing max n a processing l h = (omega (arith, l, h.0), refl, h.1, h.2)
FitsStatus-processing max n a pending l h = absurd (omega (arith, l, h.0))
FitsStatus-processing max n a done l h = absurd (omega (arith, l, h.0))
FitsStatus-processing max n a failed l h = absurd (omega (arith, l, h.0))
FitsStatus-processing max n a dead l h = absurd (omega (arith, l, h.0))

pub Fits-IsProcessed :
    (max n : ℕ) (o : Option OutboxJob) → 1 ≤ n → Fits max n o → (n ≡ 1) × IsProcessed max o
Fits-IsProcessed max n none l h = absurd (omega (arith, l, h))
Fits-IsProcessed max n (some j) l h =
    let f = FitsStatus-processing max n j.attempts j.status l h in (f.0, (f.1, f.2, f.3))

-- A job that may be taken has attempts left, and no task holds it.
pub FitsStatus-available :
    (max n : ℕ) (j : OutboxJob) (s : JobStatus)
    → 0 < max
    → j.status ≡ s
    → is_available max j ≡ true
    → FitsStatus max n j.attempts s
    → (n ≡ 0) × (j.attempts < max)
unfolding is_available
FitsStatus-available max n j pending l e a h = (h.0, omega (arith, l, h.1))
FitsStatus-available max n j failed l e a h = (h.0, h.2)
FitsStatus-available max n j processing l e a h = absurd (ground (arith, e, a))
FitsStatus-available max n j done l e a h = absurd (ground (arith, e, a))
FitsStatus-available max n j dead l e a h = absurd (ground (arith, e, a))
