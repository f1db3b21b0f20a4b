-- ===== src/Outbox.antt =====
-- backend/src/kosmo/infrastructure/persistence/postgres/outbox.py, `OutboxStore`: the table of jobs
-- that wait for the worker, and its operations. Each is one transaction. A row is kept under its id;
-- `ids` are the ids in the order of the table, and `created_at` is a number.
pub mod Earliest
pub mod Worker
pub mod Invariant
pub mod Keeps
pub mod Steps
pub mod Closed
pub mod Serial
mod Tests
use kosmo.Base.{
  ℕ, suc, ◌<◌, Bool, true, false, not, ◌&&◌, Option, none, some, List, [], ◌∷◌, ◌++◌, ltb, leb,
  if◌then◌else◌, is_empty,
}
use kosmo.Base.Text.{Text, take}
use kosmo.Base.Tables.{Table, update}

abbrev pub default_max_attempts : ℕ
default_max_attempts = 3

pub data JobStatus : Type 0 where
  pending : JobStatus
  processing : JobStatus
  done : JobStatus
  failed : JobStatus
  dead : JobStatus

-- `OutboxJobModel`, less its id; the payload is its JSON text.
pub record OutboxJob : Type 0 where
  pub job_type : Text
  pub payload : Text
  pub status : JobStatus
  pub attempts : ℕ
  pub last_error : Option Text
  pub created_at : ℕ

pub record Jobs : Type 0 where
  pub ids : List Text
  pub row : Table OutboxJob

-- `enqueue`; `id` is the drawn id, and `now` the time of the database.
unfoldable pub enqueue : (id job_type payload : Text) (now : ℕ) → Jobs → Jobs
enqueue id job_type payload now jobs = record {
  ids = jobs.ids ++ (id ∷ []);
  row =
      update id
        (some (record {
          job_type = job_type;
          payload = payload;
          status = pending;
          attempts = 0;
          last_error = none;
          created_at = now;
        }))
        jobs.row;
}

-- The condition of the query of `dequeue`.
unfoldable pub is_available : ℕ → OutboxJob → Bool
is_available max_attempts j = elim j.status [
  | pending ↦ true
  | failed ↦ ltb j.attempts max_attempts
  | _ ↦ false
]

-- A row that the query may give: one that another transaction locks is skipped.
unfoldable pub candidate : ℕ → (Text → Bool) → Text → Option OutboxJob → Option (Text × OutboxJob)
unfolding is_available
candidate max_attempts locked id none = none
candidate max_attempts locked id (some j) =
    if is_available max_attempts j && not (locked id) then some (id, j) else none

-- The sooner of two rows; of rows of one time, the first in the table.
unfoldable pub sooner :
    Option (Text × OutboxJob) → Option (Text × OutboxJob) → Option (Text × OutboxJob)
sooner none later = later
sooner (some a) none = some a
sooner (some a) (some b) = if leb a.1.created_at b.1.created_at then some a else some b

unfoldable pub earliest :
    ℕ → (Text → Bool) → Table OutboxJob → List Text → Option (Text × OutboxJob)
unfolding candidate sooner
earliest max_attempts locked row [] = none
earliest max_attempts locked row (id ∷ ids) =
    sooner (candidate max_attempts locked id (row id)) (earliest max_attempts locked row ids)

unfoldable pub started : OutboxJob → OutboxJob
started j = record j { status = processing; attempts = suc j.attempts }

unfoldable pub take_row : Jobs → Option (Text × OutboxJob) → Option (Text × OutboxJob) × Jobs
unfolding started
take_row jobs none = (none, jobs)
take_row jobs (some a) =
    (some (a.0, started a.1), record jobs { row = update a.0 (some (started a.1)) jobs.row })

-- `dequeue`, with the rows that other transactions lock.
unfoldable pub dequeue : ℕ → (Text → Bool) → Jobs → Option (Text × OutboxJob) × Jobs
unfolding earliest take_row
dequeue max_attempts locked jobs = take_row jobs (earliest max_attempts locked jobs.row jobs.ids)

-- The row of a job, changed.
unfoldable pub change : Text → (OutboxJob → OutboxJob) → Jobs → Jobs
change id f jobs = elim (jobs.row id) [
  | none ↦ jobs
  | some j ↦ record jobs { row = update id (some (f j)) jobs.row }
]

unfoldable pub finished : OutboxJob → OutboxJob
finished j = record j { status = done }

unfoldable pub mark_done : Text → Jobs → Jobs
unfolding change finished
mark_done id jobs = change id finished jobs

unfoldable pub with_failure : ℕ → Option Text → OutboxJob → OutboxJob
with_failure max_attempts error j = record j {
  status = if leb max_attempts j.attempts then dead else failed;
  last_error = elim error [
    | none ↦ j.last_error
    | some e ↦ if is_empty e then j.last_error else some (take 1000 e)
  ];
}

unfoldable pub mark_failed : ℕ → Option Text → Text → Jobs → Jobs
unfolding change with_failure
mark_failed max_attempts error id jobs = change id (with_failure max_attempts error) jobs
