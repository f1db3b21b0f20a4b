-- ===== src/Outbox/Worker.antt =====
-- `run_outbox_worker` of backend/src/kosmo/infrastructure/persistence/postgres/outbox.py: the worker,
-- its semaphore and its tasks. Each step runs to the next `await`: a transaction of the store, an
-- answer of the handler, or a wait. Other processes write nothing but new jobs; a `dequeue`
-- that raises gives its permit back and changes nothing.
use kosmo.Base.{
  ℕ, suc, ◌-◌, ◌<◌, Bool, true, false, ◌&&◌, Option, none, some, List, [], ◌∷◌, ◌++◌, ◌≡◌, ltb, leb,
  if◌then◌else◌, keep, length, count_if,
}
use kosmo.Base.Text.{Text, text_eq, take}
use kosmo.Outbox.{OutboxJob, Jobs, enqueue, dequeue, mark_done, mark_failed}

-- Where a task stands in `_process_job`: in the handler, before `mark_failed`, or asleep after it.
pub data Stage : Type 0 where
  handling : Stage
  raised : Text → Stage
  backing_off : Stage

pub record Task : Type 0 where
  pub job_id : Text
  pub job : OutboxJob
  pub stage : Stage

-- `free` counts the permits that the semaphore has left.
pub record Worker : Type 0 where
  pub jobs : Jobs
  pub tasks : List Task
  pub free : ℕ
  pub fail_timestamps : List ℕ

pub record Settings : Type 0 where
  pub max_attempts : ℕ
  pub backoff_seconds : ℕ
  pub max_concurrency : ℕ

-- A worker that starts over a table.
unfoldable pub start_worker : Settings → Jobs → Worker
start_worker c jobs = record {
  jobs = jobs;
  tasks = [];
  free = c.max_concurrency;
  fail_timestamps = [];
}

-- The pass of the loop that has acquired a permit: a task for the job, or the permit given back.
unfoldable pub launched : Worker → Option (Text × OutboxJob) × Jobs → Worker
launched w (none, jobs) = record w { jobs = jobs }
launched w (some a, jobs) = record w {
  jobs = jobs;
  tasks = w.tasks ++ (record { job_id = a.0; job = a.1; stage = handling } ∷ []);
  free = w.free - 1;
}

unfoldable pub poll_jobs : Settings → (Text → Bool) → Worker → Worker
unfolding launched
poll_jobs c locked w = launched w (dequeue c.max_attempts locked w.jobs)

-- The recent failures with the one of now, and whether there are enough of them to wait.
unfoldable pub recent_fails : Settings → ℕ → List ℕ → List ℕ
recent_fails c now stamps = keep (λ t. ltb (now - t) c.backoff_seconds) (stamps ++ (now ∷ []))

-- What a task does after `mark_failed`, with those before and after it.
unfoldable pub settle_failure : Settings → ℕ → List Task → Task → List Task → Worker → Worker
unfolding recent_fails
settle_failure c now before t after w =
    let recent = recent_fails c now w.fail_timestamps in
    if ltb t.job.attempts c.max_attempts
    then if leb 3 (length recent)
      then record w {
        tasks = before ++ (record t { stage = backing_off } ∷ after);
        fail_timestamps = recent;
      }
      else record w { tasks = before ++ after; free = suc w.free; fail_timestamps = recent }
    else record w { tasks = before ++ after; free = suc w.free }

-- One step of the worker, or of those who enqueue.
pub data Step (c : Settings) (w : Worker) : Worker → Type 0 where
  enqueued :
      (id job_type payload : Text) (now : ℕ)
      → w.jobs.row id ≡ none
      → Step c w (record w { jobs = enqueue id job_type payload now w.jobs })
  polled : (locked : Text → Bool) → 0 < w.free → Step c w (poll_jobs c locked w)
  handled :
      (before : List Task) (t : Task) (after : List Task)
      → w.tasks ≡ before ++ (t ∷ after)
      → t.stage ≡ handling
      → Step c w (record w {
        jobs = mark_done t.job_id w.jobs;
        tasks = before ++ after;
        free = suc w.free;
      })
  -- The handler or `mark_done` has raised.
  failing :
      (message : Text) (before : List Task) (t : Task) (after : List Task)
      → w.tasks ≡ before ++ (t ∷ after)
      → t.stage ≡ handling
      → Step c w
          (record w { tasks = before ++ (record t { stage = raised (take 500 message) } ∷ after) })
  noted :
      (message : Text) (now : ℕ) (before : List Task) (t : Task) (after : List Task)
      → w.tasks ≡ before ++ (t ∷ after)
      → t.stage ≡ raised message
      → Step c w (
          settle_failure c now before t after
            (record w { jobs = mark_failed c.max_attempts (some message) t.job_id w.jobs }))
  -- `mark_failed` has raised: the task ends.
  unrecorded :
      (message : Text) (before : List Task) (t : Task) (after : List Task)
      → w.tasks ≡ before ++ (t ∷ after)
      → t.stage ≡ raised message
      → Step c w (record w { tasks = before ++ after; free = suc w.free })
  woken :
      (before : List Task) (t : Task) (after : List Task)
      → w.tasks ≡ before ++ (t ∷ after)
      → t.stage ≡ backing_off
      → Step c w (record w { tasks = before ++ after; free = suc w.free; fail_timestamps = [] })
  -- The worker is cancelled, and its tasks with it; another one starts.
  restarted : Step c w (start_worker c w.jobs)

pub data Reach (c : Settings) (w : Worker) : Worker → Type 0 where
  here : Reach c w w
  later : {u v : Worker} → Reach c w u → Step c u v → Reach c w v

-- The tasks that still have to mark a job.
unfoldable pub is_live : Stage → Bool
is_live backing_off = false
is_live _ = true

unfoldable pub holds : Text → Task → Bool
unfolding is_live
holds id t = text_eq t.job_id id && is_live t.stage

unfoldable pub holders : Text → List Task → ℕ
unfolding holds
holders id ts = count_if (holds id) ts
