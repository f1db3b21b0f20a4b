-- ===== src/Outbox/Serial/Runs.antt =====
-- The passes of Outbox/Serial as steps of the worker of
-- backend/src/kosmo/infrastructure/persistence/postgres/outbox.py.
use kosmo.Base.{
  ℕ, zero, suc, ◌-◌, ◌<◌, Bool, true, false, Option, none, some, List, [], ◌∷◌, ◌++◌, ◌≡◌, refl,
  subst, ltb, leb, if◌then◌else◌, length, arith,
}
use kosmo.Base.Text.{Text, take}
use kosmo.Outbox.{OutboxJob, Jobs, earliest, dequeue, started, take_row, mark_failed}
use kosmo.Outbox.Worker.{
  handling, raised, backing_off, Task, Worker, Settings, start_worker, launched, poll_jobs,
  recent_fails, settle_failure, polled, handled, failing, noted, woken, Reach, here, later,
}
use kosmo.Outbox.Serial.{Handler, marked_by, process_job, work}

-- A worker without tasks.
abbrev idle_worker : Jobs → ℕ → List ℕ → Worker
idle_worker jobs free stamps = record {
  jobs = jobs;
  tasks = [];
  free = free;
  fail_timestamps = stamps;
}

Reach_trans : (c : Settings) (u v w : Worker) → Reach c u v → Reach c v w → Reach c u w
Reach_trans c u v _ r here = r
Reach_trans c u v w r (later {u = x} s t) = later (Reach_trans c u v x r s) t

module _ (c : Settings) where
  -- A failure that is recorded leaves an idle worker, after a wait or at once.
  settle_failure-idle :
      (now : ℕ) (t : Task) (w : Worker)
      → (stamps : List ℕ) × Reach c
          (settle_failure c now [] t [] w)
          (idle_worker w.jobs (suc w.free) stamps)
  unfolding settle_failure
  settle_failure-idle now t w =
      at (ltb t.job.attempts c.max_attempts) (leb 3 (length (recent_fails c now w.fail_timestamps)))
    where
      recent : List ℕ
      recent = recent_fails c now w.fail_timestamps

      asleep : Task
      asleep = record t { stage = backing_off }

      at :
          (b d : Bool)
          → (stamps : List ℕ) × Reach c
              (if b
                then (if d
                    then record w { tasks = [] ++ (asleep ∷ []); fail_timestamps = recent }
                    else record w { tasks = [] ++ []; free = suc w.free; fail_timestamps = recent })
                else record w { tasks = [] ++ []; free = suc w.free })
              (idle_worker w.jobs (suc w.free) stamps)
      at true true = ([], later here (woken [] asleep [] refl refl))
      at true false = (recent, here)
      at false d = (w.fail_timestamps, here)

  -- The task of a job that is taken, for each answer of the handler.
  marked_by-Reach :
      (free : ℕ) (stamps : List ℕ) (jobs : Jobs) (id : Text) (j : OutboxJob) (answer : Option Text)
      → (stamps' : List ℕ) × Reach c
          (record {
            jobs = jobs;
            tasks = record { job_id = id; job = j; stage = handling } ∷ [];
            free = free;
            fail_timestamps = stamps;
          })
          (idle_worker (marked_by c.max_attempts id answer jobs) (suc free) stamps')
  unfolding marked_by
  marked_by-Reach free stamps jobs id j none = (
    stamps,
    later here (handled [] (record { job_id = id; job = j; stage = handling }) [] refl refl),
  )
  marked_by-Reach free stamps jobs id j (some message) =
      let t : Task = record { job_id = id; job = j; stage = handling } in
      let e = take 500 message in
      let t' : Task = record t { stage = raised e } in
      let jobs' = mark_failed c.max_attempts (some e) id jobs in
      let w : Worker = record {
        jobs = jobs';
        tasks = t' ∷ [];
        free = free;
        fail_timestamps = stamps;
      } in
      let r = settle_failure-idle 0 t' w in
      (
        r.0,
        Reach_trans c _ (settle_failure c 0 [] t' [] w) _
            (later (later here (failing message [] t [] refl refl)) (noted e 0 [] t' [] refl refl))
            r.1,
      )

  process_job-Reach :
      (handler : Handler) (free : ℕ) (stamps : List ℕ) (jobs : Jobs) (o : Option (Text × OutboxJob))
      → 0 < free
      → (stamps' : List ℕ) × Reach c
          (launched (idle_worker jobs free stamps) (take_row jobs o))
          (idle_worker (process_job c.max_attempts handler (take_row jobs o)) free stamps')
  unfolding process_job take_row launched
  process_job-Reach handler free stamps jobs none l = (stamps, here)
  process_job-Reach handler free stamps jobs (some a) l =
      let jobs1 = (take_row jobs (some a)).1 in
      let answer = handler a.0 (started a.1) in
      let r = marked_by-Reach (free - 1) stamps jobs1 a.0 (started a.1) answer in
      let same : suc (free - 1) ≡ free = omega (arith, l) in
      (
        r.0,
        subst
            (λ n.
              Reach c (launched (idle_worker jobs free stamps) (take_row jobs (some a)))
                (idle_worker (marked_by c.max_attempts a.0 answer jobs1) n r.0))
            same r.1,
      )

  work-Reach :
      (handler : Handler) (n free : ℕ) (stamps : List ℕ) (jobs : Jobs)
      → 0 < free
      → (stamps' : List ℕ) × Reach c
          (idle_worker jobs free stamps)
          (idle_worker (work c.max_attempts handler n jobs) free stamps')
  unfolding work dequeue poll_jobs
  work-Reach handler zero free stamps jobs l = (stamps, here)
  work-Reach handler (suc n) free stamps jobs l =
      let o = earliest c.max_attempts (λ _. false) jobs.row jobs.ids in
      let pass = process_job-Reach handler free stamps jobs o l in
      let next = process_job c.max_attempts handler (take_row jobs o) in
      let rest = work-Reach handler n free pass.0 next l in
      (
        rest.0,
        Reach_trans c _ (idle_worker next free pass.0) _
            (Reach_trans c _ (launched (idle_worker jobs free stamps) (take_row jobs o)) _
              (later here (polled (λ _. false) l)) pass.1)
            rest.1,
      )

-- Any number of passes of a worker with one task at a time is a run of the worker from its start,
-- whatever the handler answers and for any bound on its tasks but zero: the run ends without tasks
-- and with every permit free, and leaves the table that the passes leave.
pub Reach-work :
    (c : Settings) (handler : Handler) (n : ℕ) (jobs : Jobs)
    → 0 < c.max_concurrency
    → (v : Worker) × Reach c (start_worker c jobs) v
      × (v.jobs ≡ work c.max_attempts handler n jobs)
      × (v.tasks ≡ [])
      × (v.free ≡ c.max_concurrency)
unfolding start_worker
Reach-work c handler n jobs room =
    let r = work-Reach c handler n c.max_concurrency [] jobs room in
    (idle_worker (work c.max_attempts handler n jobs) c.max_concurrency r.0, r.1, refl, refl, refl)
