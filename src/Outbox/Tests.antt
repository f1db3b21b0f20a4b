-- ===== src/Outbox/Tests.antt =====
-- Runs of backend/src/kosmo/infrastructure/persistence/postgres/outbox.py.
use kosmo.Base.{
  ℕ, Bool, true, false, Option, none, some, [], ◌∷◌, ◌≡◌, refl, arith, if◌then◌else◌, All,
}
use kosmo.Base.Text.{Text, codes, text_eq, take}
use kosmo.Base.Tables.{update}
use kosmo.Outbox.{
  earliest, JobStatus, mark_failed, dequeue, processing, done, failed, dead, OutboxJob, Jobs,
  enqueue, is_available,
}
use kosmo.Outbox.Worker.{
  settle_failure, Task, Worker, Settings, start_worker, poll_jobs, handling, raised, enqueued,
  polled, failing, noted, Reach, here, later, holders,
}
use kosmo.Outbox.Invariant.{IsValid}
use kosmo.Outbox.Steps.{Reach-IsValid}
use kosmo.Outbox.Closed.{row-Reach}
use kosmo.Outbox.Serial.{Handler, work}
use kosmo.Outbox.Earliest.{IsFound, Precedes, earliest-Precedes}
use kosmo.Outbox.Serial.Runs.{Reach-work}
use kosmo.Outbox.Serial.Drained.{is_queued, is_ended, work-is_ended}

abbrev status_at : Text → Jobs → Option (JobStatus × ℕ)
status_at id jobs = elim (jobs.row id) [ none ↦ none | some j ↦ some (j.status, j.attempts) ]

abbrev three_tries : Settings
three_tries = record { max_attempts = 3; backoff_seconds = 5; max_concurrency = 2 }

abbrev no_jobs : Jobs
no_jobs = record { ids = []; row = λ _. none }

abbrev mail : Text
mail = codes "outbox_1"

abbrev cleaning : Text
cleaning = codes "outbox_2"

abbrev both : Jobs
both =
    enqueue cleaning (codes "purge") (codes "{}") 20
      (enqueue mail (codes "mail") (codes "{}") 10 no_jobs)

-- A first try that fails, and a second one that does not.
abbrev waiting : Worker
waiting = start_worker three_tries no_jobs

abbrev queued : Worker
queued = record waiting { jobs = enqueue mail (codes "mail") (codes "{}") 10 waiting.jobs }

abbrev trying : Worker
trying = poll_jobs three_tries (λ _. false) queued

trying_reached : Reach three_tries waiting trying
unfolding start_worker
trying_reached =
    later (later here (enqueued mail (codes "mail") (codes "{}") 10 refl))
      (polled (λ _. false) (omega arith))

abbrev first_try : Task
first_try = record {
  job_id = mail;
  job = record {
    job_type = codes "mail";
    payload = codes "{}";
    status = processing;
    attempts = 1;
    last_error = none;
    created_at = 10;
  };
  stage = handling;
}

abbrev refused : Worker
refused = record trying { tasks = record first_try { stage = raised (codes "refused") } ∷ [] }

abbrev failed_once : Worker
failed_once =
    settle_failure three_tries 100 [] (record first_try { stage = raised (codes "refused") }) []
      (record refused { jobs = mark_failed 3 (some (codes "refused")) mail refused.jobs })

failed_once_reached : Reach three_tries waiting failed_once
unfolding start_worker poll_jobs dequeue enqueue update take
failed_once_reached =
    later (later trying_reached (failing (codes "refused") [] first_try [] refl refl)) (
      noted (codes "refused") 100 [] (record first_try { stage = raised (codes "refused") }) [] refl
        refl)

failed_once_row : status_at mail failed_once.jobs ≡ some (failed, 1)
unfolding start_worker poll_jobs dequeue enqueue update settle_failure mark_failed
failed_once_row = refl

waiting-IsValid : IsValid three_tries waiting
unfolding start_worker holders
waiting-IsValid = record { fits = λ id. refl; permits = refl }

Reach-IsValid_example : IsValid three_tries failed_once
Reach-IsValid_example =
    Reach-IsValid three_tries waiting failed_once (omega arith) waiting-IsValid failed_once_reached

-- A job that a stopped worker has left, while another one is handled.
abbrev left_behind : OutboxJob
left_behind = record {
  job_type = codes "mail";
  payload = codes "{}";
  status = processing;
  attempts = 1;
  last_error = none;
  created_at = 10;
}

abbrev after_stop : Worker
after_stop =
    start_worker three_tries
      (record { ids = mail ∷ []; row = λ id. if text_eq mail id then some left_behind else none })

abbrev polled_after : Worker
polled_after =
    poll_jobs three_tries (λ _. false)
      (record after_stop {
        jobs = enqueue cleaning (codes "purge") (codes "{}") 20 after_stop.jobs;
      })

polled_after_reached : Reach three_tries after_stop polled_after
unfolding start_worker
polled_after_reached =
    later (later here (enqueued cleaning (codes "purge") (codes "{}") 20 refl))
      (polled (λ _. false) (omega arith))

row-Reach_example : polled_after.jobs.row mail ≡ some left_behind
unfolding is_available start_worker holders
row-Reach_example =
    row-Reach three_tries mail left_behind after_stop polled_after refl refl refl
      polled_after_reached

-- The handler refuses one of two jobs, always.
abbrev refuse_mail : Handler
refuse_mail id j = if text_eq mail id then some (codes "refused") else none

queued-if :
    (max : ℕ) (b : Bool) (o p : Option OutboxJob)
    → is_queued max o ≡ true
    → is_queued max p ≡ true
    → is_queued max (if b then o else p) ≡ true
queued-if max true o p ho hp = ho
queued-if max false o p ho hp = hp

both_queued : (id : Text) → is_queued 3 (both.row id) ≡ true
unfolding enqueue update
both_queued id =
    queued-if 3 (text_eq cleaning id) _ _ refl (queued-if 3 (text_eq mail id) _ _ refl refl)

work-is_ended_example : All (λ id. is_ended ((work 3 refuse_mail 6 both).row id) ≡ true) both.ids
unfolding enqueue
work-is_ended_example = work-is_ended 3 refuse_mail 6 both (omega arith) both_queued (omega arith)

refused_to_death : status_at mail (work 3 refuse_mail 6 both) ≡ some (dead, 3)
unfolding work enqueue update
refused_to_death = refl

other_one_done : status_at cleaning (work 3 refuse_mail 6 both) ≡ some (done, 1)
unfolding work enqueue update
other_one_done = refl

Reach-work_example :
    (v : Worker) × Reach three_tries (start_worker three_tries both) v
    × (v.jobs ≡ work 3 refuse_mail 6 both)
    × (v.tasks ≡ [])
    × (v.free ≡ 2)
Reach-work_example = Reach-work three_tries refuse_mail 6 both (omega arith)

earliest-Precedes_example :
    IsFound 3 (λ _. false) both.row (earliest 3 (λ _. false) both.row both.ids)
    × All
        (λ k. Precedes 3 (λ _. false) (earliest 3 (λ _. false) both.row both.ids) k (both.row k))
        both.ids
earliest-Precedes_example = earliest-Precedes 3 (λ _. false) both.row both.ids
