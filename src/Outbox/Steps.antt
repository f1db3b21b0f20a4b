-- ===== src/Outbox/Steps.antt =====
-- The invariant under the steps of the worker, for
-- backend/src/kosmo/infrastructure/persistence/postgres/outbox.py.
use kosmo.Base.{
  ℕ, ◌≤◌, ◌<◌, ◌+◌, Bool, true, false, Option, none, some, List, [], ◌∷◌, ◌++◌, ◌≡◌, refl, ap, sym,
  subst, ltb, leb, if◌then◌else◌, Bool-cases, arith, inl, inr, length, length-append,
  count_if-append,
}
use kosmo.Base.Text.{Text, text_eq, text_eq_iff, take}
use kosmo.Base.Tables.{Table, update, update_self, update-ne}
use kosmo.Outbox.{
  pending, failed, dead, OutboxJob, is_available, earliest, enqueue, dequeue, started, take_row,
  finished, mark_done, with_failure, mark_failed,
}
use kosmo.Outbox.Earliest.{IsFound, earliest-IsFound}
use kosmo.Outbox.Worker.{
  handling, raised, Task, Worker, Settings, start_worker, launched, poll_jobs, recent_fails,
  settle_failure, Step, enqueued, polled, handled, failing, noted, unrecorded, woken, restarted,
  Reach, here, later, is_live, holds, holders,
}
use kosmo.Outbox.Invariant.{FitsStatus, Fits, IsValid, Fits-le, IsProcessed, FitsStatus-available}
use kosmo.Outbox.Keeps.{
  none_if, holds-ne, left-Fits, marked-Fits, ended, replaced, asleep, still-Fits,
}

finished-Fits :
    (max : ℕ) (j : OutboxJob) → IsProcessed max (some j) → Fits max 0 (some (finished j))
unfolding finished
finished-Fits max j h = (refl, h.1, h.2)

failure-FitsStatus :
    (b : Bool) (max a : ℕ)
    → leb max a ≡ b
    → 1 ≤ a
    → a ≤ max
    → FitsStatus max 0 a (if b then dead else failed)
failure-FitsStatus true max a e l u = (refl, l, ground (arith, e))
failure-FitsStatus false max a e l u = (refl, l, ground (arith, e))

with_failure-Fits :
    (max : ℕ) (error : Option Text) (j : OutboxJob)
    → IsProcessed max (some j)
    → Fits max 0 (some (with_failure max error j))
unfolding with_failure
with_failure-Fits max error j h =
    failure-FitsStatus (leb max j.attempts) max j.attempts refl h.1 h.2

-- Another row under an id, and the same tasks.
update-Fits :
    (max : ℕ) (tasks : List Task) (k : Text) (o : Option OutboxJob) (row : Table OutboxJob)
    → ((id : Text) → Fits max (holders id tasks) (row id))
    → Fits max (holders k tasks) o
    → (id : Text) → Fits max (holders id tasks) (update k o row id)
update-Fits max tasks k o row h hk id = elim (Bool-cases (text_eq k id)) [
  | inl e ↦
      subst (λ i. Fits max (holders i tasks) (update k o row i)) ((text_eq_iff k id).0 e)
        (subst (λ p. Fits max (holders k tasks) p) (sym (update_self k o row)) hk)
  | inr e ↦ subst (λ p. Fits max (holders id tasks) p) (sym (update-ne k id o row e)) (h id)
]

enqueue-Fits :
    (c : Settings) (w : Worker) (id job_type payload : Text) (now : ℕ)
    → w.jobs.row id ≡ none
    → IsValid c w
    → IsValid c (record w { jobs = enqueue id job_type payload now w.jobs })
unfolding enqueue
enqueue-Fits c w id job_type payload now e valid = record {
  fits =
      let new : OutboxJob = record {
        job_type = job_type;
        payload = payload;
        status = pending;
        attempts = 0;
        last_error = none;
        created_at = now;
      } in
      update-Fits c.max_attempts w.tasks id (some new) w.jobs.row valid.fits
        (subst (Fits c.max_attempts (holders id w.tasks)) e (valid.fits id), refl);
  permits = valid.permits;
}

one_at_most : (b : Bool) → (let n : ℕ = if b then 1 else 0 in n) ≤ 1
one_at_most true = omega arith
one_at_most false = omega arith

pub holders-launched :
    (id : Text) (ts : List Task) (t : Task)
    → holders id (ts ++ (t ∷ [])) ≡ holders id ts + (if holds id t then 1 else 0)
unfolding holders
holders-launched id ts t = omega (arith, count_if-append (holds id) ts (t ∷ []))

module _ (c : Settings) (w : Worker) (positive : 0 < c.max_attempts) (valid : IsValid c w) where
  -- The tasks with that of the job that is taken.
  taken-Fits :
      (k : Text) (j : OutboxJob)
      → w.jobs.row k ≡ some j
      → is_available c.max_attempts j ≡ true
      → (id : Text)
      → Fits c.max_attempts
          (holders id (w.tasks ++ (record { job_id = k; job = started j; stage = handling } ∷ [])))
          (update k (some (started j)) w.jobs.row id)
  unfolding started
  taken-Fits k j e available id =
      let t : Task = record { job_id = k; job = started j; stage = handling } in
      let known =
        FitsStatus-available c.max_attempts (holders k w.tasks) j j.status positive refl available
          (subst (Fits c.max_attempts (holders k w.tasks)) e (valid.fits k)) in
      elim (Bool-cases (text_eq k id)) [
        | inl h ↦
            subst
              (λ i.
                Fits c.max_attempts (holders i (w.tasks ++ (t ∷ [])))
                  (update k (some (started j)) w.jobs.row i))
              ((text_eq_iff k id).0 h)
              (subst (λ p. Fits c.max_attempts (holders k (w.tasks ++ (t ∷ []))) p)
                (sym (update_self k (some (started j)) w.jobs.row))
                (
                  omega (arith, holders-launched k w.tasks t, known.0, one_at_most (holds k t)),
                  omega (arith, known.1),
                  omega (arith, known.1),
                ))
        | inr h ↦
            subst (λ p. Fits c.max_attempts (holders id (w.tasks ++ (t ∷ []))) p)
              (sym (update-ne k id (some (started j)) w.jobs.row h))
              (Fits-le c.max_attempts (holders id w.tasks) (holders id (w.tasks ++ (t ∷ [])))
                (w.jobs.row id)
                (omega
                  (arith, holders-launched id w.tasks t, none_if (holds id t) (holds-ne id t h)))
                (valid.fits id))
      ]

  launched-IsValid :
      (locked : Text → Bool) (o : Option (Text × OutboxJob))
      → 0 < w.free
      → IsFound c.max_attempts locked w.jobs.row o
      → IsValid c (launched w (take_row w.jobs o))
  unfolding launched take_row
  launched-IsValid locked none free found = record { fits = valid.fits; permits = valid.permits }
  launched-IsValid locked (some a) free found = record {
    fits = taken-Fits a.0 a.1 found.0 found.1;
    permits = omega (
      arith,
      valid.permits,
      free,
      length-append w.tasks (record { job_id = a.0; job = started a.1; stage = handling } ∷ []),
    );
  }

  poll_jobs-IsValid : (locked : Text → Bool) → 0 < w.free → IsValid c (poll_jobs c locked w)
  unfolding poll_jobs dequeue
  poll_jobs-IsValid locked free =
      launched-IsValid locked (earliest c.max_attempts locked w.jobs.row w.jobs.ids) free
        (earliest-IsFound c.max_attempts locked w.jobs.row w.jobs.ids)

valid-if :
    (c : Settings) (b : Bool) (u v : Worker)
    → IsValid c u
    → IsValid c v
    → IsValid c (if b then u else v)
valid-if c true u v hu hv = hu
valid-if c false u v hu hv = hv

start_worker-IsValid : (c : Settings) (w : Worker) → IsValid c w → IsValid c (start_worker c w.jobs)
unfolding start_worker holders
start_worker-IsValid c w valid = record {
  fits = λ id.
      Fits-le c.max_attempts (holders id w.tasks) 0 (w.jobs.row id) (omega arith) (valid.fits id);
  permits = omega arith;
}

-- Every step keeps the invariant: an enqueued job, a poll, an answer of the handler, a failure that
-- is recorded or is not, the end of a wait, and a restart of the worker.
pub Step-IsValid :
    (c : Settings) (w v : Worker) → 0 < c.max_attempts → Step c w v → IsValid c w → IsValid c v
unfolding mark_done mark_failed settle_failure is_live
Step-IsValid c w _ positive (enqueued id job_type payload now e) valid =
    enqueue-Fits c w id job_type payload now e valid
Step-IsValid c w _ positive (polled locked free) valid =
    poll_jobs-IsValid c w positive valid locked free
Step-IsValid c w _ positive (handled before t after e s) valid =
    ended c w before t after valid e w.fail_timestamps (mark_done t.job_id w.jobs) (
      marked-Fits c w before t after valid e finished (ap is_live s) (finished-Fits c.max_attempts))
Step-IsValid c w _ positive (failing message before t after e s) valid =
    replaced c w before t after valid e (raised (take 500 message)) w.fail_timestamps w.jobs
      (still-Fits c w before t after valid e (raised (take 500 message)) (ap is_live s))
Step-IsValid c w _ positive (noted message now before t after e s) valid =
    let jobs = mark_failed c.max_attempts (some message) t.job_id w.jobs in
    let fits =
      marked-Fits c w before t after valid e (with_failure c.max_attempts (some message))
        (ap is_live s) (with_failure-Fits c.max_attempts (some message)) in
    let recent = recent_fails c now w.fail_timestamps in
    valid-if c (ltb t.job.attempts c.max_attempts) _ _
      (valid-if c (leb 3 (length recent)) _ _ (asleep c w before t after valid e recent jobs fits)
        (ended c w before t after valid e recent jobs fits))
      (ended c w before t after valid e w.fail_timestamps jobs fits)
Step-IsValid c w _ positive (unrecorded message before t after e s) valid =
    ended c w before t after valid e w.fail_timestamps w.jobs (left-Fits c w before t after valid e)
Step-IsValid c w _ positive (woken before t after e s) valid =
    ended c w before t after valid e [] w.jobs (left-Fits c w before t after valid e)
Step-IsValid c w _ positive restarted valid = start_worker-IsValid c w valid

-- In every state that a valid one leads to, a job has been tried at most `max_attempts` times, and
-- its attempts agree with its status; a job that is not being processed is held by no task, and one
-- that is by at most one; and the free permits and the tasks add up to `max_concurrency`.
pub Reach-IsValid :
    (c : Settings) (w v : Worker) → 0 < c.max_attempts → IsValid c w → Reach c w v → IsValid c v
Reach-IsValid c w _ positive valid here = valid
Reach-IsValid c w v positive valid (later {u} r s) =
    Step-IsValid c u v positive s (Reach-IsValid c w u positive valid r)
