-- ===== src/Outbox/Closed.antt =====
-- The jobs that no step changes, for
-- backend/src/kosmo/infrastructure/persistence/postgres/outbox.py.
use kosmo.Base.{
  ℕ, suc, Bool, true, false, Option, none, some, List, [], ◌∷◌, ◌++◌, ◌≡◌, refl, ap, sym, ◌∙◌,
  subst, ltb, leb, if◌then◌else◌, Bool-cases, arith, inl, inr, length,
}
use kosmo.Base.Text.{Text, text_eq, text_eq_iff, take}
use kosmo.Base.Tables.{update-ne}
use kosmo.Outbox.{
  OutboxJob, Jobs, is_available, earliest, enqueue, dequeue, started, take_row, change, finished,
  mark_done, with_failure, mark_failed,
}
use kosmo.Outbox.Earliest.{IsFound, earliest-IsFound}
use kosmo.Outbox.Worker.{
  Stage, handling, raised, backing_off, Task, Worker, Settings, start_worker, launched, poll_jobs,
  recent_fails, settle_failure, Step, enqueued, polled, handled, failing, noted, unrecorded, woken,
  restarted, Reach, here, later, is_live, holds, holders,
}
use kosmo.Outbox.Keeps.{none_if, holds-ne, change-ne, holders-middle}
use kosmo.Outbox.Steps.{holders-launched}

-- The job is stored as `j`, may not be taken, and no task holds it.
pub record IsClosed (c : Settings) (id : Text) (j : OutboxJob) (w : Worker) : Type 0 where
  pub stored : w.jobs.row id ≡ some j
  pub unheld : holders id w.tasks ≡ 0
  pub shut : is_available c.max_attempts j ≡ false

is_available-eq :
    (max : ℕ) (i j : OutboxJob)
    → is_available max i ≡ true
    → is_available max j ≡ false
    → some i ≡ some j
    → ⊥
is_available-eq max i j hi hj e = cc

module _ (c : Settings) (id : Text) (j : OutboxJob) (w : Worker) (closed : IsClosed c id j w) where
  launched-IsClosed :
      (locked : Text → Bool) (o : Option (Text × OutboxJob))
      → IsFound c.max_attempts locked w.jobs.row o
      → IsClosed c id j (launched w (take_row w.jobs o))
  unfolding launched take_row
  launched-IsClosed locked none found = record {
    stored = closed.stored;
    unheld = closed.unheld;
    shut = closed.shut;
  }
  launched-IsClosed locked (some a) found =
      let t : Task = record { job_id = a.0; job = started a.1; stage = handling } in
      let other : text_eq a.0 id ≡ false = elim (Bool-cases (text_eq a.0 id)) [
        | inl e ↦ absurd (
            is_available-eq c.max_attempts a.1 j found.1 closed.shut
              (sym found.0 ∙ ap w.jobs.row ((text_eq_iff a.0 id).0 e) ∙ closed.stored))
        | inr e ↦ e
      ] in
      record {
        stored = update-ne a.0 id (some (started a.1)) w.jobs.row other ∙ closed.stored;
        unheld = omega (
          arith,
          holders-launched id w.tasks t,
          closed.unheld,
          none_if (holds id t) (holds-ne id t other),
        );
        shut = closed.shut;
      }

  poll_jobs-IsClosed : (locked : Text → Bool) → IsClosed c id j (poll_jobs c locked w)
  unfolding poll_jobs dequeue
  poll_jobs-IsClosed locked =
      launched-IsClosed locked (earliest c.max_attempts locked w.jobs.row w.jobs.ids)
        (earliest-IsFound c.max_attempts locked w.jobs.row w.jobs.ids)

  enqueue-IsClosed :
      (k job_type payload : Text) (now : ℕ)
      → w.jobs.row k ≡ none
      → IsClosed c id j (record w { jobs = enqueue k job_type payload now w.jobs })
  unfolding enqueue
  enqueue-IsClosed k job_type payload now e =
      let other : text_eq k id ≡ false = elim (Bool-cases (text_eq k id)) [
        | inl h ↦
            let n : Option OutboxJob = none in
            let f : n ≡ some j = sym e ∙ ap w.jobs.row ((text_eq_iff k id).0 h) ∙ closed.stored in
            cc
        | inr h ↦ h
      ] in
      record {
        stored = update-ne k id _ w.jobs.row other ∙ closed.stored;
        unheld = closed.unheld;
        shut = closed.shut;
      }

  module _ (before : List Task) (t : Task) (after : List Task)
      (tasks : w.tasks ≡ before ++ (t ∷ after)) where
    unheld_split : holders id (before ++ (t ∷ after)) ≡ 0
    unheld_split = subst (λ ts. holders id ts ≡ 0) tasks closed.unheld

    other_job : is_live t.stage ≡ true → text_eq t.job_id id ≡ false
    unfolding holds
    other_job live =
        let h = holders-middle id before t after in let u = unheld_split in ground (arith, live)

    fewer : holders id (before ++ after) ≡ 0
    fewer = omega (arith, holders-middle id before t after, unheld_split)

    row_kept :
        (f : OutboxJob → OutboxJob)
        → is_live t.stage ≡ true
        → (change t.job_id f w.jobs).row id ≡ some j
    row_kept f live = change-ne t.job_id id f w.jobs (other_job live) ∙ closed.stored

    left-IsClosed :
        (jobs : Jobs) (free : ℕ) (stamps : List ℕ)
        → jobs.row id ≡ some j
        → IsClosed c id j
            (record { jobs = jobs; tasks = before ++ after; free = free; fail_timestamps = stamps })
    left-IsClosed jobs free stamps e = record { stored = e; unheld = fewer; shut = closed.shut }

    replaced-IsClosed :
        (s : Stage) (jobs : Jobs) (free : ℕ) (stamps : List ℕ)
        → is_live t.stage ≡ true
        → jobs.row id ≡ some j
        → IsClosed c id j (record {
          jobs = jobs;
          tasks = before ++ (record t { stage = s } ∷ after);
          free = free;
          fail_timestamps = stamps;
        })
    replaced-IsClosed s jobs free stamps live e = record {
      stored = e;
      unheld = omega (
        arith,
        fewer,
        holders-middle id before (record t { stage = s }) after,
        none_if (holds id (record t { stage = s }))
            (holds-ne id (record t { stage = s }) (other_job live)),
      );
      shut = closed.shut;
    }

IsClosed-if :
    (c : Settings) (id : Text) (j : OutboxJob) (b : Bool) (u v : Worker)
    → IsClosed c id j u
    → IsClosed c id j v
    → IsClosed c id j (if b then u else v)
IsClosed-if c id j true u v hu hv = hu
IsClosed-if c id j false u v hu hv = hv

start_worker-IsClosed :
    (c : Settings) (id : Text) (j : OutboxJob) (w : Worker)
    → IsClosed c id j w
    → IsClosed c id j (start_worker c w.jobs)
unfolding start_worker holders
start_worker-IsClosed c id j w h = record { stored = h.stored; unheld = refl; shut = h.shut }

pub Step-IsClosed :
    (c : Settings) (id : Text) (j : OutboxJob) (w v : Worker)
    → Step c w v
    → IsClosed c id j w
    → IsClosed c id j v
unfolding mark_done mark_failed settle_failure is_live
Step-IsClosed c id j w _ (enqueued k job_type payload now e) h =
    enqueue-IsClosed c id j w h k job_type payload now e
Step-IsClosed c id j w _ (polled locked free) h = poll_jobs-IsClosed c id j w h locked
Step-IsClosed c id j w _ (handled before t after e s) h =
    left-IsClosed c id j w h before t after e (mark_done t.job_id w.jobs) (suc w.free)
      w.fail_timestamps (row_kept c id j w h before t after e finished (ap is_live s))
Step-IsClosed c id j w _ (failing message before t after e s) h =
    replaced-IsClosed c id j w h before t after e (raised (take 500 message)) w.jobs w.free
      w.fail_timestamps (ap is_live s) h.stored
Step-IsClosed c id j w _ (noted message now before t after e s) h =
    let jobs = mark_failed c.max_attempts (some message) t.job_id w.jobs in
    let kept =
      row_kept c id j w h before t after e (with_failure c.max_attempts (some message))
        (ap is_live s) in
    let recent = recent_fails c now w.fail_timestamps in
    IsClosed-if c id j (ltb t.job.attempts c.max_attempts) _ _
      (IsClosed-if c id j (leb 3 (length recent)) _ _
        (replaced-IsClosed c id j w h before t after e backing_off jobs w.free recent (ap is_live s)
          kept)
        (left-IsClosed c id j w h before t after e jobs (suc w.free) recent kept))
      (left-IsClosed c id j w h before t after e jobs (suc w.free) w.fail_timestamps kept)
Step-IsClosed c id j w _ (unrecorded message before t after e s) h =
    left-IsClosed c id j w h before t after e w.jobs (suc w.free) w.fail_timestamps h.stored
Step-IsClosed c id j w _ (woken before t after e s) h =
    left-IsClosed c id j w h before t after e w.jobs (suc w.free) [] h.stored
Step-IsClosed c id j w _ restarted h = start_worker-IsClosed c id j w h

Reach-IsClosed :
    (c : Settings) (id : Text) (j : OutboxJob) (w v : Worker)
    → Reach c w v
    → IsClosed c id j w
    → IsClosed c id j v
Reach-IsClosed c id j w _ here h = h
Reach-IsClosed c id j w v (later {u} r s) h =
    Step-IsClosed c id j u v s (Reach-IsClosed c id j w u r h)

-- A job that may not be taken and that no task holds is never written again, whatever else
-- happens: one that is done or dead, and also one that a stopped worker has left in processing.
pub row-Reach :
    (c : Settings) (id : Text) (j : OutboxJob) (w v : Worker)
    → is_available c.max_attempts j ≡ false
    → w.jobs.row id ≡ some j
    → holders id w.tasks ≡ 0
    → Reach c w v
    → v.jobs.row id ≡ some j
row-Reach c id j w v shut stored unheld r =
    (Reach-IsClosed c id j w v r (record { stored = stored; unheld = unheld; shut = shut })).stored
