-- ===== src/Outbox/Serial.antt =====
-- A worker of backend/src/kosmo/infrastructure/persistence/postgres/outbox.py with one task at a time
-- (`max_concurrency = 1`), whose store does not fail.
pub mod Measure
pub mod Drained
pub mod Runs
use kosmo.Base.{
  ℕ, zero, suc, ◌≤◌, ◌<◌, ◌+◌, ◌-◌, ◌*◌, Bool, true, false, not, ◌&&◌, Option, none, some, List, [],
  ◌∷◌, ◌++◌, ◌≡◌, refl, ap, sym, ◌∙◌, subst, ltb, leb, if◌then◌else◌, Option-cases, Bool-cases,
  arith, inl, inr, length, All, any,
}
use kosmo.Base.Text.{Text, text_eq, text_eq_iff, take}
use kosmo.Base.Tables.{Table, update, update_self, update-ne}
use kosmo.Outbox.{
  JobStatus, pending, processing, done, failed, dead, OutboxJob, Jobs, is_available, candidate,
  sooner, earliest, dequeue, started, take_row, change, finished, mark_done, with_failure,
  mark_failed,
}
use kosmo.Outbox.Earliest.{IsFound, earliest-IsFound}
use kosmo.Outbox.Keeps.{change_self, change-ne}

-- What the handler answers for a job that is tried: `none`, or the message of its exception.
abbrev pub Handler : Type 0
Handler = Text → OutboxJob → Option Text

-- `_process_job`, once the handler has answered.
unfoldable pub marked_by : ℕ → Text → Option Text → Jobs → Jobs
unfolding mark_done mark_failed
marked_by max_attempts id none jobs = mark_done id jobs
marked_by max_attempts id (some message) jobs =
    mark_failed max_attempts (some (take 500 message)) id jobs

unfoldable pub process_job : ℕ → Handler → Option (Text × OutboxJob) × Jobs → Jobs
unfolding marked_by
process_job max_attempts handler (none, jobs) = jobs
process_job max_attempts handler (some a, jobs) = marked_by max_attempts a.0 (handler a.0 a.1) jobs

-- So many passes of the loop of `run_outbox_worker`.
unfoldable pub work : ℕ → Handler → ℕ → Jobs → Jobs
unfolding process_job dequeue
work max_attempts handler zero jobs = jobs
work max_attempts handler (suc n) jobs =
    work max_attempts handler n
      (process_job max_attempts handler (dequeue max_attempts (λ _. false) jobs))
