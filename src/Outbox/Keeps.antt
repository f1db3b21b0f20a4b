-- ===== src/Outbox/Keeps.antt =====
-- The tasks that hold a job, and the invariant when one of them moves on, for
-- backend/src/kosmo/infrastructure/persistence/postgres/outbox.py.
use kosmo.Base.{
  ℕ, suc, ◌≤◌, ◌+◌, Bool, true, false, some, List, ◌∷◌, ◌++◌, ◌≡◌, refl, ap, sym, subst,
  if◌then◌else◌, Option-cases, Bool-cases, arith, inl, inr, length, count_if-middle, length-middle,
}
use kosmo.Base.Text.{Text, text_eq, text_eq_iff}
use kosmo.Base.Tables.{update_self, update-ne}
use kosmo.Outbox.{OutboxJob, Jobs, change}
use kosmo.Outbox.Worker.{Stage, backing_off, Task, Worker, Settings, is_live, holds, holders}
use kosmo.Outbox.Invariant.{Fits, IsValid, Fits-le, IsProcessed, Fits-IsProcessed}

pub change_self :
    (id : Text) (f : OutboxJob → OutboxJob) (jobs : Jobs) (j : OutboxJob)
    → jobs.row id ≡ some j
    → (change id f jobs).row id ≡ some (f j)
unfolding change
change_self id f jobs j e = rw (e, change) (update_self id (some (f j)) jobs.row)

pub change-ne :
    (id k : Text) (f : OutboxJob → OutboxJob) (jobs : Jobs)
    → text_eq id k ≡ false
    → (change id f jobs).row k ≡ jobs.row k
unfolding change
change-ne id k f jobs h = elim (Option-cases (jobs.row id)) [
  | inl e ↦ rw (e, change) refl
  | inr e ↦ rw (e.1, change) (update-ne id k (some (f e.0)) jobs.row h)
]

pub holders-middle :
    (id : Text) (before : List Task) (t : Task) (after : List Task)
    → holders id (before ++ (t ∷ after))
      ≡ holders id (before ++ after) + (if holds id t then 1 else 0)
unfolding holders
holders-middle id before t after = count_if-middle (holds id) before t after

pub holds_self : (t : Task) → is_live t.stage ≡ true → holds t.job_id t ≡ true
unfolding holds
holds_self t h = ground (arith, h, text_eq_iff t.job_id t.job_id)

pub holds-stage :
    (id : Text) (t : Task) (s : Stage)
    → is_live t.stage ≡ true
    → (let n : ℕ = if holds id (record t { stage = s }) then 1 else 0 in n)
      ≤ (let n : ℕ = if holds id t then 1 else 0 in n)
unfolding holds
holds-stage id t s h = ground (arith, h)

one_if : (b : Bool) → b ≡ true → (let n : ℕ = if b then 1 else 0 in n) ≡ 1
one_if b h = rw h refl

pub none_if : (b : Bool) → b ≡ false → (let n : ℕ = if b then 1 else 0 in n) ≡ 0
none_if b h = rw h refl

pub holds-ne : (id : Text) (t : Task) → text_eq t.job_id id ≡ false → holds id t ≡ false
unfolding holds
holds-ne id t h = rw h refl

pub holds-asleep : (id : Text) (t : Task) → is_live t.stage ≡ false → holds id t ≡ false
unfolding holds
holds-asleep id t h = ground (arith, h)

module _ (c : Settings) (w : Worker) (before : List Task) (t : Task) (after : List Task)
    (valid : IsValid c w) (tasks : w.tasks ≡ before ++ (t ∷ after)) where
  Fits-split :
      (id : Text) → Fits c.max_attempts (holders id (before ++ (t ∷ after))) (w.jobs.row id)
  Fits-split id =
      subst (λ ts. Fits c.max_attempts (holders id ts) (w.jobs.row id)) tasks (valid.fits id)

  -- What a task that still has to mark its job knows of it.
  pub held_job :
      is_live t.stage ≡ true
      → (j : OutboxJob) × (w.jobs.row t.job_id ≡ some j)
        × IsProcessed c.max_attempts (some j)
        × (holders t.job_id (before ++ after) ≡ 0)
  held_job live =
      let n = holders t.job_id (before ++ (t ∷ after)) in
      let more : n ≡ holders t.job_id (before ++ after) + 1 = omega (
        arith,
        holders-middle t.job_id before t after,
        one_if (holds t.job_id t) (holds_self t live),
      ) in
      let known =
        Fits-IsProcessed c.max_attempts n (w.jobs.row t.job_id) (omega (arith, more))
          (Fits-split t.job_id) in
      elim (Option-cases (w.jobs.row t.job_id)) [
        | inl e ↦ absurd (subst (IsProcessed c.max_attempts) e known.1)
        | inr e ↦
            (e.0, e.1, subst (IsProcessed c.max_attempts) e.1 known.1, omega (arith, more, known.0))
      ]

  fewer_hold : (id : Text) → holders id (before ++ after) ≤ holders id (before ++ (t ∷ after))
  fewer_hold id = omega (arith, holders-middle id before t after)

  -- The task ends, and the rows stay.
  pub left-Fits : (id : Text) → Fits c.max_attempts (holders id (before ++ after)) (w.jobs.row id)
  left-Fits id =
      Fits-le c.max_attempts (holders id (before ++ (t ∷ after))) (holders id (before ++ after))
        (w.jobs.row id) (fewer_hold id) (Fits-split id)

  -- The task marks its job by `f`, and ends.
  pub marked-Fits :
      (f : OutboxJob → OutboxJob)
      → is_live t.stage ≡ true
      → ((j : OutboxJob) → IsProcessed c.max_attempts (some j) → Fits c.max_attempts 0 (some (f j)))
      → (id : Text)
      → Fits c.max_attempts (holders id (before ++ after)) ((change t.job_id f w.jobs).row id)
  marked-Fits f live ok id = elim (Bool-cases (text_eq t.job_id id)) [
    | inl e ↦
        subst
          (λ k.
            Fits c.max_attempts (holders k (before ++ after)) ((change t.job_id f w.jobs).row k))
          ((text_eq_iff t.job_id id).0 e)
          (let h = held_job live in
            subst (λ o. Fits c.max_attempts (holders t.job_id (before ++ after)) o)
              (sym (change_self t.job_id f w.jobs h.0 h.1))
              (subst (λ n. Fits c.max_attempts n (some (f h.0))) (sym h.3) (ok h.0 h.2)))
    | inr e ↦
        subst (λ o. Fits c.max_attempts (holders id (before ++ after)) o)
          (sym (change-ne t.job_id id f w.jobs e)) (left-Fits id)
  ]

  permits_split : w.free + suc (length (before ++ after)) ≡ c.max_concurrency
  permits_split = omega (arith, valid.permits, ap length tasks, length-middle before t after)

  pub ended :
      (stamps : List ℕ) (jobs : Jobs)
      → ((id : Text) → Fits c.max_attempts (holders id (before ++ after)) (jobs.row id))
      → IsValid c (record {
        jobs = jobs;
        tasks = before ++ after;
        free = suc w.free;
        fail_timestamps = stamps;
      })
  ended stamps jobs h = record { fits = h; permits = omega (arith, permits_split) }

  pub replaced :
      (s : Stage) (stamps : List ℕ) (jobs : Jobs)
      → ((id : Text)
          → Fits c.max_attempts
              (holders id (before ++ (record t { stage = s } ∷ after)))
              (jobs.row id))
      → IsValid c (record {
        jobs = jobs;
        tasks = before ++ (record t { stage = s } ∷ after);
        free = w.free;
        fail_timestamps = stamps;
      })
  replaced s stamps jobs h = record {
    fits = h;
    permits = omega (arith, permits_split, length-middle before (record t { stage = s }) after);
  }

  pub asleep :
      (stamps : List ℕ) (jobs : Jobs)
      → ((id : Text) → Fits c.max_attempts (holders id (before ++ after)) (jobs.row id))
      → IsValid c (record {
        jobs = jobs;
        tasks = before ++ (record t { stage = backing_off } ∷ after);
        free = w.free;
        fail_timestamps = stamps;
      })
  unfolding is_live
  asleep stamps jobs h =
      let t' : Task = record t { stage = backing_off } in
      replaced backing_off stamps jobs (λ id.
        Fits-le c.max_attempts (holders id (before ++ after)) (holders id (before ++ (t' ∷ after)))
          (jobs.row id)
          (omega (
            arith,
            holders-middle id before t' after,
            none_if (holds id t') (holds-asleep id t' refl),
          ))
          (h id))

  -- A task that is still to mark its job, whatever it has to note.
  pub still-Fits :
      (s : Stage)
      → is_live t.stage ≡ true
      → (id : Text)
      → Fits c.max_attempts
          (holders id (before ++ (record t { stage = s } ∷ after)))
          (w.jobs.row id)
  still-Fits s live id =
      let t' : Task = record t { stage = s } in
      Fits-le c.max_attempts (holders id (before ++ (t ∷ after)))
        (holders id (before ++ (t' ∷ after))) (w.jobs.row id)
        (omega (
          arith,
          holders-middle id before t after,
          holders-middle id before t' after,
          holds-stage id t s live,
        ))
        (Fits-split id)
