-- ===== src/Deployment/Active.antt =====
-- backend/src/kosmo/infrastructure/integrations/deployment_worker.py: the table of active tasks of
-- `DeploymentPollingWorker`, for one project; the entries of the others are not touched.
use kosmo.Base.{
  ℕ, suc, ◌⊎◌, Bool, true, false, Option, none, some, ◌≡◌, ◌==◌, if◌then◌else◌, ==_iff, arith,
  Bool-cases, inl, inr, ap, sym, ◌∙◌,
}

-- The tasks are numbered. `running` are those that are not done, `ending` those that are done and
-- whose done callback has not run; `asked_to_stop` are cancelled, and still run.
pub record Polling : Type 0 where
  pub active : Option ℕ
  pub running : ℕ → Bool
  pub ending : ℕ → Bool
  pub asked_to_stop : ℕ → Bool
  pub next : ℕ

unfoldable pub with_task : ℕ → Bool → (ℕ → Bool) → ℕ → Bool
with_task k b f n = if n == k then b else f n

unfoldable pub active_runs : Option ℕ → (ℕ → Bool) → Bool
active_runs none running = false
active_runs (some k) running = running k

-- `is_monitoring`.
unfoldable pub is_monitoring : Polling → Bool
unfolding active_runs
is_monitoring w = active_runs w.active w.running

-- `start_monitoring`: the task that runs, or a new one.
unfoldable pub start_monitoring : Polling → Polling
unfolding is_monitoring with_task
start_monitoring w = if is_monitoring w then w else record w {
  active = some w.next;
  running = with_task w.next true w.running;
  next = suc w.next;
}

-- A task is done, and its callback, which empties the entry whatever task it holds.
unfoldable pub task_done : ℕ → Polling → Polling
unfolding with_task
task_done k w =
    if w.running k
    then record w { running = with_task k false w.running; ending = with_task k true w.ending }
    else w

unfoldable pub cleanup : ℕ → Polling → Polling
unfolding with_task
cleanup k w =
    if w.ending k then record w { active = none; ending = with_task k false w.ending } else w

unfoldable pub ask_to_stop : Option ℕ → Polling → Polling
unfolding with_task
ask_to_stop none w = w
ask_to_stop (some k) w = record w { asked_to_stop = with_task k true w.asked_to_stop }

-- `cancel_monitoring`.
unfoldable pub cancel_monitoring : Polling → Bool × Polling
unfolding is_monitoring ask_to_stop
cancel_monitoring w = if is_monitoring w then (true, ask_to_stop w.active w) else (false, w)

-- One step; a task is started only while no callback is due.
pub data Polls (w : Polling) : Polling → Type 0 where
  launching : ((k : ℕ) → w.ending k ≡ false) → Polls w (start_monitoring w)
  finishing : (k : ℕ) → Polls w (task_done k w)
  cleaning_up : (k : ℕ) → Polls w (cleanup k w)
  stopping : Polls w (cancel_monitoring w).1

pub data PollsTo (w : Polling) : Polling → Type 0 where
  here : PollsTo w w
  later : {u v : Polling} → PollsTo w u → Polls u v → PollsTo w v

-- A task that runs, or whose callback is due, is the one of the entry, and not both.
pub record IsSingle (w : Polling) : Type 0 where
  pub runs : (k : ℕ) → w.running k ≡ true → w.active ≡ some k
  pub ends : (k : ℕ) → w.ending k ≡ true → (w.active ≡ some k) × (w.running k ≡ false)

abbrev pub idle_polling : Polling
idle_polling = record {
  active = none;
  running = λ k. false;
  ending = λ k. false;
  asked_to_stop = λ k. false;
  next = 0;
}

some_inj : (k n : ℕ) → some k ≡ some n → k ≡ n
some_inj k n e = cc

with_task_same : (k : ℕ) (b : Bool) (f : ℕ → Bool) → with_task k b f k ≡ b
unfolding with_task
with_task_same k b f = ground (arith, ==_iff k k)

with_task-cases : (k n : ℕ) (b : Bool) (f : ℕ → Bool) → (n ≡ k) ⊎ (with_task k b f n ≡ f n)
unfolding with_task
with_task-cases k n b f = ground (arith, ==_iff n k)

module _ (w : Polling) (s : IsSingle w) where
  same_active : (k n : ℕ) → w.active ≡ some k → w.active ≡ some n → n ≡ k
  same_active k n ek en = some_inj n k (sym en ∙ ek)

  idle_runs_none : is_monitoring w ≡ false → (k : ℕ) → w.running k ≡ true → ⊥
  unfolding is_monitoring active_runs
  idle_runs_none h k r =
      let f : w.running k ≡ false = sym (ap (λ a. active_runs a w.running) (s.runs k r)) ∙ h in
      ground (arith, f, r)

  start_monitoring-IsSingle : ((k : ℕ) → w.ending k ≡ false) → IsSingle (start_monitoring w)
  unfolding start_monitoring
  start_monitoring-IsSingle quiet = elim (Bool-cases (is_monitoring w)) [
    | inl m ↦ rw (m, start_monitoring) s
    | inr m ↦
        rw (m, start_monitoring)
          (record {
            runs = λ k r. elim (with_task-cases w.next k true w.running) [
              | inl e ↦ ap some (sym e)
              | inr e ↦ absurd (idle_runs_none m k (sym e ∙ r))
            ];
            ends = λ k e. let f = quiet k in absurd (ground (arith, f, e));
          })
  ]

  task_done-IsSingle : (k : ℕ) → IsSingle (task_done k w)
  unfolding task_done
  task_done-IsSingle k = elim (Bool-cases (w.running k)) [
    | inl r ↦
        rw (r, task_done)
          (record {
            runs = λ n h. elim (with_task-cases k n false w.running) [
              | inl e ↦
                  let f = ap (with_task k false w.running) e ∙ with_task_same k false w.running in
                  absurd (ground (arith, f, h))
              | inr e ↦ s.runs n (sym e ∙ h)
            ];
            ends = λ n h. elim (with_task-cases k n true w.ending) [
              | inl e ↦ (
                s.runs k r ∙ ap some (sym e),
                ap (with_task k false w.running) e ∙ with_task_same k false w.running,
              )
              | inr e ↦
                  let known = s.ends n (sym e ∙ h) in
                  let f = ap w.running (same_active k n (s.runs k r) known.0) in
                  absurd (ground (arith, known.1, f, r))
            ];
          })
    | inr r ↦ rw (r, task_done) s
  ]

  cleanup-IsSingle : (k : ℕ) → IsSingle (cleanup k w)
  unfolding cleanup
  cleanup-IsSingle k = elim (Bool-cases (w.ending k)) [
    | inl r ↦
        let known = s.ends k r in
        rw (r, cleanup)
          (record {
            runs = λ n h.
                let f = ap w.running (same_active k n known.0 (s.runs n h)) in
                absurd (ground (arith, known.1, f, h));
            ends = λ n h. elim (with_task-cases k n false w.ending) [
              | inl e ↦
                  let f = ap (with_task k false w.ending) e ∙ with_task_same k false w.ending in
                  absurd (ground (arith, f, h))
              | inr e ↦
                  let same = same_active k n known.0 (s.ends n (sym e ∙ h)).0 in
                  let f = ap (with_task k false w.ending) same ∙ with_task_same k false w.ending in
                  absurd (ground (arith, f, h))
            ];
          })
    | inr r ↦ rw (r, cleanup) s
  ]

  ask_to_stop-IsSingle : (o : Option ℕ) → IsSingle (ask_to_stop o w)
  unfolding ask_to_stop
  ask_to_stop-IsSingle none = s
  ask_to_stop-IsSingle (some k) = record { runs = s.runs; ends = s.ends }

  cancel_monitoring-IsSingle : IsSingle (cancel_monitoring w).1
  unfolding cancel_monitoring
  cancel_monitoring-IsSingle = elim (Bool-cases (is_monitoring w)) [
    | inl m ↦ rw (m, cancel_monitoring) (ask_to_stop-IsSingle w.active)
    | inr m ↦ rw (m, cancel_monitoring) s
  ]

Polls-IsSingle : (w v : Polling) → Polls w v → IsSingle w → IsSingle v
Polls-IsSingle w _ (launching quiet) s = start_monitoring-IsSingle w s quiet
Polls-IsSingle w _ (finishing k) s = task_done-IsSingle w s k
Polls-IsSingle w _ (cleaning_up k) s = cleanup-IsSingle w s k
Polls-IsSingle w _ stopping s = cancel_monitoring-IsSingle w s

PollsTo-IsSingle : (w v : Polling) → PollsTo w v → IsSingle w → IsSingle v
PollsTo-IsSingle w _ here s = s
PollsTo-IsSingle w v (later {u} r t) s = Polls-IsSingle u v t (PollsTo-IsSingle w u r s)

idle_polling-IsSingle : IsSingle idle_polling
idle_polling-IsSingle = record {
  runs = λ k h. absurd (ground (arith, h));
  ends = λ k h. absurd (ground (arith, h));
}

-- As long as no task is started between the end of another and its callback, at most one task of a
-- project runs at any time, and then the worker says that it is monitoring it.
pub is_monitoring-PollsTo :
    (w : Polling) (i j : ℕ)
    → PollsTo idle_polling w
    → w.running i ≡ true
    → w.running j ≡ true
    → (i ≡ j) × (is_monitoring w ≡ true)
unfolding is_monitoring
is_monitoring-PollsTo w i j r hi hj =
    let s = PollsTo-IsSingle idle_polling w r idle_polling-IsSingle in
    (
      same_active w s j i (s.runs j hj) (s.runs i hi),
      ap (λ a. active_runs a w.running) (s.runs i hi) ∙ hi,
    )
