-- ===== src/Outbox/Serial/Drained.antt =====
-- The queue of a worker with one task at a time, for
-- backend/src/kosmo/infrastructure/persistence/postgres/outbox.py.
use kosmo.Base.{
  ℕ, zero, suc, ◌≤◌, ◌<◌, ◌*◌, Bool, true, false, Option, none, some, List, [], ◌∷◌, ◌≡◌, refl, ap,
  sym, ◌∙◌, subst, ltb, leb, Bool-cases, arith, inl, inr, length, All, any,
}
use kosmo.Base.Text.{Text, text_eq, text_eq_iff}
use kosmo.Base.Tables.{Table, update, update_self, update-ne}
use kosmo.Outbox.{
  processing, done, failed, dead, OutboxJob, Jobs, is_available, earliest, dequeue, started,
  take_row, finished, with_failure,
}
use kosmo.Outbox.Earliest.{IsFound, earliest-IsFound}
use kosmo.Outbox.Serial.{Handler, marked_by, process_job, work}
use kosmo.Outbox.Serial.Measure.{
  tries, total, total-le, total-update-lt, outcome, marked_by_self, marked_by-ne, marked_by-ids,
  tries-outcome, IsSearched, earliest-IsSearched,
}

-- A row that waits for the worker, or that it is through with.
abbrev pub is_queued : ℕ → Option OutboxJob → Bool
is_queued max none = true
is_queued max (some j) = elim j.status [
  | processing ↦ false
  | failed ↦ ltb j.attempts max
  | _ ↦ true
]

abbrev pub is_ended : Option OutboxJob → Bool
is_ended none = true
is_ended (some j) = elim j.status [ done ↦ true | dead ↦ true | _ ↦ false ]

abbrev Queued : ℕ → Table OutboxJob → Type 0
Queued max row = (id : Text) → is_queued max (row id) ≡ true

tries-is_ended :
    (max : ℕ) (o : Option OutboxJob) → is_queued max o ≡ true → tries max o ≡ 0 → is_ended o ≡ true
unfolding tries is_available
tries-is_ended max none q h = refl
tries-is_ended max (some j) q h = ground (arith, q, h)

outcome-is_queued :
    (max : ℕ) (answer : Option Text) (j : OutboxJob)
    → is_queued max (some (outcome max answer j)) ≡ true
unfolding finished with_failure
outcome-is_queued max none j = refl
outcome-is_queued max (some message) j = elim (Bool-cases (leb max j.attempts)) [
  | inl e ↦ rw e refl
  | inr e ↦ rw e (ground (arith, e))
]

-- What one pass of the loop leaves.
record Passed (max : ℕ) (jobs v : Jobs) : Type 0 where
  same_ids : v.ids ≡ jobs.ids
  queued : Queued max v.row
  fewer : (n : ℕ) → total max jobs.row jobs.ids ≤ suc n → total max v.row jobs.ids ≤ n

module _ (max : ℕ) (handler : Handler) (jobs : Jobs) (q : Queued max jobs.row) where
  taken-Passed :
      (a : Text × OutboxJob)
      → jobs.row a.0 ≡ some a.1
      → is_available max a.1 ≡ true
      → any (text_eq a.0) jobs.ids ≡ true
      → Passed max jobs (process_job max handler (take_row jobs (some a)))
  unfolding process_job take_row
  taken-Passed a stored available member =
      let jobs1 : Jobs = record jobs { row = update a.0 (some (started a.1)) jobs.row } in
      let answer = handler a.0 (started a.1) in
      let v = marked_by max a.0 answer jobs1 in
      let at : v.row a.0 ≡ some (outcome max answer (started a.1)) =
        marked_by_self max a.0 jobs1 answer (started a.1)
          (update_self a.0 (some (started a.1)) jobs.row) in
      let other : (id : Text) → text_eq a.0 id ≡ false → v.row id ≡ jobs.row id = λ id e.
        marked_by-ne max a.0 jobs1 answer id e ∙ update-ne a.0 id (some (started a.1)) jobs.row e in
      let less : tries max (v.row a.0) < tries max (jobs.row a.0) =
        omega (
          arith,
          ap (tries max) at,
          ap (tries max) stored,
          tries-outcome max answer a.1 available,
        ) in
      record {
        same_ids = marked_by-ids max a.0 jobs1 answer;
        queued = λ id. elim (Bool-cases (text_eq a.0 id)) [
          | inl e ↦
              subst (λ i. is_queued max (v.row i) ≡ true) ((text_eq_iff a.0 id).0 e)
                (ap (is_queued max) at ∙ outcome-is_queued max answer (started a.1))
          | inr e ↦ ap (is_queued max) (other id e) ∙ q id
        ];
        fewer = λ n l.
            omega (arith, l, total-update-lt max a.0 jobs.row v.row other jobs.ids less member);
      }

  pass-Passed :
      (o : Option (Text × OutboxJob))
      → IsFound max (λ _. false) jobs.row o
      → IsSearched max jobs.row jobs.ids o
      → Passed max jobs (process_job max handler (take_row jobs o))
  unfolding process_job take_row
  pass-Passed none found searched = record {
    same_ids = refl;
    queued = q;
    fewer = λ n l. omega (arith, searched);
  }
  pass-Passed (some a) found searched = taken-Passed a found.0 found.1 searched

is_ended-All :
    (max : ℕ) (row : Table OutboxJob) (ids : List Text)
    → Queued max row
    → total max row ids ≡ 0
    → All (λ id. is_ended (row id) ≡ true) ids
unfolding total
is_ended-All max row [] q h = tt
is_ended-All max row (id ∷ ids) q h = (
  tries-is_ended max (row id) (q id) (omega (arith, h)),
  is_ended-All max row ids q (omega (arith, h)),
)

work-total :
    (max : ℕ) (handler : Handler) (n : ℕ) (jobs : Jobs)
    → Queued max jobs.row
    → total max jobs.row jobs.ids ≤ n
    → All (λ id. is_ended ((work max handler n jobs).row id) ≡ true) jobs.ids
unfolding work dequeue
work-total max handler zero jobs q l = is_ended-All max jobs.row jobs.ids q (omega (arith, l))
work-total max handler (suc n) jobs q l =
    let o = earliest max (λ _. false) jobs.row jobs.ids in
    let p =
      pass-Passed max handler jobs q o (earliest-IsFound max (λ _. false) jobs.row jobs.ids)
        (earliest-IsSearched max jobs.row jobs.ids) in
    let v = process_job max handler (take_row jobs o) in
    subst (λ ids. All (λ id. is_ended ((work max handler n v).row id) ≡ true) ids) p.same_ids
      (work-total max handler n v p.queued
        (subst (λ ids. total max v.row ids ≤ n) (sym p.same_ids) (p.fewer n l)))

-- A worker that runs one task at a time, and whose store answers, is through with every job of a
-- table in which no job is being processed after at most `max_attempts` passes for each job:
-- each is done or dead then, whatever the handler answers.
pub work-is_ended :
    (max : ℕ) (handler : Handler) (n : ℕ) (jobs : Jobs)
    → 0 < max
    → ((id : Text) → is_queued max (jobs.row id) ≡ true)
    → length jobs.ids * max ≤ n
    → All (λ id. is_ended ((work max handler n jobs).row id) ≡ true) jobs.ids
work-is_ended max handler n jobs positive q l =
    work-total max handler n jobs q (omega (arith, l, total-le max jobs.row jobs.ids positive))
