-- ===== src/Streaming/Ends.antt =====
-- Whole runs and their subscribers, and the end of a subscriber, for
-- backend/src/kosmo/infrastructure/api/implementation_broker.py.
use mathlib.Core.List.{append-nil, append_assoc}
use kosmo.Base.{
  ℕ, zero, suc, ◌+◌, ◌<◌, Bool, true, false, not, Option, none, some, List, [], ◌∷◌, ◌++◌,
  if◌then◌else◌, ◌≡◌, refl, ap, sym, ◌∙◌, arith, Bool-cases, Option-cases, inl, inr, ==_iff, length,
  all,
}
use kosmo.Base.Text.{Text}
use kosmo.Streaming.{
  OpenCodeEvent, Reader, Broker, read, advance, wait, done_reader, publish, publish_each,
  ending_events, is_current_task, close_run, emit, finish_run, events_of, new_reader, set_reader,
  subscribe, start_implementation, Ending, Op, starting, emitting, ending, purge_due, subscribing,
  reading, leaving, closing, perform, run_ops,
}
use kosmo.Streaming.Readers.{told, is_shut, until_end, has_end}
use kosmo.Streaming.Heard.{published, heard_until_end, is_leaving, told-run_ops}

-- Everything that is published from a state on.
abbrev pub emitted : List Op → Broker → List OpenCodeEvent
emitted [] b = []
emitted (op ∷ ops) b = published op b ++ emitted ops (perform op b)

-- Within one run: nothing is started, purged or closed.
abbrev pub is_within : Op → Bool
is_within (starting p) = false
is_within purge_due = false
is_within closing = false
is_within _ = true

history-publish_each :
    (es : List OpenCodeEvent) (b : Broker)
    → events_of (publish_each es b).history ≡ events_of b.history ++ es
unfolding publish_each publish
history-publish_each [] b = sym (append-nil (events_of b.history))
history-publish_each (x ∷ es) b =
    history-publish_each es (publish x b) ∙ append_assoc (events_of b.history) (x ∷ []) es

close_run-history : (k : ℕ) (b : Broker) → (close_run k b).history ≡ b.history
unfolding close_run
close_run-history k b = elim (Bool-cases (is_current_task k b.current)) [
  | inl c ↦ rw (c, close_run) refl
  | inr c ↦ rw (c, close_run) refl
]

module _ (b : Broker) where
  finish_run-history :
      (k : ℕ) (how : Ending)
      → events_of (finish_run k how b).history
        ≡ events_of b.history ++ (if b.alive k then ending_events b.implementation_id how else [])
  unfolding finish_run
  finish_run-history k how = elim (Bool-cases (b.alive k)) [
    | inl a ↦
        rw (a, finish_run)
          (ap events_of
              (close_run-history k (publish_each (ending_events b.implementation_id how) b))
            ∙ history-publish_each (ending_events b.implementation_id how) b)
    | inr a ↦ rw (a, finish_run) (sym (append-nil (events_of b.history)))
  ]

  perform-history :
      (op : Op)
      → is_within op ≡ true
      → events_of (perform op b).history ≡ events_of b.history ++ published op b
  unfolding perform emit publish subscribe
  perform-history (starting p) w = absurd (ground (arith, w))
  perform-history (emitting k x) w = elim (Bool-cases (b.alive k)) [
    | inl a ↦ rw (a, emit) refl
    | inr a ↦ rw (a, emit) (sym (append-nil (events_of b.history)))
  ]
  perform-history (ending k how) w = finish_run-history k how
  perform-history purge_due w = absurd (ground (arith, w))
  perform-history (subscribing i) w = elim (Option-cases (b.readers i)) [
    | inl n ↦ rw (n, perform) (sym (append-nil (events_of b.history)))
    | inr s ↦ rw (s.1, perform) (sym (append-nil (events_of b.history)))
  ]
  perform-history (reading i) w = elim (Option-cases (b.readers i)) [
    | inl n ↦ rw (n, perform) (sym (append-nil (events_of b.history)))
    | inr s ↦ rw (s.1, perform) (sym (append-nil (events_of b.history)))
  ]
  perform-history (leaving i) w = sym (append-nil (events_of b.history))
  perform-history closing w = absurd (ground (arith, w))

run_ops-history :
    (ops : List Op) (b : Broker)
    → all is_within ops ≡ true
    → events_of (run_ops ops b).history ≡ events_of b.history ++ emitted ops b
unfolding run_ops
run_ops-history [] b w = sym (append-nil (events_of b.history))
run_ops-history (op ∷ ops) b w =
    run_ops-history ops (perform op b) (ground (arith, w))
    ∙ ap (λ h. h ++ emitted ops (perform op b)) (perform-history b op (ground (arith, w)))
    ∙ append_assoc (events_of b.history) (published op b) (emitted ops (perform op b))

abbrev pub is_over : Option ℕ → Bool
is_over none = true
is_over (some k) = false

told-new_reader :
    (h : Option (List OpenCodeEvent)) (c : Option ℕ) → told (new_reader h c) ≡ events_of h
unfolding new_reader
told-new_reader h none = append-nil (events_of h)
told-new_reader h (some k) = append-nil (events_of h)

is_shut-new_reader :
    (h : Option (List OpenCodeEvent)) (c : Option ℕ) → is_shut (new_reader h c) ≡ is_over c
unfolding new_reader
is_shut-new_reader h none = refl
is_shut-new_reader h (some k) = refl

-- A subscriber that comes after a start, and before the broker starts that implementation again, purges
-- its history or closes, is to give every event that is published since that start, before it came and
-- after, in their order and each of them once, up to the end; whatever happens while it stays.
pub told-subscribe :
    (p : Option Text) (before after : List Op) (i : ℕ) (b : Broker)
    → all is_within before ≡ true
    → all (λ op. not (is_leaving i op)) after ≡ true
    → (let b' = run_ops before (start_implementation p b) in
        (r : Reader) × ((run_ops after (subscribe i b')).readers i ≡ some r)
        × (told r
            ≡ emitted before (start_implementation p b)
              ++ heard_until_end after (subscribe i b') (is_over b'.current)))
unfolding subscribe set_reader start_implementation
told-subscribe p before after i b w l =
    let b' = run_ops before (start_implementation p b) in
    let r = new_reader b'.history b'.current in
    let found : (subscribe i b').readers i ≡ some r = ground (arith, ==_iff i i) in
    let t = told-run_ops after i (subscribe i b') r found l in
    (
      t.0,
      t.1,
      t.2
          ∙ ap (λ s. told r ++ heard_until_end after (subscribe i b') s)
              (is_shut-new_reader b'.history b'.current)
          ∙ ap (λ h. h ++ heard_until_end after (subscribe i b') (is_over b'.current))
              (told-new_reader b'.history b'.current
                ∙ run_ops-history before (start_implementation p b) w),
    )

-- So many steps of the generator of a subscriber.
abbrev pub drain : ℕ → Reader → Reader
drain zero r = r
drain (suc n) r = drain n (read r)

drain-done_reader : (n : ℕ) (o : List OpenCodeEvent) → drain n (done_reader o) ≡ done_reader o
unfolding done_reader read advance
drain-done_reader zero o = refl
drain-done_reader (suc n) o = drain-done_reader n o

drained :
    (n : ℕ) (o s : List OpenCodeEvent) (q : List (Option OpenCodeEvent))
    (listens registered d : Bool)
    → (if listens then has_end q else true) ≡ true
    → length s + length (if listens then until_end q else []) < n
    → (let r : Reader = record {
      output = o;
      snapshot = s;
      queue = q;
      listens = listens;
      registered = registered;
      is_done = d;
    } in
        drain n r ≡ done_reader (told r))
unfolding read advance wait done_reader
drained zero o s q listens registered d h l = absurd (omega (arith, l))
drained (suc n) o (e ∷ s) q listens registered d h l =
    drained n (o ++ (e ∷ [])) s q listens registered d h (omega (arith, l))
    ∙ ap done_reader (append_assoc o (e ∷ []) _)
drained (suc n) o [] q false registered d h l =
    drain-done_reader n o ∙ ap done_reader (sym (append-nil o))
drained (suc n) o [] [] true registered d h l = absurd (ground (arith, h))
drained (suc n) o [] (none ∷ q) true registered d h l =
    drain-done_reader n o ∙ ap done_reader (sym (append-nil o))
drained (suc n) o [] (some e ∷ q) true registered d h l =
    drained n (o ++ (e ∷ [])) [] q true registered d h (omega (arith, l))
    ∙ ap done_reader (append_assoc o (e ∷ []) (until_end q))

-- A subscriber that has the end in its queue, or that only gives its snapshot, has ended when it has been
-- read at least one time more than it has events before its end, and has then given all that it was to
-- give.
pub drain-told :
    (n : ℕ) (r : Reader)
    → (if r.listens then has_end r.queue else true) ≡ true
    → length r.snapshot + length (if r.listens then until_end r.queue else []) < n
    → ((drain n r).is_done ≡ true) × ((drain n r).output ≡ told r)
unfolding done_reader
drain-told n r h l =
    let e = drained n r.output r.snapshot r.queue r.listens r.registered r.is_done h l in
    (ap (λ s. s.is_done) e, ap (λ s. s.output) e)
