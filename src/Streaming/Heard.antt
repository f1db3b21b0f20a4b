-- ===== src/Streaming/Heard.antt =====
-- What the subscribers of backend/src/kosmo/infrastructure/api/implementation_broker.py hear.
use mathlib.Core.List.{append-nil, append_assoc}
use kosmo.Base.{
  ℕ, Bool, true, false, not, ◌&&◌, ◌||◌, Option, none, some, List, [], ◌∷◌, ◌++◌, ◌==◌,
  if◌then◌else◌, ◌≡◌, refl, ap, sym, ◌∙◌, arith, Bool-cases, Option-cases, inl, inr, ==_iff, subst,
  or-true, all,
}
use kosmo.Streaming.{
  OpenCodeEvent, Reader, Broker, put_nowait, read, each_reader, publish, publish_each,
  ending_events, is_current_task, close_run, emit, finish_run, new_reader, set_reader, subscribe,
  aclose, start_implementation, purge, Ending, Op, starting, emitting, ending, purge_due,
  subscribing, reading, leaving, closing, perform, run_ops,
}
use kosmo.Streaming.Readers.{
  told, is_shut, message_events, is_end, told-put_nowait, is_shut-put_nowait, told-read,
  is_shut-read,
}

-- The events that an operation publishes, and whether it is the end for the subscribers.
abbrev pub published : Op → Broker → List OpenCodeEvent
published (emitting k e) b = if b.alive k then e ∷ [] else []
published (ending k how) b = if b.alive k then ending_events b.implementation_id how else []
published _ b = []

abbrev pub is_last : Op → Broker → Bool
is_last (ending k how) b = b.alive k && is_current_task k b.current
is_last closing b = true
is_last _ b = false

-- What is published until the end, from a state on.
abbrev pub heard_until_end : List Op → Broker → Bool → List OpenCodeEvent
heard_until_end [] b shut = []
heard_until_end (op ∷ ops) b shut =
    (if shut then [] else published op b)
    ++ heard_until_end ops (perform op b) (shut || is_last op b)

abbrev pub is_leaving : ℕ → Op → Bool
is_leaving i (leaving n) = i == n
is_leaving i _ = false

-- The subscriber after an operation that publishes `es`, and is the end if `last` says so.
record Hears (i : ℕ) (r : Reader) (es : List OpenCodeEvent) (last : Bool) (b : Broker)
    : Type 0 where
  reader : Reader
  found : b.readers i ≡ some reader
  events : told reader ≡ told r ++ (if is_shut r then [] else es)
  shut : is_shut reader ≡ (is_shut r || last)

append_nothing : (shut : Bool) (xs : List OpenCodeEvent) → xs ≡ xs ++ (if shut then [] else [])
append_nothing true xs = sym (append-nil xs)
append_nothing false xs = sym (append-nil xs)

or_false : (b : Bool) → b ≡ (b || false)
or_false true = refl
or_false false = refl

some_inj : {r s : Reader} → some r ≡ some s → r ≡ s
some_inj e = cc

none_is_some : (r : Reader) → (let n : Option Reader = none in n) ≡ some r → ⊥
none_is_some r e = cc

module _ (i : ℕ) (r : Reader) where
  Hears-same : (b : Broker) → b.readers i ≡ some r → Hears i r [] false b
  Hears-same b e = record {
    reader = r;
    found = e;
    events = append_nothing (is_shut r) (told r);
    shut = or_false (is_shut r);
  }

  Hears-put_nowait :
      (m : Option OpenCodeEvent) (b b' : Broker)
      → b.readers i ≡ some r
      → b'.readers ≡ each_reader (put_nowait m) b.readers
      → Hears i r (message_events m) (is_end m) b'
  unfolding each_reader
  Hears-put_nowait m b b' e e' = record {
    reader = put_nowait m r;
    found = ap (λ f. f i) e' ∙ rw (e, each_reader) refl;
    events = told-put_nowait m r;
    shut = is_shut-put_nowait m r;
  }

  Hears-then :
      (es es' : List OpenCodeEvent) (last : Bool) (b' : Broker) (b : Broker)
      → (h : Hears i r es false b) → Hears i h.reader es' last b'
      → Hears i r (es ++ es') last b'
  Hears-then es es' last b' b h h' =
      let same : is_shut h.reader ≡ is_shut r = h.shut ∙ sym (or_false (is_shut r)) in
      record {
        reader = h'.reader;
        found = h'.found;
        events =
            h'.events
            ∙ ap (λ l. l ++ (if is_shut h.reader then [] else es')) h.events
            ∙ ap (λ s. (told r ++ (if is_shut r then [] else es)) ++ (if s then [] else es')) same
            ∙ after (is_shut r);
        shut = h'.shut ∙ ap (λ s. s || last) same;
      }
    where
      after :
          (s : Bool)
          → (told r ++ (if s then [] else es)) ++ (if s then [] else es')
            ≡ told r ++ (if s then [] else es ++ es')
      after true = append-nil (told r ++ [])
      after false = append_assoc (told r) es es'

Hears-publish_each :
    (i : ℕ) (es : List OpenCodeEvent) (r : Reader) (b : Broker)
    → b.readers i ≡ some r
    → Hears i r es false (publish_each es b)
unfolding publish_each publish
Hears-publish_each i [] r b e = Hears-same i r b e
Hears-publish_each i (x ∷ es) r b e =
    let h = Hears-put_nowait i r (some x) b (publish x b) e refl in
    Hears-then i r (x ∷ []) es false (publish_each es (publish x b)) (publish x b) h
      (Hears-publish_each i es h.reader (publish x b) h.found)

Hears-close_run :
    (i k : ℕ) (r : Reader) (b : Broker)
    → b.readers i ≡ some r
    → Hears i r [] (is_current_task k b.current) (close_run k b)
unfolding close_run
Hears-close_run i k r b e = elim (Bool-cases (is_current_task k b.current)) [
  | inl c ↦ rw (c, close_run) (Hears-put_nowait i r none b _ e refl)
  | inr c ↦ rw (c, close_run) (Hears-same i r _ e)
]

publish_each-current :
    (es : List OpenCodeEvent) (b : Broker) → (publish_each es b).current ≡ b.current
unfolding publish_each publish
publish_each-current [] b = refl
publish_each-current (x ∷ es) b = publish_each-current es (publish x b)

module _ (i : ℕ) (r : Reader) (b : Broker) (e : b.readers i ≡ some r) where
  Hears-finish_run :
      (k : ℕ) (how : Ending)
      → Hears i r
          (if b.alive k then ending_events b.implementation_id how else [])
          (b.alive k && is_current_task k b.current)
          (finish_run k how b)
  unfolding finish_run
  Hears-finish_run k how =
      let es = ending_events b.implementation_id how in
      let h = Hears-publish_each i es r b e in
      let c = Hears-close_run i k h.reader (publish_each es b) h.found in
      elim (Bool-cases (b.alive k)) [
        | inl a ↦
            rw (a, finish_run)
              (subst (λ n. Hears i r es (is_current_task k n) (close_run k (publish_each es b)))
                (publish_each-current es b)
                (subst
                  (λ l.
                    Hears i r l (is_current_task k (publish_each es b).current)
                      (close_run k (publish_each es b)))
                  (append-nil es) (Hears-then i r es [] _ _ (publish_each es b) h c)))
        | inr a ↦ rw (a, finish_run) (Hears-same i r b e)
      ]

  Hears-emit :
      (k : ℕ) (x : OpenCodeEvent) → Hears i r (if b.alive k then x ∷ [] else []) false (emit k x b)
  unfolding emit publish
  Hears-emit k x = elim (Bool-cases (b.alive k)) [
    | inl a ↦ rw (a, emit) (Hears-put_nowait i r (some x) b _ e refl)
    | inr a ↦ rw (a, emit) (Hears-same i r b e)
  ]

  Hears-purge : Hears i r [] false (purge b)
  unfolding purge
  Hears-purge = elim (Bool-cases b.purging) [
    | inl a ↦ rw (a, purge) (Hears-same i r _ e)
    | inr a ↦ rw (a, purge) (Hears-same i r _ e)
  ]

  Hears-aclose : Hears i r [] true (aclose b)
  unfolding aclose each_reader
  Hears-aclose = record {
    reader = record r { registered = false };
    found = rw (e, each_reader) refl;
    events = append_nothing (is_shut r) (told r);
    shut = sym (or-true (is_shut r) true refl);
  }

  -- Another subscriber, or the same one when nothing of it changes what it is to give.
  other_reader :
      (j : ℕ) (r' : Option Reader)
      → (i == j) ≡ false
      → Hears i r [] false (record b { readers = set_reader j r' b.readers })
  unfolding set_reader
  other_reader j r' h = Hears-same i r _ (rw (h, set_reader) e)

  Hears-subscribing : (j : ℕ) → Hears i r [] false (perform (subscribing j) b)
  unfolding perform subscribe
  Hears-subscribing j = elim (Option-cases (b.readers j)) [
    | inl n ↦
        rw (n, perform)
          (other_reader j (some (new_reader b.history b.current)) (elim (Bool-cases (i == j)) [
            | inl h ↦ absurd (none_is_some r (sym n ∙ ap b.readers (sym ((==_iff i j).0 h)) ∙ e))
            | inr h ↦ h
          ]))
    | inr s ↦ rw (s.1, perform) (Hears-same i r b e)
  ]

  Hears-reading : (j : ℕ) → Hears i r [] false (perform (reading j) b)
  unfolding perform set_reader
  Hears-reading j = elim (Option-cases (b.readers j)) [
    | inl n ↦ rw (n, perform) (Hears-same i r b e)
    | inr s ↦
        rw (s.1, perform)
          (elim (Bool-cases (i == j)) [
            | inl h ↦
                let same : some s.0 ≡ some r =
                  sym s.1 ∙ ap b.readers (sym ((==_iff i j).0 h)) ∙ e in
                record {
                  reader = read s.0;
                  found = rw (h, set_reader) refl;
                  events =
                      told-read s.0 ∙ ap told (some_inj same) ∙ append_nothing (is_shut r) (told r);
                  shut = is_shut-read s.0 ∙ ap is_shut (some_inj same) ∙ or_false (is_shut r);
                }
            | inr h ↦ other_reader j (some (read s.0)) h
          ])
  ]

  Hears-perform :
      (op : Op) → is_leaving i op ≡ false → Hears i r (published op b) (is_last op b) (perform op b)
  unfolding perform start_implementation
  Hears-perform (starting p) l = Hears-same i r _ e
  Hears-perform (emitting k x) l = Hears-emit k x
  Hears-perform (ending k how) l = Hears-finish_run k how
  Hears-perform purge_due l = Hears-purge
  Hears-perform (subscribing j) l = Hears-subscribing j
  Hears-perform (reading j) l = Hears-reading j
  Hears-perform (leaving j) l = other_reader j none l
  Hears-perform closing l = Hears-aclose

-- Whatever happens, as long as it stays, a subscriber is to give what it was to give before and then
-- the events that are published until the end, in their order and each of them once: those that
-- it has given, those left of its snapshot and those of its queue.
pub told-run_ops :
    (ops : List Op) (i : ℕ) (b : Broker) (r : Reader)
    → b.readers i ≡ some r
    → all (λ op. not (is_leaving i op)) ops ≡ true
    → (r' : Reader) × ((run_ops ops b).readers i ≡ some r')
      × (told r' ≡ told r ++ heard_until_end ops b (is_shut r))
unfolding run_ops
told-run_ops [] i b r e l = (r, e, sym (append-nil (told r)))
told-run_ops (op ∷ ops) i b r e l =
    let h = Hears-perform i r b e op (ground (arith, l)) in
    let rest = told-run_ops ops i (perform op b) h.reader h.found (ground (arith, l)) in
    (
      rest.0,
      rest.1,
      rest.2
          ∙ ap (λ s. told h.reader ++ heard_until_end ops (perform op b) s) h.shut
          ∙ ap (λ t. t ++ heard_until_end ops (perform op b) (is_shut r || is_last op b)) h.events
          ∙ append_assoc (told r) (if is_shut r then [] else published op b)
              (heard_until_end ops (perform op b) (is_shut r || is_last op b)),
    )
