-- ===== src/Streaming/Redis.antt =====
-- The Redis streams of backend/src/kosmo/infrastructure/api/implementation_broker.py: the entries of
-- an event, and `_subscribe_redis`, whose reads are given one after another.
use mathlib.Core.List.{append-nil, append_assoc}
use kosmo.Base.{
  sym, ℕ, suc, ◌+◌, ◌≤◌, Bool, true, false, not, ◌&&◌, ◌||◌, Option, none, some, List, [], ◌∷◌,
  ◌++◌, ◌≡◌, refl, ap, ◌∙◌, arith, leb, if◌then◌else◌, length, All, is_some, Bool-cases, inl, inr,
}
use kosmo.Base.Text.{Text, codes, text_eq}
use kosmo.Streaming.{OpenCodeEvent, EventData}
use kosmo.Streaming.Readers.{until_end, has_end}

-- `json` and `datetime`; `loads` gives a dict or `none`, `empty` is `{}`.
pub record Codec : Type 0 where
  pub dumps : EventData → Text
  pub loads : Text → Option EventData
  pub empty : EventData
  pub isoformat : ℕ → Text
  pub fromisoformat : Text → Option ℕ

-- The fields of an entry of the stream.
abbrev pub Fields : Type 0
Fields = List (Text × Text)

unfoldable pub field : Text → Fields → Option Text
field k [] = none
field k ((j, v) ∷ fields) = if text_eq j k then some v else field k fields

abbrev pub or_default {ℓ} : {A : Type ℓ} → Option A → A → A
or_default none a = a
or_default (some b) a = b

unfoldable pub serialize_event : Codec → OpenCodeEvent → Fields
serialize_event codec e =
    (codes "event_type", e.event_type)
    ∷ (codes "session_id", e.session_id)
    ∷ (codes "data", codec.dumps e.payload)
    ∷ (codes "timestamp", codec.isoformat e.timestamp)
    ∷ (codes "run_id", e.run_id)
    ∷ []

unfoldable pub done_fields : Fields
done_fields = (codes "_done", codes "true") ∷ []

unfoldable pub parsed_timestamp : Codec → ℕ → Option Text → ℕ
parsed_timestamp codec now none = now
parsed_timestamp codec now (some t) = or_default (codec.fromisoformat t) now

-- `_deserialize_event`; the type of an event is its text. `none` is the end of the stream.
unfoldable pub deserialize_event : Codec → ℕ → Fields → Option OpenCodeEvent
unfolding field parsed_timestamp
deserialize_event codec now fields =
    if is_some (field (codes "_done") fields)
    then none
    else some (record {
      event_type = or_default (field (codes "event_type") fields) [];
      session_id = or_default (field (codes "session_id") fields) [];
      payload =
          or_default (codec.loads (or_default (field (codes "data") fields) (codes "{}")))
            codec.empty;
      timestamp = parsed_timestamp codec now (field (codes "timestamp") fields);
      run_id = or_default (field (codes "run_id") fields) [];
    })

-- An event comes back from the stream as it was written, and the marker of the end as the end, when
-- json and datetime read what they have written.
pub deserialize_event-serialize_event :
    (codec : Codec) (now : ℕ) (e : OpenCodeEvent)
    → ((d : EventData) → codec.loads (codec.dumps d) ≡ some d)
    → ((t : ℕ) → codec.fromisoformat (codec.isoformat t) ≡ some t)
    → (deserialize_event codec now (serialize_event codec e) ≡ some e)
      × (deserialize_event codec now done_fields ≡ none)
unfolding deserialize_event serialize_event done_fields
deserialize_event-serialize_event codec now e json iso = (
  ap
        (λ d. some (record e {
          payload = or_default d codec.empty;
          timestamp = or_default (codec.fromisoformat (codec.isoformat e.timestamp)) now;
        }))
        (json e.payload)
      ∙ ap (λ t. some (record e { timestamp = or_default t now })) (iso e.timestamp),
  refl,
)

-- What a read of the stream gives: an exception, the new entries, or none of them after a second;
-- then whether the task runs here or elsewhere, and whether the stream exists, if Redis says so.
pub data Read : Type 0 where
  failing : Read
  entries : List (Option OpenCodeEvent) → Read
  nothing : (is_active_task is_active_elsewhere : Bool) (stream_exists : Option Bool) → Read

pub record Timeouts : Type 0 where
  pub history_ttl_seconds : ℕ
  pub orphan_idle_timeout_seconds : ℕ

-- Whether the loop ends at a read without entries, after so many seconds.
unfoldable pub gives_up :
    Timeouts → ℕ → (is_active_task is_active_elsewhere : Bool) → Option Bool → Bool
gives_up t idle_time here elsewhere stream_exists =
    let unattended = not here && not elsewhere in
    (unattended && leb t.orphan_idle_timeout_seconds idle_time)
    || ((unattended && leb t.history_ttl_seconds idle_time)
        || (leb 30 idle_time && (unattended && not (or_default stream_exists true))))

-- `_subscribe_redis`: the events that it gives in these reads, and whether it has returned.
unfoldable pub subscribe_redis : Timeouts → ℕ → List Read → List OpenCodeEvent × Bool
unfolding gives_up
subscribe_redis t idle_time [] = ([], false)
subscribe_redis t idle_time (failing ∷ reads) = ([], true)
subscribe_redis t idle_time (entries es ∷ reads) =
    let rest = subscribe_redis t 0 reads in
    if has_end es then (until_end es, true) else (until_end es ++ rest.0, rest.1)
subscribe_redis t idle_time (nothing here elsewhere stream_exists ∷ reads) =
    let rest = subscribe_redis t (suc idle_time) reads in
    if gives_up t (suc idle_time) here elsewhere stream_exists then ([], true) else rest

-- All entries that are read.
abbrev pub entries_of : List Read → List (Option OpenCodeEvent)
entries_of [] = []
entries_of (entries es ∷ reads) = es ++ entries_of reads
entries_of (failing ∷ reads) = entries_of reads
entries_of (nothing a b c ∷ reads) = entries_of reads

-- A read without entries of a stream whose task runs nowhere.
abbrev pub IsOrphaned : Read → Type 0
IsOrphaned failing = ⊥
IsOrphaned (entries es) = ⊥
IsOrphaned (nothing here elsewhere stream_exists) = (here ≡ false) × (elsewhere ≡ false)

until_end-append-shut :
    (es fs : List (Option OpenCodeEvent)) → has_end es ≡ true → until_end (es ++ fs) ≡ until_end es
until_end-append-shut [] fs h = absurd (ground (arith, h))
until_end-append-shut (none ∷ es) fs h = refl
until_end-append-shut (some e ∷ es) fs h = ap (λ r. e ∷ r) (until_end-append-shut es fs h)

until_end-append-on :
    (es fs : List (Option OpenCodeEvent))
    → has_end es ≡ false
    → until_end (es ++ fs) ≡ until_end es ++ until_end fs
until_end-append-on [] fs h = refl
until_end-append-on (none ∷ es) fs h = absurd (ground (arith, h))
until_end-append-on (some e ∷ es) fs h = ap (λ r. e ∷ r) (until_end-append-on es fs h)

gives_up_orphaned :
    (t : Timeouts) (idle_time : ℕ) (stream_exists : Option Bool)
    → t.orphan_idle_timeout_seconds ≤ idle_time
    → gives_up t idle_time false false stream_exists ≡ true
unfolding gives_up
gives_up_orphaned t idle_time stream_exists l = ground (arith, l)

-- A subscriber of a stream whose task runs nowhere, and that has no new entries, returns once it
-- has waited for as many seconds as `orphan_idle_timeout_seconds` says.
pub subscribe_redis_orphaned :
    (t : Timeouts) (idle_time : ℕ) (read : Read) (reads : List Read)
    → All IsOrphaned (read ∷ reads)
    → t.orphan_idle_timeout_seconds ≤ idle_time + length (read ∷ reads)
    → (subscribe_redis t idle_time (read ∷ reads)).1 ≡ true
unfolding subscribe_redis
subscribe_redis_orphaned t idle_time failing reads h l = absurd h.0
subscribe_redis_orphaned t idle_time (entries es) reads h l = absurd h.0
subscribe_redis_orphaned t idle_time (nothing here elsewhere stream_exists) [] h l =
    let known : gives_up t (suc idle_time) here elsewhere stream_exists ≡ true =
      ap (λ b. gives_up t (suc idle_time) b elsewhere stream_exists) h.0.0
      ∙ ap (λ b. gives_up t (suc idle_time) false b stream_exists) h.0.1
      ∙ gives_up_orphaned t (suc idle_time) stream_exists (omega (arith, l)) in
    rw (known, subscribe_redis) refl
subscribe_redis_orphaned t idle_time (nothing here elsewhere stream_exists) (read ∷ reads) h l =
    let rest = subscribe_redis_orphaned t (suc idle_time) read reads h.1 (omega (arith, l)) in
    elim (Bool-cases (gives_up t (suc idle_time) here elsewhere stream_exists)) [
      | inl e ↦ rw (e, subscribe_redis) refl
      | inr e ↦ rw (e, subscribe_redis) rest
    ]

-- What a subscriber of the stream gives is a first part of the events that it reads before the end,
-- in their order and each of them once; while it has not returned, it is all of them.
pub until_end-subscribe_redis :
    (t : Timeouts) (idle_time : ℕ) (reads : List Read)
    → (rest : List OpenCodeEvent) × (until_end (entries_of reads)
        ≡ (subscribe_redis t idle_time reads).0 ++ rest)
      × ((subscribe_redis t idle_time reads).1 ≡ false → rest ≡ [])
unfolding subscribe_redis
until_end-subscribe_redis t idle_time [] = ([], refl, λ h. refl)
until_end-subscribe_redis t idle_time (failing ∷ reads) =
    (until_end (entries_of reads), refl, λ h. absurd (ground (arith, h)))
until_end-subscribe_redis t idle_time (entries es ∷ reads) =
    let r = until_end-subscribe_redis t 0 reads in
    elim (Bool-cases (has_end es)) [
      | inl e ↦
          rw (e, subscribe_redis)
            (
              [],
              until_end-append-shut es (entries_of reads) e ∙ sym (append-nil (until_end es)),
              λ h. refl,
            )
      | inr e ↦
          rw (e, subscribe_redis)
            (
              r.0,
              until_end-append-on es (entries_of reads) e
                  ∙ ap (λ l. until_end es ++ l) r.1
                  ∙ sym (append_assoc (until_end es) (subscribe_redis t 0 reads).0 r.0),
              r.2,
            )
    ]
until_end-subscribe_redis t idle_time (nothing here elsewhere stream_exists ∷ reads) =
    let r = until_end-subscribe_redis t (suc idle_time) reads in
    elim (Bool-cases (gives_up t (suc idle_time) here elsewhere stream_exists)) [
      | inl e ↦
          rw (e, subscribe_redis)
            (until_end (entries_of reads), refl, λ h. absurd (ground (arith, h)))
      | inr e ↦ rw (e, subscribe_redis) r
    ]
