-- ===== src/Streaming/Tests.antt =====
-- Runs of backend/src/kosmo/infrastructure/api/implementation_broker.py.
use kosmo.Base.{
  Option, zero, suc, ap, ◌∙◌, length, drop, ℕ, true, false, none, some, List, [], ◌∷◌, ◌++◌, ◌≡◌,
  refl, arith,
}
use kosmo.Base.Text.{Text, codes, take}
use kosmo.Streaming.{
  EventData, run_error, OpenCodeEvent, reported, Reader, Broker, start_implementation, subscribe,
  error_event, raised, cancelled, completed, Op, emitting, ending, reading, run_ops, finish_run,
}
use kosmo.Streaming.Readers.{told, until_end}
use kosmo.Streaming.Redis.{
  Codec, serialize_event, deserialize_event, done_fields, deserialize_event-serialize_event, Read,
  entries, nothing, Timeouts, subscribe_redis, subscribe_redis_orphaned, entries_of,
  until_end-subscribe_redis,
}
use kosmo.Streaming.Heard.{heard_until_end}
use kosmo.Streaming.Ends.{is_over, emitted, told-subscribe, drain, drain-told}

abbrev event : ℕ → OpenCodeEvent
event n = record {
  event_type = codes "message";
  session_id = codes "s";
  payload = reported (codes "{}");
  timestamp = n;
  run_id = [];
}

-- Nothing has been started.
abbrev idle : Broker
idle = record {
  implementation_id = codes "impl_1";
  history = none;
  readers = λ _. none;
  current = none;
  alive = λ _. false;
  next = 0;
  purging = false;
  project_id = none;
}

abbrev early : List Op
early = emitting 0 (event 1) ∷ emitting 0 (event 2) ∷ []

abbrev late : List Op
late = reading 7 ∷ emitting 0 (event 3) ∷ ending 0 completed ∷ emitting 0 (event 4) ∷ []

abbrev run_1 : Broker
run_1 = start_implementation (some (codes "prj_1")) idle

told-subscribe_example :
    (r : Reader) × ((run_ops late (subscribe 7 (run_ops early run_1))).readers 7 ≡ some r)
    × (told r
        ≡ emitted early run_1
          ++ heard_until_end late
              (subscribe 7 (run_ops early run_1))
              (is_over (run_ops early run_1).current))
told-subscribe_example = told-subscribe (some (codes "prj_1")) early late 7 idle refl refl

-- The subscriber of that run, who came between the second event and the third.
three_events :
    emitted early run_1
      ++ heard_until_end late
          (subscribe 7 (run_ops early run_1))
          (is_over (run_ops early run_1).current)
    ≡ event 1 ∷ event 2 ∷ event 3 ∷ []
unfolding run_ops start_implementation subscribe
three_events = refl

abbrev half_read : Reader
half_read = record {
  output = event 1 ∷ [];
  snapshot = event 2 ∷ [];
  queue = some (event 3) ∷ none ∷ some (event 4) ∷ [];
  listens = true;
  registered = true;
  is_done = false;
}

drain-told_example :
    ((drain 3 half_read).is_done ≡ true) × ((drain 3 half_read).output ≡ told half_read)
drain-told_example = drain-told 3 half_read refl (omega arith)

-- A run is started again: the end of the first task does not reach the subscribers, its error does.
abbrev restarted : Broker
restarted = start_implementation none (subscribe 7 run_1)

old_run_ends :
    heard_until_end (ending 0 cancelled ∷ emitting 1 (event 5) ∷ []) restarted false ≡ event 5 ∷ []
unfolding run_ops start_implementation subscribe
old_run_ends = refl

old_error_reaches :
    heard_until_end (ending 0 (raised (codes "closed") (codes "OSError") 9) ∷ []) restarted false
    ≡ error_event (codes "closed") (codes "OSError") (codes "impl_1") 9 ∷ []
unfolding run_ops start_implementation subscribe finish_run
old_error_reaches = refl

-- A codec that keeps what it writes: texts with their lengths in front of them.
abbrev write_data : EventData → Text
write_data (reported t) = 0 ∷ t
write_data (run_error a b c) = 1 ∷ length a ∷ length b ∷ (a ++ (b ++ c))

abbrev read_data : Text → Option EventData
read_data (zero ∷ t) = some (reported t)
read_data (suc k ∷ m ∷ n ∷ t) = some (run_error (take m t) (take n (drop m t)) (drop n (drop m t)))
read_data _ = none

abbrev read_time : Text → Option ℕ
read_time (t ∷ []) = some t
read_time _ = none

abbrev plain_codec : Codec
plain_codec = record {
  dumps = write_data;
  loads = read_data;
  empty = reported [];
  isoformat = λ t. t ∷ [];
  fromisoformat = read_time;
}

take_front : (a r : Text) → take (length a) (a ++ r) ≡ a
unfolding take
take_front [] r = refl
take_front (c ∷ a) r = ap (λ t. c ∷ t) (take_front a r)

drop_front : (a r : Text) → drop (length a) (a ++ r) ≡ r
drop_front [] r = refl
drop_front (c ∷ a) r = drop_front a r

read-write_data : (d : EventData) → read_data (write_data d) ≡ some d
read-write_data (reported t) = refl
read-write_data (run_error a b c) =
    let front = take_front a (b ++ c) in
    let back = drop_front a (b ++ c) in
    let middle = ap (take (length b)) back ∙ take_front b c in
    let last = ap (drop (length b)) back ∙ drop_front b c in cc

read-write_time : (t : ℕ) → read_time (t ∷ []) ≡ some t
read-write_time t = refl

deserialize_event-serialize_event_example :
    (deserialize_event plain_codec 50 (serialize_event plain_codec (event 3)) ≡ some (event 3))
    × (deserialize_event plain_codec 50 done_fields ≡ none)
deserialize_event-serialize_event_example =
    deserialize_event-serialize_event plain_codec 50 (event 3) read-write_data read-write_time

abbrev source_timeouts : Timeouts
source_timeouts = record { history_ttl_seconds = 1800; orphan_idle_timeout_seconds = 2 }

abbrev silence : Read
silence = nothing false false (some true)

subscribe_redis_orphaned_example :
    (subscribe_redis source_timeouts 0 (silence ∷ silence ∷ [])).1 ≡ true
subscribe_redis_orphaned_example =
    subscribe_redis_orphaned source_timeouts 0 silence (silence ∷ [])
      ((refl, refl), ((refl, refl), tt)) (omega arith)

abbrev two_reads : List Read
two_reads = entries (some (event 1) ∷ []) ∷ silence ∷ entries (some (event 2) ∷ none ∷ []) ∷ []

until_end-subscribe_redis_example :
    (rest : List OpenCodeEvent) × (until_end (entries_of two_reads)
      ≡ (subscribe_redis source_timeouts 0 two_reads).0 ++ rest)
    × ((subscribe_redis source_timeouts 0 two_reads).1 ≡ false → rest ≡ [])
until_end-subscribe_redis_example = until_end-subscribe_redis source_timeouts 0 two_reads

both_events : subscribe_redis source_timeouts 0 two_reads ≡ (event 1 ∷ event 2 ∷ [], true)
unfolding subscribe_redis
both_events = refl
