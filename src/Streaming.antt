-- ===== src/Streaming.antt =====
-- backend/src/kosmo/infrastructure/api/implementation_broker.py without Redis: what
-- ImplementationEventBroker keeps for one implementation, and its operations. The entries of its
-- dicts under another implementation_id are not touched by any of them. Each operation runs to the
-- next `await`; a subscriber is a generator that is read one event at a time.
pub mod Readers
pub mod Heard
pub mod Ends
pub mod Redis
mod Tests
use kosmo.Base.{
  ℕ, suc, Bool, true, false, not, ◌&&◌, ◌||◌, Option, none, some, List, [], ◌∷◌, ◌++◌, ◌==◌,
  if◌then◌else◌,
}
use kosmo.Base.Text.{Text, codes}

-- The data of an event: what the use case reports, or the error of a run.
pub data EventData : Type 0 where
  reported : Text → EventData
  run_error : (error error_type implementation_id : Text) → EventData

pub record OpenCodeEvent : Type 0 where
  pub event_type : Text
  pub session_id : Text
  pub payload : EventData
  pub timestamp : ℕ
  pub run_id : Text

-- A generator of `subscribe`: the events it has given, those left of its snapshot, and its queue, in
-- which `none` is the end. `listens` says that it goes on to the queue, and `registered` that the
-- queue stands in `_queues`.
pub record Reader : Type 0 where
  pub output : List OpenCodeEvent
  pub snapshot : List OpenCodeEvent
  pub queue : List (Option OpenCodeEvent)
  pub listens : Bool
  pub registered : Bool
  pub is_done : Bool

-- The tasks are numbered; `alive` are those that have not ended, `current` is the entry of `_tasks`,
-- and `purging` says that a purge is due.
pub record Broker : Type 0 where
  pub implementation_id : Text
  pub history : Option (List OpenCodeEvent)
  pub readers : ℕ → Option Reader
  pub current : Option ℕ
  pub alive : ℕ → Bool
  pub next : ℕ
  pub purging : Bool
  pub project_id : Option Text

unfoldable pub set_alive : ℕ → Bool → (ℕ → Bool) → ℕ → Bool
set_alive k b alive n = if n == k then b else alive n

-- `start_implementation`.
unfoldable pub start_implementation : Option Text → Broker → Broker
unfolding set_alive
start_implementation project_id b = record {
  implementation_id = b.implementation_id;
  history = none;
  readers = b.readers;
  current = some b.next;
  alive = set_alive b.next true b.alive;
  next = suc b.next;
  purging = false;
  project_id = elim project_id [ none ↦ b.project_id | some p ↦ some p ];
}

abbrev pub events_of : Option (List OpenCodeEvent) → List OpenCodeEvent
events_of none = []
events_of (some es) = es

-- `queue.put_nowait` for a queue of `_queues`.
unfoldable pub put_nowait : Option OpenCodeEvent → Reader → Reader
put_nowait m r = if r.registered then record r { queue = r.queue ++ (m ∷ []) } else r

unfoldable pub each_reader : (Reader → Reader) → (ℕ → Option Reader) → ℕ → Option Reader
each_reader f readers i = elim (readers i) [ none ↦ none | some r ↦ some (f r) ]

-- `_publish`.
unfoldable pub publish : OpenCodeEvent → Broker → Broker
unfolding each_reader put_nowait
publish e b = record b {
  history = some (events_of b.history ++ (e ∷ []));
  readers = each_reader (put_nowait (some e)) b.readers;
}

-- How the stream of a use case ends.
pub data Ending : Type 0 where
  completed : Ending
  cancelled : Ending
  raised : (error error_type : Text) (now : ℕ) → Ending

-- The event that `_run_implementation` publishes for an exception.
unfoldable pub error_event : (error error_type implementation_id : Text) (now : ℕ) → OpenCodeEvent
error_event error error_type implementation_id now = record {
  event_type = codes "error";
  session_id = [];
  payload = run_error error error_type implementation_id;
  timestamp = now;
  run_id = [];
}

unfoldable pub ending_events : Text → Ending → List OpenCodeEvent
unfolding error_event
ending_events id (raised error error_type now) = error_event error error_type id now ∷ []
ending_events id _ = []

unfoldable pub publish_each : List OpenCodeEvent → Broker → Broker
unfolding publish
publish_each [] b = b
publish_each (e ∷ es) b = publish_each es (publish e b)

abbrev pub is_current_task : ℕ → Option ℕ → Bool
is_current_task k none = false
is_current_task k (some n) = n == k

-- The end of `_run_implementation`: only the current task ends the subscribers.
unfoldable pub close_run : ℕ → Broker → Broker
unfolding each_reader put_nowait set_alive
close_run k b =
    let ended = record b { alive = set_alive k false b.alive } in
    if is_current_task k b.current
    then record ended {
      readers = each_reader (put_nowait none) b.readers;
      current = none;
      purging = true;
    }
    else ended

-- An event of the stream of a task, and its end.
unfoldable pub emit : ℕ → OpenCodeEvent → Broker → Broker
unfolding publish
emit k e b = if b.alive k then publish e b else b

unfoldable pub finish_run : ℕ → Ending → Broker → Broker
unfolding close_run publish_each ending_events
finish_run k how b =
    if b.alive k then close_run k (publish_each (ending_events b.implementation_id how) b) else b

-- `_purge`, when its time has come.
unfoldable pub purge : Broker → Broker
purge b = if b.purging then record b { history = none; project_id = none; purging = false } else b

-- `subscribe`, up to its first event.
unfoldable pub new_reader : Option (List OpenCodeEvent) → Option ℕ → Reader
new_reader history none = record {
  output = [];
  snapshot = events_of history;
  queue = [];
  listens = false;
  registered = false;
  is_done = false;
}
new_reader history (some k) = record {
  output = [];
  snapshot = events_of history;
  queue = [];
  listens = true;
  registered = true;
  is_done = false;
}

unfoldable pub set_reader : ℕ → Option Reader → (ℕ → Option Reader) → ℕ → Option Reader
set_reader i r readers n = if n == i then r else readers n

unfoldable pub subscribe : ℕ → Broker → Broker
unfolding new_reader set_reader
subscribe i b = record b {
  readers = set_reader i (some (new_reader b.history b.current)) b.readers;
}

-- The generator returns, and takes its queue out of `_queues`.
unfoldable pub done_reader : List OpenCodeEvent → Reader
done_reader output = record {
  output = output;
  snapshot = [];
  queue = [];
  listens = false;
  registered = false;
  is_done = true;
}

unfoldable pub wait : Reader → List (Option OpenCodeEvent) → Reader
unfolding done_reader
wait r [] = r
wait r (none ∷ queue) = done_reader r.output
wait r (some e ∷ queue) = record r { output = r.output ++ (e ∷ []); queue = queue }

-- One step of the generator.
unfoldable pub advance : Reader → List OpenCodeEvent → Reader
unfolding wait done_reader
advance r (e ∷ snapshot) = record r { output = r.output ++ (e ∷ []); snapshot = snapshot }
advance r [] = if r.listens then wait r r.queue else done_reader r.output

unfoldable pub read : Reader → Reader
unfolding advance
read r = advance r r.snapshot

-- `aclose`: every task is cancelled, and the dicts are emptied.
unfoldable pub aclose : Broker → Broker
unfolding each_reader
aclose b = record b {
  history = none;
  readers = each_reader (λ r. record r { registered = false }) b.readers;
  current = none;
  purging = false;
  project_id = none;
}

-- What happens to the broker, one thing after another.
pub data Op : Type 0 where
  starting : Option Text → Op
  emitting : ℕ → OpenCodeEvent → Op
  ending : ℕ → Ending → Op
  purge_due : Op
  subscribing : ℕ → Op
  reading : ℕ → Op
  leaving : ℕ → Op
  closing : Op

unfoldable pub perform : Op → Broker → Broker
unfolding start_implementation emit finish_run purge subscribe read aclose set_reader
perform (starting p) b = start_implementation p b
perform (emitting k e) b = emit k e b
perform (ending k how) b = finish_run k how b
perform purge_due b = purge b
perform (subscribing i) b = elim (b.readers i) [ none ↦ subscribe i b | some r ↦ b ]
perform (reading i) b = elim (b.readers i) [
  | none ↦ b
  | some r ↦ record b { readers = set_reader i (some (read r)) b.readers }
]
perform (leaving i) b = record b { readers = set_reader i none b.readers }
perform closing b = aclose b

unfoldable pub run_ops : List Op → Broker → Broker
unfolding perform
run_ops [] b = b
run_ops (op ∷ ops) b = run_ops ops (perform op b)
