-- ===== src/Harvester/Loop.antt =====
-- `TraceHarvester` of nse/core/trace_harvester.py. The loop is a task of its own: the environment
-- says what each read returns and at what time, and what the other tasks do in between.
pub mod Accounting
pub mod Endings
pub mod Growth
pub mod Queueing
pub mod Signal
use network_sandbox_engine.Prelude.{
  ℕ, ◌+◌, max, Text, contains, add, given, strip, Bool, true, false, not, ◌&&◌, ◌||◌, Option, none,
  some, List, [], ◌∷◌, ◌++◌, length, ltb, leb, ◌==◌, if◌then◌else◌,
}
use network_sandbox_engine.Exceptions.{Exception}
use network_sandbox_engine.Models.{TraceEvent}
use network_sandbox_engine.Harvester.Parser.{parse_line, is_trace_line}

pub data HarvestState : Type 0 where
  not_started running stopped clean_eof timeout error : HarvestState

-- `HarvestState.is_healthy`
unfoldable pub is_healthy : HarvestState → Bool
is_healthy HarvestState.stopped = true
is_healthy HarvestState.running = true
is_healthy _ = false

abbrev max_unparsed_samples : ℕ
max_unparsed_samples = 5

-- The queue of events: what was put so far, `none` for the sentinel. With `consumed` somebody takes
-- every item at once; else a put on a full queue waits forever.
pub record Queue : Type 0 where
  pub items : List (Option TraceEvent)
  pub capacity : ℕ
  pub consumed : Bool

unfoldable pub has_room : Queue → Bool
has_room q = q.consumed || ltb (length q.items) q.capacity

abbrev pub put : Option TraceEvent → Queue → Queue
put x q = record q { items = q.items ++ x ∷ [] }

-- Where the read loop stands: not started, at work, waiting to put an event or the sentinel into a
-- full queue, or over.
pub data Task : Type 0 where
  idle reading event_waits sentinel_waits ended : Task

-- The attributes of the object, the queue, and the events that the callback was given.
pub record Harvester : Type 0 where
  pub task : Task
  pub event_signal : Bool
  pub stop_requested : Bool
  pub deadline : ℕ
  pub state : HarvestState
  pub error : Option Exception
  pub seen_trace_ids : List Text
  pub unparsed_trace_lines : ℕ
  pub unparsed_other_lines : ℕ
  pub unparsed_samples : List Text
  pub queue : Queue
  pub delivered : List TraceEvent

-- `__init__`
abbrev pub new_harvester : Queue → Harvester
new_harvester q = record {
  task = idle;
  event_signal = false;
  stop_requested = false;
  deadline = 0;
  state = HarvestState.not_started;
  error = none;
  seen_trace_ids = [];
  unparsed_trace_lines = 0;
  unparsed_other_lines = 0;
  unparsed_samples = [];
  queue = q;
  delivered = [];
}

-- `start`, once the monitor process is there
unfoldable pub start : ℕ → ℕ → Harvester → Harvester
start now seconds h = record h {
  task = reading;
  event_signal = false;
  stop_requested = false;
  error = none;
  state = HarvestState.running;
  deadline = now + seconds;
}

unfoldable pub arm_event_signal : Harvester → Harvester
arm_event_signal h = record h { event_signal = false }

unfoldable pub extend_deadline : ℕ → ℕ → Harvester → Harvester
extend_deadline now seconds h = record h { deadline = max h.deadline (now + seconds) }

unfoldable pub stop : Harvester → Harvester
stop h = record h { stop_requested = true }

unfoldable pub record_unparsed : Text → Harvester → Harvester
record_unparsed line h =
    let h =
      (if is_trace_line line
        then record h { unparsed_trace_lines = h.unparsed_trace_lines + 1 }
        else record h { unparsed_other_lines = h.unparsed_other_lines + 1 }) in
    if ltb (length h.unparsed_samples) max_unparsed_samples
    then record h { unparsed_samples = h.unparsed_samples ++ line ∷ [] }
    else h

-- `if event.trace_id and event.trace_id not in self.seen_trace_ids`
unfoldable pub note_id : Option Text → List Text → List Text
note_id o seen = elim (given o) [ none ↦ seen | some t ↦ add t seen ]

-- From the parsed event to the callback; the ids come before the put, which may wait.
unfoldable pub deliver : TraceEvent → Harvester → Harvester
deliver event h =
    let ids = note_id event.trace_id h.seen_trace_ids in
    if has_room h.queue
    then record h {
      seen_trace_ids = ids;
      queue = put (some event) h.queue;
      event_signal = true;
      delivered = h.delivered ++ event ∷ [];
    }
    else record h { seen_trace_ids = ids; task = event_waits }

-- The `finally` block: the state unless it is set already, and the sentinel.
unfoldable pub finish : HarvestState → Harvester → Harvester
finish end_state h =
    let h = record h {
      state = elim h.state [ HarvestState.running ↦ end_state | other ↦ other ];
      task = ended;
    } in
    if has_room h.queue
    then record h { queue = put none h.queue }
    else record h { task = sentinel_waits }

-- What `readline` does: it returns a line, nothing in time, or the end of the stream; or it raises.
pub data Reading : Type 0 where
  line : Text → Reading
  timed_out eof : Reading
  fails : Exception → Reading

-- the rest of an iteration, on a line that is stripped
handle_line : Bool → ℕ → Text → Harvester → Harvester
handle_line blind now [] h = h
handle_line blind now (c ∷ t) h = elim (parse_line blind now (c ∷ t)) [
  | none ↦ record_unparsed (c ∷ t) h
  | some event ↦ deliver event h
]

-- One iteration of the loop, at the time `now`.
unfoldable pub iterate : Bool → ℕ → Reading → Harvester → Harvester
unfolding handle_line
iterate blind now result h =
    if leb h.deadline now
    then finish (if h.stop_requested then HarvestState.stopped else HarvestState.timeout) h
    else elim result [
      | line t ↦ handle_line blind now (strip t) h
      | timed_out ↦ h
      | eof ↦ finish (if h.stop_requested then HarvestState.stopped else HarvestState.clean_eof) h
      | fails exc ↦ finish HarvestState.error (record h { error = some exc })
    ]

-- What happens at a turn: an iteration of the loop, its cancellation, or a call from another task.
pub data Turn : Type 0 where
  iteration : ℕ → Reading → Turn
  cancelled stop_call arm_call : Turn
  extend_call : ℕ → ℕ → Turn

unfoldable pub is_reading : Task → Bool
is_reading reading = true
is_reading _ = false

-- `except asyncio.CancelledError`, and the `finally` block behind it; there the cancellation of the
-- last put is suppressed
unfoldable pub cancel : Harvester → Harvester
cancel h = elim h.task [
  | reading ↦ finish HarvestState.stopped (record h { state = HarvestState.stopped })
  | event_waits ↦ finish HarvestState.stopped (record h { state = HarvestState.stopped })
  | sentinel_waits ↦ record h { task = ended }
  | idle ↦ h
  | ended ↦ h
]

unfoldable pub turn : Bool → Turn → Harvester → Harvester
turn blind (iteration now r) h = if is_reading h.task then iterate blind now r h else h
turn blind cancelled h = cancel h
turn blind stop_call h = stop h
turn blind arm_call h = arm_event_signal h
turn blind (extend_call now seconds) h = extend_deadline now seconds h

unfoldable pub turns : Bool → List Turn → Harvester → Harvester
turns blind [] h = h
turns blind (t ∷ ts) h = turns blind ts (turn blind t h)

-- The end of `aclose`, once the task is over.
closed : Harvester → Harvester
closed h = record h {
  state = elim h.state [ HarvestState.running ↦ HarvestState.stopped | other ↦ other ];
}

-- The task after `self._task.cancel()`; `none` if it still waits, which `aclose` then does forever.
unfoldable pub after_cancel : Harvester → Option Harvester
unfolding closed
after_cancel h = elim h.task [ ended ↦ some (closed h) | _ ↦ none ]

-- `aclose`, where `ts` are the turns of the other tasks within its timeout
unfoldable pub aclose : Bool → List Turn → Harvester → Option Harvester
unfolding after_cancel
aclose blind ts h =
    let h = turns blind ts (stop h) in
    elim h.task [ idle ↦ some (closed h) | ended ↦ some (closed h) | _ ↦ after_cancel (cancel h) ]
