-- ===== src/Pipeline/Machine.antt =====
-- The state of `run_test_pipeline`, and its calls as actions on it. `collected_events` is the list
-- to which the callback of the harvester appends, and `event_queue` is the queue of the harvester.
use network_sandbox_engine.Prelude.{
  ℕ, Text, codes, Bool, Option, none, some, List, [], ◌∷◌, ◌++◌, map, if◌then◌else◌,
}
use network_sandbox_engine.Exceptions.{Exception}
use network_sandbox_engine.Models.{TraceEvent, EventType, blank}
use network_sandbox_engine.Harvester.Loop.{
  Harvester, Reading, Turn, iteration, has_room, put, turns,
}

pub data Status : Type 0 where
  pending running done error : Status

pub record Machine : Type 0 where
  pub test_id : Text
  pub status : Status
  pub canary_trace_ids : List Text
  pub harvester : Harvester

abbrev pub collected_events : Machine → List TraceEvent
collected_events m = m.harvester.delivered

-- How an action ends: it goes on, raises, returns from the whole coroutine, or waits forever.
pub data Step {ℓ} (A : Type ℓ) : Type ℓ where
  next : A → Step A
  raises : Exception → Step A
  -- `RuleValidationError`, with the text of its errors
  rejects : Text → Step A
  returns stuck : Step A

abbrev pub Action {ℓ} : Type ℓ → Type ℓ
Action A = Machine → Step A × Machine

infixl 5 ◌>>=◌ ◌>>◌
abbrev pub continue {ℓ κ} : {A : Type ℓ} {B : Type κ} → Step A → (A → Action B) → Action B
continue (next a) f m = f a m
continue (raises e) f m = (raises e, m)
continue (rejects t) f m = (rejects t, m)
continue returns f m = (returns, m)
continue stuck f m = (stuck, m)

abbrev pub ◌>>=◌ {ℓ κ} : {X : Type ℓ} {Y : Type κ} → Action X → (X → Action Y) → Action Y
◌>>=◌ a f m = let (r, m') = a m in continue r f m'

abbrev pub ◌>>◌ {ℓ} : {B : Type ℓ} → Action (Unit {0}) → Action B → Action B
a >> b = a >>= λ _. b

abbrev pub pure {ℓ} : {A : Type ℓ} → A → Action A
pure a m = (next a, m)

-- A call into another component, which returns or raises.
abbrev pub attempt : Option Exception → Action (Unit {0})
attempt none m = (next tt, m)
attempt (some e) m = (raises e, m)

abbrev pub with_harvester : (Harvester → Harvester) → Machine → Machine
with_harvester f m = record m { harvester = f m.harvester }

-- What the read loop does while the coroutine awaits something: each read, with its time.
abbrev pub Reads : Type 0
Reads = List (ℕ × Reading)

abbrev pub loop_turns : Reads → List Turn
loop_turns = map (λ (x : ℕ × Reading). iteration x.0 x.1)

-- An `await`; `blind` says that NSE_FORCE_BLIND is set.
unfoldable pub await_reads : Bool → Reads → Action (Unit {0})
await_reads blind rs m = (next tt, with_harvester (turns blind (loop_turns rs)) m)

-- `await event_queue.put(evt)`
abbrev pub put_or_wait : Option TraceEvent → Action (Unit {0})
put_or_wait evt m =
    if has_room m.harvester.queue
    then (next tt, with_harvester (λ h. record h { queue = put evt h.queue }) m)
    else (stuck, m)

-- `emit_event`
unfoldable pub emit_event : Option TraceEvent → Action (Unit {0})
emit_event none m = put_or_wait none m
emit_event (some evt) m =
    put_or_wait (some evt)
      (with_harvester (λ h. record h { delivered = h.delivered ++ evt ∷ [] }) m)

-- The error event of a run.
unfoldable pub error_event : Text → Text → TraceEvent
error_event test_id raw = record (blank EventType.error) {
  trace_id = some test_id;
  verdict = some (codes "ERROR");
  raw_message = some raw;
}

-- `run.status = "error"`, and the error event
unfoldable pub fail_with : Text → Action (Unit {0})
unfolding emit_event
fail_with raw m = emit_event (some (error_event m.test_id raw)) (record m { status = error })

unfoldable pub emit_oracle_error : Text → Action (Unit {0})
emit_oracle_error message = fail_with (codes "oracle: " ++ message)
