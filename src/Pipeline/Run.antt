-- ===== src/Pipeline/Run.antt =====
-- `run_test_pipeline` of nse/core/pipeline.py.
pub mod Frame
pub mod Steps
pub mod Flags
pub mod Returns
pub mod Outcome
pub mod Contract
pub mod Prepared
pub mod Injections
use network_sandbox_engine.Prelude.{
  ℕ, zero, suc, Text, codes, contains, add, not, Bool, true, false, Option, none, some, List, [],
  ◌∷◌, ◌++◌, keep, ◌⊎◌, inl, inr, if◌then◌else◌,
}
use network_sandbox_engine.Exceptions.{Exception, message}
use network_sandbox_engine.Models.{TraceEvent, EventType, blank}
use network_sandbox_engine.Models.Request.{TestRequest, PacketSpec}
use network_sandbox_engine.Harvester.Loop.{
  Harvester, Queue, start, aclose, new_harvester, extend_deadline,
}
use network_sandbox_engine.Harvester.Health.{Reprs, health_errors}
use network_sandbox_engine.Pipeline.Canary.{Injection, probe_oracle, without_canaries}
use network_sandbox_engine.Pipeline.Conntrack.{Entry, table_entries, entry_text}
use network_sandbox_engine.Pipeline.Env.{Env, Loading, loaded, refused, load_raises}
use network_sandbox_engine.Pipeline.Stages
use network_sandbox_engine.Pipeline.Machine.{
  Status, Machine, Step, next, raises, rejects, returns, stuck, Action, Reads, ◌>>=◌, ◌>>◌,
  continue, pure, attempt, with_harvester, loop_turns, await_reads, emit_event, error_event,
  fail_with, emit_oracle_error, collected_events,
}

-- How a run ends: with its events, with an exception, or never.
pub data PipelineEnd : Type 0 where
  returned : List TraceEvent → PipelineEnd
  raised : Exception → PipelineEnd
  hangs : PipelineEnd

-- The run before the first step, with the queue that the caller gave.
abbrev pub new_machine : Text → Queue → Machine
new_machine test_id q = record {
  test_id = test_id;
  status = Status.running;
  canary_trace_ids = [];
  harvester = new_harvester q;
}

module _ (env : Env) where
  -- the `try` block
  unfoldable pub body : TestRequest → Action (Unit {0})
  body req = do
    Stages.prepare env req
    ready ← Stages.probe env env.readiness
    Stages.after_readiness ready
    Stages.inject_packets env 0 req.packets
    await_reads env.blind env.drain_reads
    Stages.check_liveness env
    await_reads env.blind env.conntrack_reads
    Stages.emit_conntrack env.conntrack
    Stages.close_monitor env
    Stages.report_health env

  -- the two `except` blocks
  unfoldable pub fail_run : Text → Action (Unit {0})
  fail_run raw = do fail_with raw; emit_event none; Stages.close_monitor env

  unfoldable pub handle : Step (Unit {0}) → Action (Unit {0})
  handle (next x) = pure x
  -- the list that was returned is still the one to which the read loop appends
  handle returns = await_reads env.blind env.teardown_reads
  handle stuck = λ m. (stuck, m)
  handle (raises e) = fail_run (message e)
  handle (rejects errors) = fail_run errors

  -- the `finally` block and the last line
  unfoldable pub conclude : Step (Unit {0}) → Machine → PipelineEnd
  conclude stuck m = hangs
  conclude _ m = elim env.teardown [
    | some e ↦ raised e
    | none ↦ returned (without_canaries (collected_events m) m.canary_trace_ids)
  ]

  unfoldable pub run_test_pipeline : TestRequest → Machine → PipelineEnd × Machine
  run_test_pipeline req m =
      let (step, m) = body req m in let (step, m) = handle step m in (conclude step m, m)
