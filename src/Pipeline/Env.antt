-- ===== src/Pipeline/Env.antt =====
-- What the other components, the kernel and the clock do in a run of nse/core/pipeline.py.
use network_sandbox_engine.Prelude.{ℕ, Text, Bool, Option, List, ◌⊎◌}
use network_sandbox_engine.Exceptions.{Exception}
use network_sandbox_engine.Harvester.Health.{Reprs}
use network_sandbox_engine.Pipeline.Canary.{Injection}
use network_sandbox_engine.Pipeline.Machine.{Reads}

-- How loading the rules ends.
pub data Loading : Type 0 where
  loaded : Loading
  -- `str` of the errors of a RuleValidationError
  refused : Text → Loading
  load_raises : Exception → Loading

pub record Env : Type 0 where
  pub blind : Bool
  -- the numbers of the module: _TRACE_IDLE_TIMEOUT and _CANARY_ATTEMPTS
  pub idle_timeout : ℕ
  pub canary_attempts : ℕ
  -- the creation of the topology, and the start of the listener for each packet
  pub topology : Option Exception
  pub listener : ℕ → Option Exception
  pub load : Loading
  -- the start of the monitor: its time, its timeout, and what raises
  pub started_at : ℕ
  pub initial_timeout : ℕ
  pub monitor : Option Exception
  -- the reads of the loop while `wait_ready` waits, in the drain delay, while conntrack is read, and
  -- in the timeout of `aclose`
  pub ready_reads : Reads
  pub drain_reads : Reads
  pub conntrack_reads : Reads
  pub closing_reads : Reads
  pub readiness : ℕ → Injection
  pub packet : ℕ → Injection
  pub liveness : ℕ → Injection
  -- the lines of the conntrack table, or what reading them raises
  pub conntrack : Exception ⊎ List Text
  -- the `finally` block, and the reads of a loop that is not closed before it
  pub teardown : Option Exception
  pub teardown_reads : Reads
  pub reprs : Reprs
