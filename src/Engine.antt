-- ===== src/Engine.antt =====
-- `run_test_pipeline` of nse/core/pipeline.py with the calls that it makes: into the controller, the rule
-- engine, the injector and the listeners, on one machine and in the order of the source.
pub mod Calls
pub mod Outcomes
pub mod Simulates
pub mod Stagewise
pub mod Refines
pub mod EndToEnd
pub mod Cleared
pub mod Suite
pub mod Sample
mod Tests
use network_sandbox_engine.Prelude.{ℕ, zero, suc, Bool, true, false, List, [], ◌∷◌}
use network_sandbox_engine.Models.Request.{PacketSpec, TestRequest}
use network_sandbox_engine.Shell.{System, Call}
use network_sandbox_engine.Harvester.Loop.{start}
use network_sandbox_engine.RuleEngine.{load}
use network_sandbox_engine.Pipeline.Canary.{Injection, probe_once}
use network_sandbox_engine.Pipeline.Env.{Env}
use network_sandbox_engine.Pipeline.Machine.{
  Machine, Step, next, stuck, await_reads, with_harvester,
}
use network_sandbox_engine.Pipeline.Stages
use network_sandbox_engine.Pipeline.Run.{PipelineEnd, hangs, handle, conclude}
use network_sandbox_engine.Pipeline.Table.{read_table_lines}
use network_sandbox_engine.Pipeline.Topology.{
  target_netns, listener_netns, create_topology, listen_on,
}
use network_sandbox_engine.Engine.Calls.{
  Site, Effect, ◌>>=◌, ◌>>◌, act, exception_of, call, loading_of, table_of, send, launch_monitor,
  canary, injection, listeners, clean_up,
}

-- The settings of a run, the times and what the read loop sees while the pipeline awaits something.
-- How the calls end is not taken from it.
module _ (site : Site) (env : Env) where
  -- step 2
  unfoldable pub listen_all : TestRequest → List PacketSpec → Effect (Unit {0})
  listen_all req [] = act (λ m. (next tt, m))
  listen_all req (p ∷ ps) =
      call site (
        listen_on site.world site.host.executable (listener_netns req.topology site.names)
          p.protocol p.dst_port)
      >> listen_all req ps

  -- step 3
  unfoldable pub load_all : TestRequest → Effect (Unit {0})
  load_all req m s =
      let (r, s') = load site.world site.tmp req.rules (target_netns req.topology site.names) s in
      act (Stages.load_rules (loading_of site r)) m s'

  -- step 4
  unfoldable pub start_and_wait : TestRequest → Effect (Unit {0})
  start_and_wait req =
      call site (launch_monitor site (target_netns req.topology site.names))
      >> act (λ m.
        await_reads env.blind env.ready_reads
          (with_harvester (start env.started_at env.initial_timeout) m))

  unfoldable pub prepare : TestRequest → Effect (Unit {0})
  prepare req = do
    call site (create_topology site.world req.topology site.names)
    listen_all req req.packets
    load_all req
    start_and_wait req
    act (Stages.first_packet req.packets)

  -- one attempt of a canary
  unfoldable pub try_canary :
      Call (Unit {0}) → Injection → Machine → System → Bool × Machine × System
  try_canary c i m s =
      let (r, s') = c s in
      let (seen, m') = probe_once env.blind env.idle_timeout (injection site i r) m in
      (seen, m', s')

  unfoldable pub try_canaries :
      Call (Unit {0}) → (ℕ → Injection) → ℕ → ℕ → Machine → System → Bool × Machine × System
  try_canaries c attempts zero k m s = (false, m, s)
  try_canaries c attempts (suc n) k m s =
      let (seen, m', s') = try_canary c (attempts k) m s in
      elim seen [ true ↦ (true, m', s') | false ↦ try_canaries c attempts n (suc k) m' s' ]

  -- `_probe_oracle`, for the first packet
  abbrev probe_for : TestRequest → PacketSpec → (ℕ → Injection) → Effect Bool
  probe_for req p attempts m s =
      let (seen, m', s') =
        try_canaries (send site req (canary site req p)) attempts env.canary_attempts 0 m s in
      (next seen, m', s')

  unfoldable pub probe : TestRequest → List PacketSpec → (ℕ → Injection) → Effect Bool
  probe req [] attempts m s = (next false, m, s)
  probe req (p ∷ ps) attempts m s = probe_for req p attempts m s

  -- step 6
  unfoldable pub inject_one : TestRequest → PacketSpec → Injection → Effect (Unit {0})
  inject_one req p i m s =
      let (r, s') = send site req p s in act (Stages.inject_packet env (injection site i r)) m s'

  unfoldable pub inject_all : TestRequest → ℕ → List PacketSpec → Effect (Unit {0})
  inject_all req k [] = act (λ m. (next tt, m))
  inject_all req k (p ∷ ps) = inject_one req p (env.packet k) >> inject_all req (suc k) ps

  -- step 7
  unfoldable pub check_liveness : TestRequest → Effect (Unit {0})
  check_liveness req m s =
      (probe req req.packets env.liveness >>= λ seen.
      act (Stages.after_liveness m.harvester.seen_trace_ids seen))
        m s

  -- step 8
  unfoldable pub report_table : TestRequest → Effect (Unit {0})
  report_table req m s =
      let (r, s') = read_table_lines site.world (target_netns req.topology site.names) s in
      act (Stages.emit_conntrack (table_of site r)) m s'

  -- the `try` block
  unfoldable pub body : TestRequest → Effect (Unit {0})
  body req = do
    prepare req
    ready ← probe req req.packets env.readiness
    act (Stages.after_readiness ready)
    inject_all req 0 req.packets
    act (await_reads env.blind env.drain_reads)
    check_liveness req
    act (await_reads env.blind env.conntrack_reads)
    report_table req
    act (Stages.close_monitor env)
    act (Stages.report_health env)

  -- the `finally` block, which a run that waits forever does not reach, and the last line; `n`
  -- listeners were started
  unfoldable pub finish :
      TestRequest → ℕ → Step (Unit {0}) → Machine → System → PipelineEnd × Machine × System
  finish req n stuck m s = (hangs, m, s)
  finish req n step m s =
      let (r, s') = clean_up site req n s in
      (conclude (record env { teardown = exception_of site r }) step m, m, s')

  unfoldable pub run_test_pipeline : TestRequest → Machine → System → PipelineEnd × Machine × System
  run_test_pipeline req m s =
      let n = listeners site req s in
      let (step, m, s) = body req m s in let (step, m) = handle env step m in finish req n step m s
