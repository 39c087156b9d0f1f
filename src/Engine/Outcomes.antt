-- ===== src/Engine/Outcomes.antt =====
-- How the calls of a run end, as the environment of its step machine.
use network_sandbox_engine.Prelude.{ℕ, zero, suc, Bool, false, none, List, [], ◌∷◌}
use network_sandbox_engine.Models.Request.{PacketSpec, TestRequest}
use network_sandbox_engine.Shell.{System, Result, Call}
use network_sandbox_engine.RuleEngine.{load}
use network_sandbox_engine.Pipeline.Canary.{Injection}
use network_sandbox_engine.Pipeline.Env.{Env}
use network_sandbox_engine.Pipeline.Machine.{Machine, Step, next, await_reads}
use network_sandbox_engine.Pipeline.Stages
use network_sandbox_engine.Pipeline.Table.{read_table_lines}
use network_sandbox_engine.Pipeline.Topology.{
  target_netns, listener_netns, create_topology, listen_on,
}
use network_sandbox_engine.Engine.Calls.{
  Site, act, exception_of, loading_of, table_of, send, launch_monitor, canary, injection, listeners,
  clean_up,
}
use network_sandbox_engine.Engine.{listen_all, prepare, probe, inject_all, check_liveness, body}

-- The injections of one packet, each in the system that the one before it left.
unfoldable pub repeated : Site → Call (Unit {0}) → System → (ℕ → Injection) → ℕ → ℕ → Injection
repeated site c s attempts k zero = injection site (attempts k) (c s).0
repeated site c s attempts k (suc i) = repeated site c (c s).1 attempts (suc k) i

-- The calls for the packets of a list, each in the system that the one before it left.
module _ {X : Type 0} (c : PacketSpec → Call (Unit {0})) (end : ℕ → Result (Unit {0}) → X)
    (rest : X) where
  unfoldable pub in_turn : List PacketSpec → System → ℕ → ℕ → X
  in_turn [] s k i = rest
  in_turn (p ∷ ps) s k zero = end k (c p s).0
  in_turn (p ∷ ps) s k (suc i) = in_turn ps (c p s).1 (suc k) i

abbrev pub was_seen : Step Bool → Bool
was_seen (next b) = b
was_seen _ = false

module _ (site : Site) (env : Env) (req : TestRequest) where
  abbrev pub listener_call : PacketSpec → Call (Unit {0})
  listener_call p =
      listen_on site.world site.host.executable (listener_netns req.topology site.names) p.protocol
        p.dst_port

  -- the injections of a canary for the first packet
  abbrev pub canary_ends : List PacketSpec → System → (ℕ → Injection) → ℕ → Injection
  canary_ends [] s attempts i = attempts i
  canary_ends (p ∷ ps) s attempts i =
      repeated site (send site req (canary site req p)) s attempts 0 i

  module _ (m : Machine) (s : System) where
    abbrev pub s₁ : System
    s₁ = (create_topology site.world req.topology site.names s).1

    abbrev pub s₂ : System
    s₂ = (listen_all site env req req.packets m s₁).2

    abbrev pub s₃ : System
    s₃ = (load site.world site.tmp req.rules (target_netns req.topology site.names) s₂).1

    -- the machine and the system behind each of the later steps
    abbrev pub prepared : Step (Unit {0}) × Machine × System
    prepared = prepare site env req m s

    abbrev pub probed : Step Bool × Machine × System
    probed = probe site env req req.packets env.readiness prepared.1 prepared.2

    abbrev pub noted : Step (Unit {0}) × Machine × System
    noted = act (Stages.after_readiness (was_seen probed.0)) probed.1 probed.2

    abbrev pub injected : Step (Unit {0}) × Machine × System
    injected = inject_all site env req 0 req.packets noted.1 noted.2

    abbrev pub drained : Step (Unit {0}) × Machine × System
    drained = act (await_reads env.blind env.drain_reads) injected.1 injected.2

    abbrev pub checked : Step (Unit {0}) × Machine × System
    checked = check_liveness site env req drained.1 drained.2

    -- The environment in which the step machine runs as the run did.
    abbrev pub env_of : Env
    env_of = record env {
      topology = exception_of site (create_topology site.world req.topology site.names s).0;
      listener = in_turn listener_call (λ k r. exception_of site r) none req.packets s₁ 0;
      load =
          loading_of site
            (load site.world site.tmp req.rules (target_netns req.topology site.names) s₂).0;
      monitor = exception_of site (launch_monitor site (target_netns req.topology site.names) s₃).0;
      readiness = canary_ends req.packets prepared.2 env.readiness;
      packet =
          in_turn (send site req) (λ k r. injection site (env.packet k) r) (env.packet 0)
            req.packets noted.2 0;
      liveness = canary_ends req.packets drained.2 env.liveness;
      conntrack =
          table_of site
            (read_table_lines site.world (target_netns req.topology site.names) checked.2).0;
      teardown =
          exception_of site (clean_up site req (listeners site req s) (body site env req m s).2).0;
    }
