-- ===== src/Engine/Stagewise.antt =====
-- The steps of a run, each as a step of the machine.
use network_sandbox_engine.Prelude.{
  ℕ, ◌+◌, Option, none, some, List, [], ◌∷◌, ◌≡◌, ◌≢◌, refl, ◌∙◌, ap, arith,
}
use network_sandbox_engine.Exceptions.{Exception}
use network_sandbox_engine.Models.Request.{PacketSpec, TestRequest}
use network_sandbox_engine.Shell.{System}
use network_sandbox_engine.Pipeline.Canary.{Injection}
use network_sandbox_engine.Pipeline.Env.{Env}
use network_sandbox_engine.Pipeline.Machine.{Machine, next}
use network_sandbox_engine.Pipeline.Stages
use network_sandbox_engine.Pipeline.Table.{read_table_lines}
use network_sandbox_engine.Pipeline.Topology.{target_netns}
use network_sandbox_engine.RuleEngine.{load}
use network_sandbox_engine.Engine.Calls.{
  loading_of, Site, exception_of, table_of, launch_monitor, send, canary,
}
use network_sandbox_engine.Engine.{load_all, start_and_wait, probe, check_liveness, report_table}
use network_sandbox_engine.Engine.Outcomes.{canary_ends}
use network_sandbox_engine.Engine.Simulates.{
  Simulates, Simulates-act, Simulates-bind, try_canaries-eq,
}

pub zero_plus : {X : Type 0} (f : ℕ → X) (i : ℕ) → f (0 + i) ≡ f i
zero_plus f i = ap f (omega arith)

module _ (site : Site) (env : Env) (req : TestRequest) where
  pub probe-Simulates :
      (env' : Env) (ps : List PacketSpec) (attempts f : ℕ → Injection) (m : Machine) (s : System)
      → env'.blind ≡ env.blind
      → env'.idle_timeout ≡ env.idle_timeout
      → env'.canary_attempts ≡ env.canary_attempts
      → ps ≢ []
      → ((i : ℕ) → f i ≡ canary_ends site env req ps s attempts i)
      → Simulates (probe site env req ps attempts) (Stages.probe env' f) m s
  unfolding probe Stages.probe
  probe-Simulates env' [] attempts f m s b t n e h = absurd (e refl)
  probe-Simulates env' (p ∷ ps) attempts f m s b t n e h = record {
    same =
        rw (b, t, n)
          (ap (λ r. (next r.0, r.1))
            (try_canaries-eq site env req env' (send site req (canary site req p)) attempts f
              env.canary_attempts 0 m s (λ i. zero_plus f i ∙ h i)));
  }

  pub load-Simulates :
      (env' : Env) (m : Machine) (s : System)
      → env'.load
        ≡ loading_of site
            (load site.world site.tmp req.rules (target_netns req.topology site.names) s).0
      → Simulates (load_all site env req) (Stages.load_rules env'.load) m s
  unfolding load_all
  load-Simulates env' m s e = record { same = rw e refl }

  pub monitor-Simulates :
      (m' : Machine) (s' : System) (env' : Env)
      → env'.monitor
        ≡ exception_of site (launch_monitor site (target_netns req.topology site.names) s').0
      → env'.blind ≡ env.blind
      → env'.ready_reads ≡ env.ready_reads
      → env'.started_at ≡ env.started_at
      → env'.initial_timeout ≡ env.initial_timeout
      → Simulates (start_and_wait site env req) (Stages.start_monitor env') m' s'
  unfolding start_and_wait Stages.start_monitor
  monitor-Simulates m' s' env' e b r a t =
      go (exception_of site (launch_monitor site (target_netns req.topology site.names) s').0) refl
    where
      go :
          (o : Option Exception)
          → exception_of site (launch_monitor site (target_netns req.topology site.names) s').0 ≡ o
          → Simulates (start_and_wait site env req) (Stages.start_monitor env') m' s'
      go none q = record { same = rw (q, e, q, b, r, a, t) refl }
      go (some x) q = record { same = rw (q, e, q) refl }

  pub liveness-Simulates :
      (env' : Env) (m' : Machine) (s' : System)
      → env'.blind ≡ env.blind
      → env'.idle_timeout ≡ env.idle_timeout
      → env'.canary_attempts ≡ env.canary_attempts
      → req.packets ≢ []
      → ((i : ℕ) → env'.liveness i ≡ canary_ends site env req req.packets s' env.liveness i)
      → Simulates (check_liveness site env req) (Stages.check_liveness env') m' s'
  unfolding check_liveness Stages.check_liveness
  liveness-Simulates env' m' s' b t n e h = record {
    same =
        (Simulates-bind _ _ _ _ m' s'
          (probe-Simulates env' req.packets env.liveness env'.liveness m' s' b t n e h)
          (λ seen _.
            Simulates-act (Stages.after_liveness m'.harvester.seen_trace_ids seen) _ _)).same;
  }

  pub table-Simulates :
      (env' : Env) (m' : Machine) (s' : System)
      → env'.conntrack
        ≡ table_of site (read_table_lines site.world (target_netns req.topology site.names) s').0
      → Simulates (report_table site env req) (Stages.emit_conntrack env'.conntrack) m' s'
  unfolding report_table
  table-Simulates env' m' s' e = record { same = rw e refl }
