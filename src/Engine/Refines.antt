-- ===== src/Engine/Refines.antt =====
-- A whole run, in the environment of the ends of its calls.
use network_sandbox_engine.Prelude.{Bool, [], ◌≡◌, ◌≢◌, refl, sym, ◌∙◌, ap, subst}
use network_sandbox_engine.Models.Request.{TestRequest}
use network_sandbox_engine.Shell.{System}
use network_sandbox_engine.Pipeline.Env.{Env}
use network_sandbox_engine.Pipeline.Machine.{
  Machine, Step, next, raises, rejects, returns, stuck, Action, with_harvester, await_reads,
}
use network_sandbox_engine.Pipeline.Stages
use network_sandbox_engine.Pipeline.Run
use network_sandbox_engine.Pipeline.Run.Prepared.{prepare-next}
use network_sandbox_engine.Pipeline.Machine as Machine
use network_sandbox_engine.Engine.Calls.{Site, Effect, ◌>>◌, act, listeners}
use network_sandbox_engine.Engine.{
  load_all, start_and_wait, prepare, probe, inject_all, check_liveness, report_table, body, finish,
  run_test_pipeline,
}
use network_sandbox_engine.Engine.Outcomes.{was_seen, env_of, prepared, probed, noted, drained, s₁}
use network_sandbox_engine.Engine.Stagewise.{
  zero_plus, probe-Simulates, load-Simulates, monitor-Simulates, liveness-Simulates,
  table-Simulates,
}
use network_sandbox_engine.Engine.Simulates.{
  Simulates, Simulates-act, Simulates-bind, Simulates-then, Simulates-call, listen_all-Simulates,
  inject_all-Simulates,
}

module _ (site : Site) (env : Env) (req : TestRequest) where
  module _ (m : Machine) (s : System) where
    abbrev ends : Env
    ends = env_of site env req m s

    prepare-Simulates : Simulates (prepare site env req) (Stages.prepare ends req) m s
    unfolding prepare Stages.prepare start_and_wait Stages.start_monitor load_all
    prepare-Simulates = Simulates-then (Simulates-call site _ _ m s refl) (
        Simulates-then
          (listen_all-Simulates site env req ends req.packets 0 m (s₁ site env req m s)
            (zero_plus _))
          (Simulates-then (load-Simulates site env req ends _ _ refl) (
            Simulates-then (monitor-Simulates site env req _ _ ends refl refl refl refl refl)
              (Simulates-act _ _ _))))

    -- A run goes past step 4 for a packet only.
    prepared-packets : (u : Unit {0}) → (prepared site env req m s).0 ≡ next u → req.packets ≢ []
    prepared-packets u h =
        (prepare-next ends req m (prepared site env req m s).1
          (sym prepare-Simulates.same ∙ ap (λ r. (r, (prepared site env req m s).1)) h)).2

    -- step 5 behind the probe, and the steps after it
    abbrev rest : Bool → Effect (Unit {0})
    rest ready = do
      act (Stages.after_readiness ready)
      inject_all site env req 0 req.packets
      act (await_reads env.blind env.drain_reads)
      check_liveness site env req
      act (await_reads env.blind env.conntrack_reads)
      report_table site env req
      act (Stages.close_monitor env)
      act (Stages.report_health env)

    abbrev rest_ : Bool → Action (Unit {0})
    rest_ ready = Machine.◌>>◌ (Stages.after_readiness ready) (
        Machine.◌>>◌ (Stages.inject_packets ends 0 req.packets) (
          Machine.◌>>◌ (await_reads env.blind env.drain_reads) (
            Machine.◌>>◌ (Stages.check_liveness ends) (
              Machine.◌>>◌ (await_reads env.blind env.conntrack_reads) (
                Machine.◌>>◌ (Stages.emit_conntrack ends.conntrack)
                  (Machine.◌>>◌ (Stages.close_monitor ends) (Stages.report_health ends)))))))

    closing-Simulates :
        (m' : Machine) (s' : System)
        → Simulates
            (act (Stages.close_monitor env) >> act (Stages.report_health env))
            (Machine.◌>>◌ (Stages.close_monitor ends) (Stages.report_health ends))
            m'
            s'
    unfolding Stages.close_monitor Stages.report_health
    closing-Simulates m' s' =
        Simulates-then {a = Stages.close_monitor ends} {a' = Stages.report_health ends}
          (Simulates-act (Stages.close_monitor env) m' s')
          (Simulates-act (Stages.report_health env) _ _)

    rest-Simulates :
        req.packets ≢ []
        → Simulates
            (rest (was_seen (probed site env req m s).0))
            (rest_ (was_seen (probed site env req m s).0))
            (probed site env req m s).1
            (probed site env req m s).2
    rest-Simulates n =
        Simulates-then
          (Simulates-act (Stages.after_readiness (was_seen (probed site env req m s).0)) _ _)
          (Simulates-then
            (inject_all-Simulates site env req ends req.packets 0 (noted site env req m s).1
              (noted site env req m s).2 refl refl (zero_plus _))
            (Simulates-then (Simulates-act (await_reads env.blind env.drain_reads) _ _) (
              Simulates-then
                (liveness-Simulates site env req ends (drained site env req m s).1
                  (drained site env req m s).2 refl refl refl n (λ i. refl))
                (Simulates-then (Simulates-act (await_reads env.blind env.conntrack_reads) _ _) (
                  Simulates-then (table-Simulates site env req ends _ _ refl)
                    (closing-Simulates _ _))))))

    body-Simulates : Simulates (body site env req) (Run.body ends req) m s
    unfolding body Run.body
    body-Simulates =
        Simulates-bind (prepare site env req) _ (Stages.prepare ends req) _ m s prepare-Simulates
          (λ u h.
            let n = prepared-packets u h in
            Simulates-bind (probe site env req req.packets env.readiness) rest
              (Stages.probe ends ends.readiness) rest_ _ _
              (probe-Simulates site env req ends req.packets env.readiness ends.readiness _ _ refl
                refl refl n (λ i. refl))
              (λ ready e.
                subst
                  (λ b.
                    Simulates (rest b) (rest_ b) (probed site env req m s).1
                      (probed site env req m s).2)
                  (ap was_seen e) (rest-Simulates n)))

    handle-eq :
        (step : Step (Unit {0})) (m' : Machine) → Run.handle env step m' ≡ Run.handle ends step m'
    unfolding Run.handle Run.fail_run Stages.close_monitor
    handle-eq (next x) m' = refl
    handle-eq (raises e) m' = refl
    handle-eq (rejects t) m' = refl
    handle-eq returns m' = refl
    handle-eq stuck m' = refl

    finish-eq :
        (step : Step (Unit {0})) (m' : Machine)
        → let end = finish site env req (listeners site req s) step m' (body site env req m s).2 in
          ◌≡◌ {A = Run.PipelineEnd × Machine} (end.0, end.1) (Run.conclude ends step m', m')
    unfolding finish Run.conclude
    finish-eq (next x) m' = refl
    finish-eq (raises e) m' = refl
    finish-eq (rejects t) m' = refl
    finish-eq returns m' = refl
    finish-eq stuck m' = refl

    -- A run, its calls included, ends as the step machine does whose environment is how those calls
    -- ended, with the same machine.
    pub run_test_pipeline-refines :
        let run = run_test_pipeline site env req m s in
        (run.0, run.1) ≡ Run.run_test_pipeline ends req m
    unfolding run_test_pipeline Run.run_test_pipeline
    run_test_pipeline-refines =
        let h = Run.handle env (body site env req m s).0 (body site env req m s).1 in
        finish-eq h.0 h.1
        ∙ ap (λ h. (Run.conclude ends h.0 h.1, h.1))
            (handle-eq (body site env req m s).0 (body site env req m s).1
              ∙ ap (λ r. Run.handle ends r.0 r.1) body-Simulates.same)
