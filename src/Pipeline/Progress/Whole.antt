-- ===== src/Pipeline/Progress/Whole.antt =====
-- What the harvester keeps holds at the end of a run.
use network_sandbox_engine.Prelude.{Text, none, some, ◌≡◌, refl, Option-cases, inl, inr}
use network_sandbox_engine.Exceptions.{message}
use network_sandbox_engine.Models.Request.{TestRequest}
use network_sandbox_engine.Harvester.Loop.{Harvester}
use network_sandbox_engine.Pipeline.Env.{Env}
use network_sandbox_engine.Pipeline.Stages.{}
use network_sandbox_engine.Pipeline.Machine.{
  Machine, Step, next, raises, rejects, returns, stuck, collected_events,
}
use network_sandbox_engine.Pipeline.Run.{
  PipelineEnd, returned, raised, hangs, body, handle, fail_run, conclude, run_test_pipeline,
}
use network_sandbox_engine.Pipeline.Progress.{
  Law, After, Respects, Respects-bind, Respects-await, Respects-emit, Respects-fail,
}
use network_sandbox_engine.Pipeline.Canary.{without_canaries}
use network_sandbox_engine.Pipeline.Progress.Stagewise.{
  Respects-prepare, Respects-probe, Respects-readiness, Respects-inject_packets,
  Respects-check_liveness, Respects-conntrack, Respects-close, Respects-health,
}

module _ {I : Harvester → Type 0} {Hang : Type 0} (law : Law I Hang) where
  module _ (env : Env) where
    Respects-body : (req : TestRequest) → Respects I Hang (body env req)
    unfolding body
    Respects-body req = Respects-bind _ _ (Respects-prepare law env req) (λ _.
        Respects-bind _ _ (Respects-probe law env env.readiness) (λ ready.
          Respects-bind _ _ (Respects-readiness law env ready) (λ _.
            Respects-bind _ _ (Respects-inject_packets law env 0 req.packets) (λ _.
              Respects-bind _ _ (Respects-await law env.blind env.drain_reads) (λ _.
                Respects-bind _ _ (Respects-check_liveness law env) (λ _.
                  Respects-bind _ _ (Respects-await law env.blind env.conntrack_reads) (λ _.
                    Respects-bind _ _ (Respects-conntrack law env env.conntrack) (λ _.
                      Respects-bind _ _ (Respects-close law env)
                        (λ _. Respects-health law env)))))))))

    Respects-fail_run : (raw : Text) → Respects I Hang (fail_run env raw)
    unfolding fail_run
    Respects-fail_run raw =
        Respects-bind _ _ (Respects-fail law raw)
          (λ _. Respects-bind _ _ (Respects-emit law none) (λ _. Respects-close law env))

    handle-After :
        (r : Step (Unit {0})) (m : Machine)
        → After I Hang r m
        → After I Hang (handle env r m).0 (handle env r m).1
    unfolding handle
    handle-After (next x) m i = i
    handle-After returns m i = (Respects-await law env.blind env.teardown_reads).at m i
    handle-After stuck m i = i
    handle-After (raises e) m i = (Respects-fail_run (message e)).at m i
    handle-After (rejects t) m i = (Respects-fail_run t).at m i

    -- What holds at the end of a run.
    abbrev pub AtEnd : PipelineEnd → Machine → Type 0
    AtEnd hangs m = Hang
    AtEnd (returned es) m =
        (es ≡ without_canaries (collected_events m) m.canary_trace_ids) × I m.harvester
    AtEnd (raised e) m = Unit

    over-AtEnd :
        (m : Machine)
        → I m.harvester
        → AtEnd
            (elim env.teardown as (λ _. PipelineEnd) [
              | some e ↦ raised e
              | none ↦ returned (without_canaries (collected_events m) m.canary_trace_ids)
            ])
            m
    over-AtEnd m i = elim (Option-cases env.teardown) [
      | inl e ↦ rw e (refl, i)
      | inr (x, e) ↦ rw e tt
    ]

    conclude-AtEnd :
        (r : Step (Unit {0})) (m : Machine) → After I Hang r m → AtEnd (conclude env r m) m
    unfolding conclude
    conclude-AtEnd (next x) m i = over-AtEnd m i
    conclude-AtEnd (raises e) m i = over-AtEnd m i
    conclude-AtEnd (rejects t) m i = over-AtEnd m i
    conclude-AtEnd returns m i = over-AtEnd m i
    conclude-AtEnd stuck m i = i

    pub run-AtEnd :
        (req : TestRequest) (m : Machine)
        → I m.harvester
        → AtEnd (run_test_pipeline env req m).0 (run_test_pipeline env req m).1
    unfolding run_test_pipeline
    run-AtEnd req m i =
        let (r, m') = body env req m in
        let (r', m'') = handle env r m' in
        conclude-AtEnd r' m'' (handle-After r m' ((Respects-body req).at m i))
