-- ===== src/Pipeline/Run/Outcome.antt =====
-- The contract of `run_test_pipeline`, from the end of its body to the list that it returns.
use network_sandbox_engine.Prelude.{
  Text, contains, false, Option, none, some, List, ◌≡◌, refl, ap, subst, any, inl, inr, ◌⊎◌,
}
use network_sandbox_engine.Exceptions.{Exception, message}
use network_sandbox_engine.Models.{TraceEvent, is_error}
use network_sandbox_engine.Models.Request.{TestRequest}
use network_sandbox_engine.Pipeline.Canary.{without_canaries}
use network_sandbox_engine.Pipeline.Env.{Env}
use network_sandbox_engine.Pipeline.Stages.{
  prepare, probe, after_readiness, inject_packets, check_liveness, emit_conntrack, close_monitor,
  report_health,
}
use network_sandbox_engine.Pipeline.Machine.{
  Machine, Step, next, raises, rejects, returns, stuck, Action, ◌>>◌, continue, await_reads,
  fail_with, collected_events,
}
use network_sandbox_engine.Pipeline.Run.{
  PipelineEnd, returned, raised, body, handle, fail_run, conclude, run_test_pipeline,
}
use network_sandbox_engine.Pipeline.Run.Frame.{Keeps-continue, Keeps-bind, Keeps-await, Keeps-emit}
use network_sandbox_engine.Pipeline.Run.Steps.{Keeps-close}
use network_sandbox_engine.Pipeline.Run.Returns.{
  Stays, Stays-bind, Stays-await, Stays-prepare, Stays-probe, Stays-inject_packets,
  Stays-check_liveness, Stays-conntrack, Stays-close, Stays-health,
}
use network_sandbox_engine.Pipeline.Run.Flags.{
  IsFlagged, Later-IsFlagged, fail_with-IsFlagged, without_canaries-flag,
}
use network_sandbox_engine.Pipeline.Run.Contract.{Measured, body-Measured, readiness-returns}

-- An early return of two steps is one of the first or of the second.
continue-returns {ℓ κ} :
    {A : Type ℓ} {B : Type κ} (r : Step A) (f : A → Action B) (m : Machine)
    → (r ≡ returns → IsFlagged m)
    → ((x : A) → (f x m).0 ≡ returns → IsFlagged (f x m).1)
    → (continue r f m).0 ≡ returns
    → IsFlagged (continue r f m).1
continue-returns (next a) f m k l h = l a h
continue-returns (raises e) f m k l h = absurd (cc)
continue-returns (rejects t) f m k l h = absurd (cc)
continue-returns returns f m k l h = k refl
continue-returns stuck f m k l h = absurd (cc)

module _ (env : Env) (req : TestRequest) where
  -- A failed run has an error event.
  fail_run-IsFlagged : (raw : Text) (m : Machine) → IsFlagged (fail_run env raw m).1
  unfolding fail_run
  fail_run-IsFlagged raw m =
      Later-IsFlagged (fail_with raw m).1 _
        (Keeps-continue (fail_with raw m).0 _ _
          (λ _. Keeps-bind _ _ (Keeps-emit none) (λ _. Keeps-close env)))
        (fail_with-IsFlagged raw m)

  -- The steps behind the readiness canary do not return early.
  Stays-rest : Stays (do
    inject_packets env 0 req.packets
    await_reads env.blind env.drain_reads
    check_liveness env
    await_reads env.blind env.conntrack_reads
    emit_conntrack env.conntrack
    close_monitor env
    report_health env)
  Stays-rest =
      search
        (
          Stays-bind, Stays-await, Stays-inject_packets, Stays-check_liveness, Stays-conntrack,
          Stays-close, Stays-health,
        )
        depth 9

  -- A body that returns early has left an error event.
  body-returns : (m : Machine) → (body env req m).0 ≡ returns → IsFlagged (body env req m).1
  unfolding body
  body-returns m =
      continue-returns (prepare env req m).0 _ _ (λ e. absurd ((Stays-prepare env req).at m e))
        (λ _.
          continue-returns (probe env env.readiness _).0 _ _
            (λ e. absurd ((Stays-probe env env.readiness).at _ e))
            (λ seen.
              continue-returns (after_readiness seen _).0 _ _ (readiness-returns env req seen _)
                (λ _ e. absurd (Stays-rest.at _ e))))

  outcome :
      (s : Step (Unit {0})) (m m' : Machine) (events : List TraceEvent)
      → (s ≡ next tt → Measured env req m ⊎ IsFlagged m')
      → (s ≡ returns → IsFlagged m')
      → conclude env (handle env s m').0 (handle env s m').1 ≡ returned events
      → Measured env req m ⊎ IsFlagged (handle env s m').1
  unfolding handle conclude
  outcome (next tt) m m' es k r h = k refl
  outcome (raises e) m m' es k r h = inr (fail_run-IsFlagged (message e) m')
  outcome (rejects t) m m' es k r h = inr (fail_run-IsFlagged t m')
  outcome returns m m' es k r h =
      inr (Later-IsFlagged m' _ ((Keeps-await env.blind env.teardown_reads).at m') (r refl))
  outcome stuck m m' es k r h = absurd (cc)

  ended :
      (o : Option Exception) {x : List TraceEvent} {es : List TraceEvent}
      → elim o as (λ _. PipelineEnd) [ some e ↦ raised e | none ↦ returned x ] ≡ returned es
      → es ≡ x
  ended none h = cc
  ended (some e) h = absurd (cc)

  -- The list of a run that returns.
  conclude-returned :
      (s : Step (Unit {0})) (m : Machine) (events : List TraceEvent)
      → conclude env s m ≡ returned events
      → events ≡ without_canaries (collected_events m) m.canary_trace_ids
  unfolding conclude
  conclude-returned (next tt) m es h = ended env.teardown h
  conclude-returned (raises e) m es h = ended env.teardown h
  conclude-returned (rejects t) m es h = ended env.teardown h
  conclude-returned returns m es h = ended env.teardown h
  conclude-returned stuck m es h = absurd (cc)

  -- A run that returns a list without an error event, and whose id is not the id of a canary, took
  -- every step: its readiness canary was seen, each packet was injected, its liveness canary was seen,
  -- the conntrack table was reported, and the harvester that it closed is healthy and has no line of
  -- trace output that it could not parse.
  pub returned-Measured :
      (m m' : Machine) (events : List TraceEvent)
      → run_test_pipeline env req m ≡ (returned events, m')
      → contains m'.test_id m'.canary_trace_ids ≡ false
      → any is_error events ≡ false
      → Measured env req m
  unfolding run_test_pipeline
  returned-Measured m m' es h c n =
      let (s, b) = body env req m in
      let h₀ = ap (λ (x : PipelineEnd × Machine). x.0) h in
      let h₁ = ap (λ (x : PipelineEnd × Machine). x.1) h in
      elim (outcome s m b es (λ e. body-Measured env req m b (ap (λ x. (x, b)) e)) (body-returns m)
        h₀) [
          | inl k ↦ k
          | inr f ↦
              let d =
                conclude-returned (handle env s b).0 m' es
                  (subst (λ x. conclude env (handle env s b).0 x ≡ returned es) h₁ h₀) in
              let f' =
                without_canaries-flag m'.test_id m'.canary_trace_ids (collected_events m') c
                  (subst IsFlagged h₁ f) in
              absurd (cc)
        ]
