-- ===== src/Engine/Cleared.antt =====
-- What the `finally` block of a run leaves on the machine.
use network_sandbox_engine.Prelude.{
  ℕ, Text, codes, true, List, ◌≡◌, ◌≢◌, refl, sym, ◌∙◌, ap, subst, inr,
}
use network_sandbox_engine.Models.{TraceEvent}
use network_sandbox_engine.Models.Request.{TestRequest}
use network_sandbox_engine.Paths.{resolve_once}
use network_sandbox_engine.Shell as Shell
use network_sandbox_engine.Shell.{System, ok}
use network_sandbox_engine.Controller.Lifecycle.Cleanup.{Starts}
use network_sandbox_engine.Pipeline.Env.{Env}
use network_sandbox_engine.Pipeline.Machine.{Machine, Step, next, raises, rejects, returns, stuck}
use network_sandbox_engine.Pipeline.Topology.{created, teardown}
use network_sandbox_engine.Pipeline.Topology.Cleared.{Gone, Waits, teardown-Gone}
use network_sandbox_engine.Pipeline.Listeners.{Stops, stop_listeners-none}
use network_sandbox_engine.Pipeline.Run.{PipelineEnd, returned, hangs, new_machine, conclude}
use network_sandbox_engine.Harvester.Loop.{Queue}
use network_sandbox_engine.Pipeline.Progress.Consumed.{run_test_pipeline-ends}
use network_sandbox_engine.Engine.Outcomes.{env_of}
use network_sandbox_engine.Engine.Refines.{run_test_pipeline-refines}
use network_sandbox_engine.Engine.Calls.{Site, exception_of, stopped, listeners, clean_up}
use network_sandbox_engine.Engine.{finish, run_test_pipeline}

module _ (site : Site) (ip : Text) (found : resolve_once site.world.fs (codes "ip") ≡ inr ip)
    (starts : Starts site.world ip found) (waits : Waits site.world ip found starts site.names)
    (quiet : (k : ℕ) → Stops (site.listeners k)) where
  -- The run returned a list of events, and its namespaces are not with the controller any more.
  abbrev pub Clears : TestRequest → PipelineEnd × Machine × System → Type 0
  Clears req run =
      ((events : List TraceEvent) × (run.0 ≡ returned events))
      × Gone site.world ip found starts (created req.topology site.names) run.2.active_ns

  clean_up-eq :
      (req : TestRequest) (n : ℕ) (s : System)
      → clean_up site req n s ≡ teardown site.world req.topology site.names s
  unfolding clean_up
  clean_up-eq req n s =
      ap (λ o. Shell.◌>>◌ (stopped site o) (teardown site.world req.topology site.names) s)
        (stop_listeners-none site.listeners n 0 quiet)

  ended :
      (req : TestRequest) (n : ℕ) (m : Machine) (es : List TraceEvent) (e : PipelineEnd)
      (s : System)
      → ((clean_up site req n s).0 ≡ ok tt → e ≡ returned es)
      → Clears req (e, m, (clean_up site req n s).1)
  ended req n m es e s k =
      let (r, g) = teardown-Gone site.world ip found starts site.names waits req.topology s in
      (
        (es, k (ap (λ c. c.0) (clean_up-eq req n s) ∙ r)),
        subst (λ c. Gone site.world ip found starts (created req.topology site.names) c.1.active_ns)
            (sym (clean_up-eq req n s)) g,
      )

  finish-Clears :
      (env : Env) (req : TestRequest) (n : ℕ) (step : Step (Unit {0})) (m : Machine) (s : System)
      → (finish site env req n step m s).0 ≢ hangs
      → Clears req (finish site env req n step m s)
  unfolding finish conclude
  finish-Clears env req n stuck m s h = absurd (h refl)
  finish-Clears env req n (next x) m s h =
      ended req n m _ _ s
        (ap (λ r. conclude (record env { teardown = exception_of site r }) (next x) m))
  finish-Clears env req n (raises e) m s h =
      ended req n m _ _ s
        (ap (λ r. conclude (record env { teardown = exception_of site r }) (raises e) m))
  finish-Clears env req n (rejects t) m s h =
      ended req n m _ _ s
        (ap (λ r. conclude (record env { teardown = exception_of site r }) (rejects t) m))
  finish-Clears env req n returns m s h =
      ended req n m _ _ s
        (ap (λ r. conclude (record env { teardown = exception_of site r }) returns m))

  -- Where somebody takes the items of the queue, `ip` is found, every process is started, the deletion of
  -- the link ends, and stopping a listener raises nothing but an OSError or a SubprocessError: a run, its
  -- calls included, returns a list of events and leaves none of its namespaces with the controller,
  -- whatever else fails in it.
  pub run_test_pipeline-Clears :
      (env : Env) (req : TestRequest) (test_id : Text) (q : Queue) (s : System)
      → q.consumed ≡ true
      → Clears req (run_test_pipeline site env req (new_machine test_id q) s)
  unfolding run_test_pipeline
  run_test_pipeline-Clears env req test_id q s c =
      let m = new_machine test_id q in
      finish-Clears env req (listeners site req s) _ _ _ (λ e.
        run_test_pipeline-ends (env_of site env req m s) req test_id q c
          (sym (ap (λ r. r.0) (run_test_pipeline-refines site env req m s)) ∙ e))
