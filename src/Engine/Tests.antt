-- ===== src/Engine/Tests.antt =====
-- Runs of the engine with their calls.
use network_sandbox_engine.Prelude.{codes, true, [], refl, ap}
use network_sandbox_engine.Pipeline.Sample.{seen_env, request, fresh, run_events}
use network_sandbox_engine.Engine
use network_sandbox_engine.Engine.EndToEnd.{Exercised, run_test_pipeline-Exercised}
use network_sandbox_engine.Engine.Cleared.{Clears, run_test_pipeline-Clears}
use network_sandbox_engine.Engine.Sample.{
  site, idle, run_of_calls, unmistaken_run, ip_found, machine-Starts, machine-Waits, machine-Stops,
}

run_test_pipeline-Exercised_example : Exercised site request seen_env fresh idle
run_test_pipeline-Exercised_example =
    run_test_pipeline-Exercised site request seen_env fresh idle run_events
      (ap (λ r. r.0) run_of_calls) unmistaken_run refl

run_test_pipeline-Clears_example :
    Clears site
      (codes "/sbin/ip")
      ip_found
      machine-Starts
      machine-Waits
      machine-Stops
      request
      (Engine.run_test_pipeline site seen_env request fresh idle)
run_test_pipeline-Clears_example =
    run_test_pipeline-Clears site (codes "/sbin/ip") ip_found machine-Starts machine-Waits
      machine-Stops seen_env request (codes "run-1")
      (record { items = []; capacity = 512; consumed = true }) idle refl
