-- ===== src/Engine/Suite/Tests.antt =====
-- A suite of one case, over a run of the engine.
use network_sandbox_engine.Pipeline.Sample.{seen_env, request, run_events}
use network_sandbox_engine.Pipeline.Run
use network_sandbox_engine.Runner.Sample.{conversions, case_of}
use network_sandbox_engine.Runner.Verdicts.{accept}
use network_sandbox_engine.Runner.Suite.Value.{Value, mapping}
use network_sandbox_engine.Runner.Suite.Build.{Built, ok, config_error, raised, build_case}
use network_sandbox_engine.Runner.Suite.Run.{Ran}
use network_sandbox_engine.Engine.Suite.{Session, run_of, Performs, AllHold, run_suite-AllHold}
use network_sandbox_engine.Engine.Sample.{site, idle, run_of_calls, unmistaken_run}
use network_sandbox_engine.Prelude.{
  ℕ, Text, codes, text_eq, contains, given, add, upper, lower, decimal, Bool, true, false, List, [],
  ◌∷◌, ◌≡◌, refl, sym, ap, subst, ◌∙◌,
}
use network_sandbox_engine.Prelude.Int.{is_nonzero}
use network_sandbox_engine.Prelude.Dict.{lookup, insert}
use network_sandbox_engine.Exceptions.{is_pipeline_crash, is_os_error}
use network_sandbox_engine.Models.Request.{
  TestRequest, validate_port, validate_tcp_flags, make_packet, make_request,
}
use network_sandbox_engine.Runner.Verdicts.{reduce_verdicts, collect_oracle_errors}
use network_sandbox_engine.Runner.Case.{evaluate_case, record_case, exit_code}
use network_sandbox_engine.Runner.Suite.Value.{keys, elements, get, get_or, is_truthy}
use network_sandbox_engine.Runner.Suite.Build.{
  build_packets, build_packet, packet_spec, check_keys, refuse_keys, is_sortable, topology_of,
  expectation, packet_entries, entries, to_str, default_src, default_dst, as_protocol,
}
use network_sandbox_engine.Runner.Suite.Run.{run_suite, exit_of}
use network_sandbox_engine.Harvester.Parser.{unquote}
use network_sandbox_engine.Models.{TraceEvent}

-- What a test computes with.
runs : Bool
unfolding reduce_verdicts collect_oracle_errors evaluate_case record_case run_suite build_case
    build_packets build_packet packet_spec check_keys refuse_keys is_sortable topology_of
    expectation packet_entries entries to_str get get_or keys elements is_truthy lookup insert
    text_eq contains given add upper lower decimal is_nonzero is_pipeline_crash is_os_error
    validate_port validate_tcp_flags make_packet make_request default_src default_dst as_protocol
    exit_of exit_code unquote
runs = true

abbrev session : Session
session = record {
  site = site;
  env = seen_env;
  test_id = codes "run-1";
  queue = record { items = []; capacity = 512; consumed = true };
  system = idle;
}

abbrev suite : List Value
suite = mapping (case_of (codes "accept")) ∷ []

abbrev pipeline : ℕ → TestRequest → Ran
pipeline k asked = Ran.returned run_events

abbrev built : Text × TestRequest × List Text
built = (codes "Test case 1", request, accept ∷ [])

build_run : build_case conversions (mapping (case_of (codes "accept"))) 0 ≡ ok built
unfolding runs
build_run = refl

abbrev request_of : Built (Text × TestRequest × List Text) → TestRequest
request_of (ok b) = b.1
request_of (config_error e) = request
request_of (raised e) = request

abbrev events_of : Ran → List TraceEvent
events_of (Ran.returned es) = es
events_of (Ran.crashed e) = []

-- The request that the case builds is the one of the run.
case-Performs : Performs conversions (λ k. session) pipeline 0 (mapping (case_of (codes "accept")))
case-Performs name asked expected events b e =
    let q : asked ≡ request = ap request_of (sym b ∙ build_run) in
    let q' : run_events ≡ events = ap events_of e in
    subst
      (λ asked.
        let run = run_of session asked in
        (run.0 ≡ Run.returned events) × (contains run.1.test_id run.1.canary_trace_ids ≡ false))
      (sym q) (ap (λ r. r.0) run_of_calls ∙ ap Run.returned q', unmistaken_run)

passed_run : exit_of (run_suite conversions pipeline suite) ≡ 0
unfolding runs
passed_run = refl

run_suite-AllHold_example : AllHold conversions (λ k. session) pipeline 0 suite
run_suite-AllHold_example =
    run_suite-AllHold conversions (λ k. session) pipeline suite (case-Performs, tt) passed_run
