-- ===== src/Runner/Tests.antt =====
-- The suite runner on small suites.
use network_sandbox_engine.Prelude.{
  ℕ, zero, suc, Text, codes, text_eq, contains, given, add, upper, lower, decimal, Bool, true,
  false, some, List, [], ◌∷◌, ◌≡◌, ◌≢◌, ◌↔◌, ◌⊎◌, refl, length, all, All, ◌+◌, ◌≤◌,
}
use network_sandbox_engine.Prelude.Int.{pos, is_nonzero}
use network_sandbox_engine.Prelude.Dict.{lookup, insert}
use network_sandbox_engine.Exceptions.{Exception, is_pipeline_crash, is_os_error}
use network_sandbox_engine.Models.{TraceEvent, EventType, blank}
use network_sandbox_engine.Models.Request.{
  TestRequest, validate_port, validate_tcp_flags, make_packet, make_request,
}
use network_sandbox_engine.Runner.Verdicts.{accept, drop, reduce_verdicts, collect_oracle_errors}
use network_sandbox_engine.Runner.Verdicts.Reduced.{reduced}
use network_sandbox_engine.Runner.Verdicts.Laws.{reduce_verdicts-eq-reduced}
use network_sandbox_engine.Runner.Sample.{conversions, case_of, web_request}
use network_sandbox_engine.Runner.Case.{evaluate_case, SuiteOutcome, record_case}
use network_sandbox_engine.Runner.Case.Laws.{evaluate_case-passed_iff, evaluate_case-blamed_iff}
use network_sandbox_engine.Runner.Suite.Value.{
  text, Value, null, int, str, sequence, mapping, Items, Fields, end, field, keys, elements, get,
  get_or, is_truthy,
}
use network_sandbox_engine.Runner.Suite.Build.{
  ok, raised, build_case, build_packets, build_packet, packet_spec, check_keys, refuse_keys,
  is_sortable, topology_of, expectation, packet_entries, entries, to_str, is_known, case_keys,
  not_iterable, default_src, default_dst, as_protocol,
}
use network_sandbox_engine.Runner.Suite.Build.Keys.{IsEntry, build_case-keys_known}
use network_sandbox_engine.Runner.Suite.Build.Shape.{IsCase, build_case-IsCase}
use network_sandbox_engine.Runner.Suite.Build.Raised.{IsUnforeseen, build_case-raised}
use network_sandbox_engine.Runner.Suite.Run.{Ran, returned, crashed, finished, run_suite, exit_of}
use network_sandbox_engine.Runner.Suite.Run.Laws.{
  AllPass, run_suite-exit_zero_iff, run_suite-counts,
}

-- What a test computes with.
runs : Bool
unfolding reduce_verdicts collect_oracle_errors evaluate_case record_case run_suite build_case
    build_packets build_packet packet_spec check_keys refuse_keys is_sortable topology_of
    expectation packet_entries entries to_str get get_or keys elements is_truthy lookup insert
    text_eq contains given add upper lower decimal is_nonzero is_pipeline_crash is_os_error
    validate_port validate_tcp_flags make_packet make_request default_src default_dst as_protocol
runs = true

abbrev event : EventType → Text → Text → Text → TraceEvent
event kind id table verdict = record (blank kind) {
  trace_id = some id;
  table = some table;
  verdict = some verdict;
}

-- One packet that the ruleset drops behind the scaffold's accept, and one that it accepts.
abbrev run_events : List TraceEvent
run_events =
    event EventType.verdict (codes "a1") (codes "nse_trace") (codes "ACCEPT")
    ∷ event EventType.match (codes "a1") (codes "filter") (codes "ACCEPT")
    ∷ event EventType.verdict (codes "b2") (codes "filter") (codes "accept")
    ∷ event EventType.verdict (codes "a1") (codes "filter") (codes "REJECT")
    ∷ []

verdicts_of_run : reduce_verdicts run_events ≡ drop ∷ accept ∷ []
unfolding runs
verdicts_of_run = refl

no_error_in_run : collect_oracle_errors run_events ≡ []
unfolding runs
no_error_in_run = refl

reduce_verdicts-eq-reduced_example : reduce_verdicts run_events ≡ reduced run_events
reduce_verdicts-eq-reduced_example = reduce_verdicts-eq-reduced run_events

abbrev expectations : List Text
expectations = drop ∷ accept ∷ []

evaluate_case-passed_iff_example :
    ((evaluate_case (codes "web") expectations run_events).passed ≡ true)
    ↔ ((collect_oracle_errors run_events ≡ []) × (reduce_verdicts run_events ≡ expectations))
evaluate_case-passed_iff_example = evaluate_case-passed_iff (codes "web") expectations run_events

evaluate_case-blamed_iff_example :
    (((evaluate_case (codes "web") expectations run_events).oracle_error ≡ true) ↔ (
      (collect_oracle_errors run_events ≢ [])
      ⊎ (length (reduce_verdicts run_events) ≢ length expectations)))
    × ((evaluate_case (codes "web") expectations run_events).oracle_error ≡ true
        → (evaluate_case (codes "web") expectations run_events).passed ≡ false)
evaluate_case-blamed_iff_example = evaluate_case-blamed_iff (codes "web") expectations run_events

abbrev web_case : Fields
web_case = case_of (codes "reject")

abbrev web_built : Text × TestRequest × List Text
web_built = (codes "Test case 1", web_request, drop ∷ [])

build_web_case : build_case conversions (mapping web_case) 0 ≡ ok web_built
unfolding runs
build_web_case = refl

build_case-IsCase_example : IsCase conversions.is_ip web_request (drop ∷ [])
build_case-IsCase_example = build_case-IsCase conversions web_case 0 {r = web_built} build_web_case

build_case-keys_known_example :
    (all (is_known case_keys) (keys web_case) ≡ true)
    × (items : Items) × (get_or (codes "packets") web_case null ≡ sequence items)
    × All IsEntry (elements items)
build_case-keys_known_example =
    build_case-keys_known conversions web_case 0 {r = web_built} build_web_case

-- `packets: 5`
abbrev scalar_case : Fields
scalar_case =
    field (text (codes "packets")) (int (pos 5))
      (field (text (codes "rules")) (str (codes "table ip filter {}")) end)

build_scalar_case : build_case conversions (mapping scalar_case) 0 ≡ raised not_iterable
unfolding runs
build_scalar_case = refl

build_case-raised_example : IsUnforeseen (mapping scalar_case)
build_case-raised_example = build_case-raised conversions (mapping scalar_case) 0 build_scalar_case

abbrev web_events : List TraceEvent
web_events = event EventType.verdict (codes "a1") (codes "filter") (codes "DROP") ∷ []

abbrev pipeline : ℕ → TestRequest → Ran
pipeline zero request = returned web_events
pipeline (suc n) request = crashed (Exception.runtime_error (codes "no namespace"))

-- The case passes, its repetition crashes, and the last entry is no mapping.
abbrev suite : List Value
suite = mapping web_case ∷ mapping web_case ∷ null ∷ []

abbrev suite_counts : SuiteOutcome
suite_counts = record { passed = 1; failed = 2; oracle_errors = 1 }

run_of_suite : run_suite conversions pipeline suite ≡ finished suite_counts
unfolding runs
run_of_suite = refl

run_suite-counts_example : (1 + 2 ≡ length suite) × (1 ≤ 2)
run_suite-counts_example = run_suite-counts conversions pipeline suite suite_counts run_of_suite

run_suite-exit_zero_iff_example :
    (exit_of (run_suite conversions pipeline suite) ≡ 0) ↔ AllPass conversions pipeline 0 suite
run_suite-exit_zero_iff_example = run_suite-exit_zero_iff conversions pipeline suite
