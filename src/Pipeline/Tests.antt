-- ===== src/Pipeline/Tests.antt =====
-- A run of the pipeline whose canaries are seen.
use network_sandbox_engine.Prelude.{
  arith, ℕ, codes, contains, add, text_eq, given, after, span, run_of, strip, upper, digits_value,
  split_words, starts_with, decimal, second_part, Bool, true, false, some, [], ◌∷◌, length, ◌≡◌,
  ◌≢◌, ◌≤◌, ◌<◌, refl, ◌∙◌, ap, ◌+◌,
}
use network_sandbox_engine.Prelude.Int.{int_of, show_int, is_nonzero}
use network_sandbox_engine.Models.{TraceEvent}
use network_sandbox_engine.Harvester.Parser.{
  parse_line, is_trace_line, packet_re, rule_re, verdict_re, prefix, ident, unquote,
}
use network_sandbox_engine.Harvester.Loop.{
  start, turns, turn, iterate, deliver, record_unparsed, finish, stop, is_reading, is_healthy,
  has_room, note_id, cancel, arm_event_signal, extend_deadline, aclose,
}
use network_sandbox_engine.Harvester.Health.{health_errors}
use network_sandbox_engine.Pipeline.Canary.{probe_once, probe_oracle, without_canaries}
use network_sandbox_engine.Pipeline.Canary.Probe.{Observed, probe_oracle-Observed}
use network_sandbox_engine.Pipeline.Conntrack.{
  parse_words, parse_conntrack_line, table_entries, entry_text,
}
use network_sandbox_engine.Pipeline.Env.{Env}
use network_sandbox_engine.Pipeline.Sample.{
  seen_env, request, fresh, prepared, ready, noted, injected, live_noted, emitted, closed, done,
  run_events,
}
use network_sandbox_engine.Pipeline.Machine.{
  next, await_reads, emit_event, error_event, fail_with, emit_oracle_error,
}
use network_sandbox_engine.Pipeline.Stages.{
  start_listeners, load_rules, start_monitor, first_packet, prepare, probe, after_readiness,
  inject_packet, inject_packets, after_liveness, check_liveness, emit_entries, emit_conntrack,
  close_monitor, emit_problems, report_health,
}
use network_sandbox_engine.Pipeline.Run.{
  returned, new_machine, body, handle, fail_run, conclude, run_test_pipeline,
}
use network_sandbox_engine.Pipeline.Run.Outcome.{returned-Measured}
use network_sandbox_engine.Harvester.Loop.Accounting.{IsOpen}
use network_sandbox_engine.Pipeline.Run.Injections.{
  InTime, Observes, lines_from, inject_packets-Observes,
}
use network_sandbox_engine.Pipeline.Run.Contract.{Measured}
use network_sandbox_engine.Exceptions.{Exception, message}
use network_sandbox_engine.Harvester.Loop.{Queue}
use network_sandbox_engine.Pipeline.Run.{hangs}
use network_sandbox_engine.Pipeline.Progress.Consumed.{run_test_pipeline-ends}
use network_sandbox_engine.Pipeline.Progress.Bounded.{returned-bounded}

-- What a test computes with.
runs : Bool
unfolding start turns turn iterate deliver record_unparsed finish stop is_reading is_healthy
    has_room note_id cancel arm_event_signal extend_deadline aclose health_errors probe_once
    probe_oracle without_canaries parse_words parse_conntrack_line table_entries entry_text
    await_reads emit_event error_event fail_with emit_oracle_error start_listeners load_rules
    start_monitor first_packet prepare probe after_readiness inject_packet inject_packets
    after_liveness check_liveness emit_entries emit_conntrack close_monitor emit_problems
    report_health body handle fail_run conclude run_test_pipeline contains add text_eq given after
    span strip upper digits_value split_words starts_with decimal second_part int_of show_int
    is_nonzero parse_line is_trace_line packet_re rule_re verdict_re prefix ident run_of unquote
runs = true

prepare_run : prepare seen_env request fresh ≡ (next tt, prepared)
unfolding runs
prepare_run = refl

probe_run : probe seen_env seen_env.readiness prepared ≡ (next true, ready)
unfolding runs
probe_run = refl

readiness_run : after_readiness true ready ≡ (next tt, noted)
unfolding runs
readiness_run = refl

packets_run : inject_packets seen_env 0 request.packets noted ≡ (next tt, injected)
unfolding runs
packets_run = refl

drain_run : await_reads false [] injected ≡ (next tt, injected)
unfolding runs
drain_run = refl

liveness_run : check_liveness seen_env injected ≡ (next tt, live_noted)
unfolding runs
liveness_run = refl

before_table : await_reads false [] live_noted ≡ (next tt, live_noted)
unfolding runs
before_table = refl

table_run : emit_conntrack seen_env.conntrack live_noted ≡ (next tt, emitted)
unfolding runs
table_run = refl

close_run : close_monitor seen_env emitted ≡ (next tt, closed)
unfolding runs
close_run = refl

health_run : report_health seen_env closed ≡ (next tt, done)
unfolding runs
health_run = refl

body_run : body seen_env request fresh ≡ (next tt, done)
unfolding body
body_run =
    rw
      (
        prepare_run, probe_run, readiness_run, packets_run, drain_run, liveness_run, before_table,
        table_run, close_run, health_run,
      )
      refl

handle_run : handle seen_env (next tt) done ≡ (next tt, done)
unfolding runs
handle_run = refl

conclude_run : conclude seen_env (next tt) done ≡ returned run_events
unfolding runs
conclude_run = refl

whole_run : run_test_pipeline seen_env request fresh ≡ (returned run_events, done)
unfolding run_test_pipeline handle
whole_run =
    ap (λ r. let s = handle seen_env r.0 r.1 in (conclude seen_env s.0 s.1, s.1)) body_run
    ∙ ap (λ x. (x, done)) conclude_run

returned-Measured_example : Measured seen_env request fresh
unfolding runs
returned-Measured_example =
    returned-Measured seen_env request fresh done run_events whole_run refl refl

probe_of_run : probe_oracle false 8 seen_env.readiness 3 0 prepared ≡ (true, ready)
unfolding runs
probe_of_run = refl

probe_oracle-Observed_example :
    (j : ℕ) × (0 ≤ j) × (j < 0 + 3) × Observed false 8 seen_env.readiness prepared ready j
probe_oracle-Observed_example =
    probe_oracle-Observed false 8 seen_env.readiness 3 0 prepared ready probe_of_run

noted-IsOpen : IsOpen noted.harvester
unfolding runs
noted-IsOpen = record { works = refl; consumed = refl }

packet-InTime : InTime seen_env (seen_env.packet 0)
packet-InTime = record { succeeds = refl; window = ((refl, omega arith), tt) }

inject_packets-Observes_example :
    ((inject_packets seen_env 0 request.packets noted).0 ≡ next tt)
    × Observes false
        (lines_from seen_env 0 request.packets)
        noted.harvester
        (inject_packets seen_env 0 request.packets noted).1.harvester
inject_packets-Observes_example =
    inject_packets-Observes seen_env request.packets 0 noted (packet-InTime, tt) noted-IsOpen

run_test_pipeline-ends_example : (run_test_pipeline seen_env request fresh).0 ≢ hangs
run_test_pipeline-ends_example =
    run_test_pipeline-ends seen_env request (codes "run-1")
      (record { items = []; capacity = 512; consumed = true }) refl

-- A run whose topology cannot be created.
abbrev broken_env : Env
broken_env = record seen_env { topology = some (Exception.os_error (codes "no ip")) }

abbrev small : Queue
small = record { items = []; capacity = 3; consumed = false }

abbrev failure : TraceEvent
failure = error_event (codes "run-1") (message (Exception.os_error (codes "no ip")))

broken_run :
    (run_test_pipeline broken_env request (new_machine (codes "run-1") small)).0
    ≡ returned (failure ∷ [])
unfolding runs
broken_run = refl

returned-bounded_example : length (failure ∷ []) ≤ 3
returned-bounded_example =
    returned-bounded broken_env request (codes "run-1") 3 (failure ∷ []) broken_run
