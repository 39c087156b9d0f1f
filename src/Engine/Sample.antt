-- ===== src/Engine/Sample.antt =====
-- A run with its calls, on a machine where every command exits with 0.
use network_sandbox_engine.Prelude.{
  if◌then◌else◌, ℕ, Text, codes, contains, add, text_eq, given, after, span, run_of, strip, upper,
  digits_value, split_words, starts_with, decimal, second_part, true, false, none, some, [], ◌++◌,
  ◌≡◌, refl, ◌∙◌, ap, inr,
}
use network_sandbox_engine.Prelude.Int.{int_of, show_int, is_nonzero}
use network_sandbox_engine.Naming.{derive_names}
use network_sandbox_engine.Exceptions.{is_process_error, Exception}
use network_sandbox_engine.Paths.{
  resolve_once, search_dirs, is_safely_owned, is_root_only, is_runnable, others_write, parent,
  candidate,
}
use network_sandbox_engine.Shell.{
  exited, System, World, find, run_unchecked, run, exec_prefix, in_root, in_netns,
}
use network_sandbox_engine.Shell.Sample.{files}
use network_sandbox_engine.Controller.Lifecycle.{
  discard, disable_dad, create_netns, destroy_attempts, destroy_netns,
}
use network_sandbox_engine.Controller.Topology.{
  veth_steps, run_steps, create_veth_pair, pick, pick_from, or_default,
}
use network_sandbox_engine.RuleEngine.{load, load_file, with_temp_rules, check_result}
use network_sandbox_engine.Injector.{
  netns_prefix, read_mac, get_mac_address, look_up_macs, send_here, script_result, send_inside,
  send_packet, inject,
}
use network_sandbox_engine.Injector.Mac.{mac_here, search_mac}
use network_sandbox_engine.Harvester.Monitor.{monitor_command}
use network_sandbox_engine.Listener.{start_mock_listener}
use network_sandbox_engine.Pipeline.Machine.{
  Machine, next, await_reads, emit_event, error_event, fail_with, emit_oracle_error,
}
use network_sandbox_engine.Pipeline.Sample.{
  seen_env, request, fresh, prepared, ready, noted, injected, live_noted, emitted, closed, done,
  run_events,
}
use network_sandbox_engine.Pipeline.Table.{lines_of, read_file, read_table_lines}
use network_sandbox_engine.Pipeline.Topology.{
  create_topology, destroy_topology, delete_link, teardown,
}
use network_sandbox_engine.Harvester.Parser.{
  parse_line, is_trace_line, packet_re, rule_re, verdict_re, prefix, ident, unquote,
}
use network_sandbox_engine.Harvester.Loop.{
  start, turns, turn, iterate, deliver, record_unparsed, finish, stop, is_reading, is_healthy,
  has_room, note_id, cancel, arm_event_signal, extend_deadline, aclose,
}
use network_sandbox_engine.Harvester.Health.{health_errors}
use network_sandbox_engine.Pipeline.Canary.{probe_once, probe_oracle, without_canaries}
use network_sandbox_engine.Pipeline.Conntrack.{
  parse_words, parse_conntrack_line, table_entries, entry_text,
}
use network_sandbox_engine.Pipeline.Env.{Env}
use network_sandbox_engine.Engine.Calls.{Site, launch_monitor}
use network_sandbox_engine.Engine.{start_and_wait}
use network_sandbox_engine.Engine.Outcomes.{env_of, repeated, in_turn}
use network_sandbox_engine.Pipeline.Stages
use network_sandbox_engine.Pipeline.Run
use network_sandbox_engine.Engine
use network_sandbox_engine.Engine.Calls as Calls
use network_sandbox_engine.Pipeline.Listeners.{Stops, stop_listener, stop_listeners}
use network_sandbox_engine.Engine.Refines.{run_test_pipeline-refines}
use network_sandbox_engine.Controller.Lifecycle.Cleanup.{Starts}
use network_sandbox_engine.Pipeline.Topology.Cleared.{Waits}

-- What a test computes with.
runs : Text → Text
unfolding derive_names start turns turn iterate deliver record_unparsed finish stop is_reading
    is_healthy has_room note_id cancel arm_event_signal extend_deadline aclose health_errors
    probe_once probe_oracle without_canaries parse_words parse_conntrack_line table_entries
    entry_text await_reads emit_event error_event fail_with emit_oracle_error Stages.start_listeners
    Stages.load_rules Stages.start_monitor Stages.first_packet Stages.prepare Stages.probe
    Stages.after_readiness Stages.inject_packet Stages.inject_packets Stages.after_liveness
    Stages.check_liveness Stages.emit_entries Stages.emit_conntrack Stages.close_monitor
    Stages.emit_problems Stages.report_health Run.body Run.handle Run.fail_run Run.conclude
    Run.run_test_pipeline contains add text_eq given after span strip upper digits_value split_words
    starts_with decimal second_part int_of show_int is_nonzero parse_line is_trace_line packet_re
    rule_re verdict_re prefix ident run_of unquote resolve_once search_dirs is_safely_owned
    is_root_only is_runnable others_write parent candidate find run_unchecked run exec_prefix
    in_root in_netns discard disable_dad create_netns destroy_attempts destroy_netns veth_steps
    run_steps create_veth_pair pick pick_from or_default create_topology destroy_topology
    delete_link teardown launch_monitor monitor_command start_mock_listener load load_file
    with_temp_rules check_result inject netns_prefix read_mac get_mac_address look_up_macs send_here
    script_result send_inside send_packet mac_here search_mac read_file lines_of read_table_lines
    repeated in_turn Engine.try_canaries Engine.try_canary Engine.listen_all Engine.load_all
    Engine.start_and_wait Engine.prepare Engine.probe Engine.inject_one Engine.inject_all
    Engine.check_liveness Engine.report_table Engine.body Calls.listening Calls.listeners
    Calls.clean_up stop_listener stop_listeners is_process_error
runs t = t

abbrev cat : Text
cat = codes "/sbin/cat"

abbrev link_text : Text
link_text = codes "2: vhr-1: <UP> link/ether 02:00:00:00:00:a1 brd ff:ff:ff:ff:ff:ff"

abbrev table_text : Text
table_text = codes "ipv4 2 tcp 6 117 SYN_SENT src=10.0.0.1 dst=10.0.0.2 sport=4000 dport=80\n"

-- Every command exits with 0: `cat` prints a table of one entry, and each other command a link.
abbrev pub machine : World
machine = record {
  fs = record files {
    stat = λ p. if text_eq p cat then some (record { st_uid = 0; st_mode = 493 }) else files.stat p;
    is_file = λ p. if text_eq p cat then true else files.is_file p;
    can_execute = λ p. if text_eq p cat then true else files.can_execute p;
  };
  process = λ s cmd. exited 0 (if contains cat cmd then table_text else link_text) [];
  use_nsenter = false;
}

abbrev pub site : Site
site = record {
  world = machine;
  host = record {
    repr = λ t. codes "'" ++ (t ++ codes "'");
    executable = codes "/usr/bin/python3";
    failed_text = λ cmd n. codes "Command failed";
    expired_text = λ cmd. codes "Command timed out";
    send = λ s p interface. none;
  };
  tmp = record { mkstemp = λ s. inr (codes "/tmp/nse_rules_a.nft"); write_error = λ s. none };
  errors_text = λ errors. codes "errors";
  names = derive_names (codes "ab12cd34");
  listeners = λ k. record { ended = some (Exception.timeout_expired (codes "0.5")); killed = none };
}

abbrev pub idle : System
idle = record { ran = []; active_ns = []; temp_files = [] }

abbrev ends : Env
ends = env_of site seen_env request fresh idle

prepare_run : Stages.prepare ends request fresh ≡ (next tt, prepared)
unfolding runs
prepare_run = refl

probe_run : Stages.probe ends ends.readiness prepared ≡ (next true, ready)
unfolding runs
probe_run = refl

readiness_run : Stages.after_readiness true ready ≡ (next tt, noted)
unfolding runs
readiness_run = refl

packets_run : Stages.inject_packets ends 0 request.packets noted ≡ (next tt, injected)
unfolding runs
packets_run = refl

liveness_run : Stages.check_liveness ends injected ≡ (next tt, live_noted)
unfolding runs
liveness_run = refl

table_run : Stages.emit_conntrack ends.conntrack live_noted ≡ (next tt, emitted)
unfolding runs
table_run = refl

close_run : Stages.close_monitor ends emitted ≡ (next tt, closed)
unfolding runs
close_run = refl

health_run : Stages.report_health ends closed ≡ (next tt, done)
unfolding runs
health_run = refl

waits_run : (m : Machine) → await_reads false [] m ≡ (next tt, m)
unfolding runs
waits_run m = refl

body_run : Run.body ends request fresh ≡ (next tt, done)
unfolding Run.body
body_run =
    rw
      (
        prepare_run,
        probe_run,
        readiness_run,
        packets_run,
        waits_run injected,
        liveness_run,
        waits_run live_noted,
        table_run,
        close_run,
        health_run,
      )
      refl

conclude_run : Run.conclude ends (next tt) done ≡ Run.returned run_events
unfolding runs
conclude_run = refl

whole_run : Run.run_test_pipeline ends request fresh ≡ (Run.returned run_events, done)
unfolding Run.run_test_pipeline Run.handle
whole_run =
    ap (λ r. let s = Run.handle ends r.0 r.1 in (Run.conclude ends s.0 s.1, s.1)) body_run
    ∙ ap (λ x. (x, done)) conclude_run

pub run_of_calls :
    let run = Engine.run_test_pipeline site seen_env request fresh idle in
    ◌≡◌ {A = Run.PipelineEnd × Machine} (run.0, run.1) (Run.returned run_events, done)
run_of_calls = run_test_pipeline-refines site seen_env request fresh idle ∙ whole_run

pub unmistaken_run :
    let run = Engine.run_test_pipeline site seen_env request fresh idle in
    contains run.1.test_id run.1.canary_trace_ids ≡ false
unfolding runs
unmistaken_run = ap (λ r. contains r.1.test_id r.1.canary_trace_ids) run_of_calls

pub ip_found : resolve_once machine.fs (codes "ip") ≡ inr (codes "/sbin/ip")
unfolding runs
ip_found = refl

pub machine-Starts : Starts machine (codes "/sbin/ip") ip_found
machine-Starts s cmd t e = absurd (cc)

pub machine-Waits : Waits machine (codes "/sbin/ip") ip_found machine-Starts site.names
machine-Waits s e = absurd (cc)

pub machine-Stops : (k : ℕ) → Stops (site.listeners k)
unfolding runs
machine-Stops k = (refl, refl)
