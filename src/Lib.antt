-- ===== src/Lib.antt =====
-- Network Sandbox Engine: a test run of an nftables ruleset, and the verdict on it.
--
-- A suite file holds cases. The runner (nse/cli/runner.py) builds a request from each case, has the
-- pipeline (nse/core/pipeline.py) run it, and compares the verdicts in the returned events with those
-- that the case expects. The pipeline sets up a namespace, loads the rules, starts the harvester
-- (nse/core/trace_harvester.py), which parses the lines of `nft monitor trace` into events, and
-- injects packets between two canaries that prove that the monitor sees the kernel.
--
-- Files, and the code that they model:
--   Models/Event, Models/Request: nse/models/trace_event.py, nse/models/test_request.py
--   Exceptions: the exceptions that are raised and caught, with their texts
--   Runner/Verdicts: reduce_verdicts and collect_oracle_errors; Verdicts/Reduced describes the first
--     without its two loops
--   Runner/Suite/Value, Error, Build: the parsed suite file, and build_case
--   Runner/Case: evaluate_case and the counters; Runner/Suite/Run: load_suite, run_suite and main
--   Harvester/Parser: _parse_line with its four patterns, and the lines that nft prints, with the
--     text and the verdict of a rule in Parser/Bodies; Harvester/Loop: TraceHarvester, its read loop
--     as a machine whose turns are reads and calls of other tasks; Harvester/Health: health_errors;
--     Harvester/Monitor: the command of the monitor
--   Pipeline/Machine: the state of a run and its actions; Pipeline/Canary: _probe_oracle and
--     _without_canaries; Pipeline/Conntrack: the conntrack table; Pipeline/Stages, Pipeline/Run:
--     run_test_pipeline, step by step, with its handlers; Pipeline/Env: what the other components,
--     the kernel and the clock do in a run
--   Paths: nse/core/paths.py, with the search of the binaries in Paths/Search and the cache of the
--     results in Paths/Cache; Naming: nse/core/naming.py
--   Pipeline/Progress: what holds of the harvester where a run does not wait, for a queue that is
--     emptied and for one that is not; Pipeline/Topology: the setup and the teardown of the topology
--     through the controller; Pipeline/Table: the commands of read_conntrack_table
--     Pipeline/Listeners: the end of the mock listeners
--   Engine: run_test_pipeline with the calls that it makes, into the controller, the rule engine, the
--     injector and the listeners, on one machine; Engine/Calls: those calls; Engine/Outcomes and
--     Engine/Refines: the environment that a run shows to the step machine, and the run as a run of
--     that machine; Engine/EndToEnd and Engine/Cleared: what a run does on the machine and what it
--     leaves there; Engine/Suite: the suite runner over such runs
--   Shell: the commands that the engine runs, with the system that they leave and how they end;
--     Shell/Runs, Shell/Ends and Shell/Returned hold what follows for a chain of them
--   Controller: nse/core/netns_controller.py, by Lifecycle (create_netns, destroy_netns, cleanup_all),
--     Sweep (startup_sweep), Topology (the two topologies) and Sandbox (NamespaceSandbox and
--     create_namespace); Container: nse/core/utils.py and the constructor of the controller
--   RuleEngine: nse/core/rule_engine.py, with _parse_nft_errors in RuleEngine/Errors,
--     and described without its list in Errors/Grouped
--   Injector: nse/core/scapy_injector.py; Sniffer: nse/core/sniffer.py; Listener:
--     nse/core/mock_listener.py, with its two servers in Listener/Servers
--   Prelude: lists, texts, dictionaries and integers, and runs of characters
--   Modules named Sample hold the data of the tests, which are in modules named Tests
--
-- A text is a list of code points; the classes of characters and the case conversions are those of
-- ASCII. A time stamp is a number of ticks. A line of the report is kept as its parts. `decimal` has
-- the fuel n + 1, more than the number of digits of n. Every other loop is structural: the attempts
-- of a canary and the three of destroy_netns count down, and the read loop runs over the list of its
-- turns, so that a run that waits forever is a value of its own (`hangs`, and `none` for aclose).
--
-- Parameters: the conversions of pydantic, `repr`, `str` of two exceptions, the test of an IP address,
-- how each command ends that the engine runs, in the system that the commands before it left, what
-- scapy's `sendp` raises, what the monitor prints and when, what `mkstemp` returns, what `stat` and
-- `access` say of a path, and the files and variables that hint at a container. The step machine of
-- the pipeline takes what the other components do from Pipeline/Env, and the engine takes the settings,
-- the times and the reads from there. What stopping a listener raises, what the sockets of a listener
-- return and scapy's AsyncSniffer are parameters too. The regular expressions are written out as
-- functions on texts; the parser of the trace is given lines, in which no line break stands.
--
-- Not modelled: the processes, the sockets and the namespaces themselves, the threads, wait_ready, whose
-- answer nobody reads, the pauses between attempts, the numbers that are read from the environment
-- with the first timeout that is computed from them, logging, printing and the parsing of arguments.
mod Prelude
pub mod Exceptions
pub mod Models
pub mod Naming
pub mod Paths
pub mod Harvester
pub mod Pipeline
pub mod Runner
pub mod Shell
pub mod Controller
pub mod RuleEngine
pub mod Injector
pub mod Container
pub mod Sniffer
pub mod Listener
pub mod Engine
