-- ===== src/Pipeline/Sample.antt =====
-- The settings of a run whose canaries are seen, for tests.
use network_sandbox_engine.Prelude.{
  ℕ, Text, codes, false, true, none, some, List, [], ◌∷◌, ◌++◌, inr,
}
use network_sandbox_engine.Models.Request.{TestRequest, Protocol, TopologyType}
use network_sandbox_engine.Models.{TraceEvent, EventType, blank}
use network_sandbox_engine.Harvester.Parser.{filed}
use network_sandbox_engine.Harvester.Loop.{put, Task, HarvestState, Reading, line}
use network_sandbox_engine.Pipeline.Canary.{Injection}
use network_sandbox_engine.Pipeline.Env.{Env, loaded}
use network_sandbox_engine.Pipeline.Machine.{Machine, Status}
use network_sandbox_engine.Pipeline.Run.{new_machine}

-- The verdict line of a packet.
abbrev pub verdict_of : Text → Reading
verdict_of id = line (codes "trace id " ++ (id ++ codes " ip filter input verdict accept"))

abbrev injection : ℕ → Text → Injection
injection now id = record { now = now; raised = none; reads = (now, verdict_of id) ∷ [] }

abbrev pub seen_env : Env
seen_env = record {
  blind = false;
  idle_timeout = 8;
  canary_attempts = 3;
  topology = none;
  listener = λ _. none;
  load = loaded;
  started_at = 0;
  initial_timeout = 10;
  monitor = none;
  ready_reads = [];
  drain_reads = [];
  conntrack_reads = [];
  closing_reads = (40, Reading.timed_out) ∷ [];
  readiness = λ _. injection 1 (codes "ca01");
  packet = λ _. injection 2 (codes "b2");
  liveness = λ _. injection 3 (codes "ca02");
  conntrack =
      inr (codes "ipv4 2 tcp 6 117 SYN_SENT src=10.0.0.1 dst=10.0.0.2 sport=4000 dport=80" ∷ []);
  teardown = none;
  teardown_reads = [];
  reprs = record { repr_text = λ t. t; repr_error = λ _. codes "OSError()" };
}

abbrev pub request : TestRequest
request = record {
  rules = codes "table ip filter {}";
  packets =
      record {
        protocol = Protocol.tcp;
        src_ip = codes "10.0.0.1";
        dst_ip = codes "10.0.0.2";
        src_port = none;
        dst_port = some 80;
        tcp_flags = [];
      }
      ∷ [];
  topology = TopologyType.simple;
}

abbrev pub fresh : Machine
fresh = new_machine (codes "run-1") (record { items = []; capacity = 512; consumed = true })

-- The events of the run: three verdicts and the entry of the conntrack table.
abbrev pub accepted : ℕ → Text → TraceEvent
accepted now id =
    record (filed EventType.verdict
      (record { trace_id = id; family = codes "ip"; table = codes "filter"; chain = codes "input" })
      now) { verdict = some (codes "ACCEPT") }

-- A machine on which `event` was delivered.
abbrev pub delivered : TraceEvent → Text → Machine → Machine
delivered event id m = record m {
  harvester = record m.harvester {
    event_signal = true;
    seen_trace_ids = m.harvester.seen_trace_ids ++ id ∷ [];
    queue = put (some event) m.harvester.queue;
    delivered = m.harvester.delivered ++ event ∷ [];
  };
}

abbrev pub prepared : Machine
prepared = record fresh {
  harvester = record fresh.harvester {
    task = Task.reading;
    state = HarvestState.running;
    deadline = 10;
  };
}

abbrev pub ready : Machine
ready = delivered (accepted 1 (codes "ca01")) (codes "ca01") prepared

abbrev pub noted : Machine
noted = record ready { canary_trace_ids = codes "ca01" ∷ [] }

abbrev pub injected : Machine
injected = delivered (accepted 2 (codes "b2")) (codes "b2") noted

abbrev pub live : Machine
live =
    delivered (accepted 3 (codes "ca02")) (codes "ca02")
      (record injected { harvester = record injected.harvester { deadline = 11 } })

abbrev pub live_noted : Machine
live_noted = record live { canary_trace_ids = codes "ca01" ∷ codes "ca02" ∷ [] }

abbrev pub table_event : TraceEvent
table_event = record (blank EventType.conntrack) {
  trace_id = some (codes "run-1");
  rule_text = some (codes "state=SYN_SENT proto=TCP 10.0.0.1:4000 -> 10.0.0.2:80");
}

abbrev pub emitted : Machine
emitted = record live_noted {
  harvester = record live_noted.harvester {
    queue = put (some table_event) live_noted.harvester.queue;
    delivered = live_noted.harvester.delivered ++ table_event ∷ [];
  };
}

abbrev pub closed : Machine
closed = record emitted {
  harvester = record emitted.harvester {
    task = Task.ended;
    stop_requested = true;
    state = HarvestState.stopped;
    queue = put none emitted.harvester.queue;
  };
}

abbrev pub done : Machine
done = record closed { status = Status.done }

abbrev pub run_events : List TraceEvent
run_events = accepted 2 (codes "b2") ∷ table_event ∷ []
