-- ===== src/Harvester/Tests.antt =====
-- Lines of `nft monitor trace`, from the fixtures of the repository.
use network_sandbox_engine.Prelude.{
  List, [], ◌∷◌, ◌↔◌, ◌≢◌, arith, any, contains, add, text_eq, given, codes, after, span, run_of,
  strip, upper, digits_value, Bool, some, none, true, false, ◌≡◌, refl,
}
use network_sandbox_engine.Models.{TraceEvent, EventType}
use network_sandbox_engine.Harvester.Parser.{
  parse_line, filed, is_trace_line, packet_re, rule_re, verdict_re, prefix, ident, unquote,
}
use network_sandbox_engine.Harvester.Loop.{
  Harvester, Queue, Turn, iteration, stop_call, timed_out, new_harvester, start, turns, turn,
  iterate, deliver, record_unparsed, finish, stop, is_reading, is_healthy, has_room, note_id,
  cancel, arm_event_signal, extend_deadline,
}
use network_sandbox_engine.Harvester.Loop.Accounting.{
  IsOpen, InTime, Stamped, Accounts, turns-Accounts, reads,
}
use network_sandbox_engine.Harvester.Loop.Endings.{asks, healthy_end-asked}
use network_sandbox_engine.Harvester.Loop.Signal.{Signals, turns-Signals}
use network_sandbox_engine.Harvester.Health.{Reprs, health_errors}
use network_sandbox_engine.Harvester.Health.Blind.{health_errors-blind_spot}
use network_sandbox_engine.Harvester.Health.Verdict.{health_errors-nil_iff}

-- What a test computes with.
runs : Bool
unfolding turns turn iterate deliver record_unparsed finish stop is_reading is_healthy has_room
    note_id cancel arm_event_signal extend_deadline start contains add text_eq given is_trace_line
    parse_line packet_re rule_re verdict_re prefix ident run_of unquote after span strip upper
    digits_value
runs = true

abbrev input_chain : EventType → TraceEvent
input_chain kind =
    filed kind
      (record {
        trace_id = codes "1be8aad4";
        family = codes "ip";
        table = codes "filter";
        chain = codes "input";
      })
      7

parse_packet :
    parse_line false 7 (codes "trace id 1be8aad4 ip filter input packet: iif \"veth0\" ether")
    ≡ some (record (input_chain EventType.hook) { hook = some (codes "veth0") })
unfolding runs
parse_packet = refl

parse_rule :
    parse_line false 7 (
      codes
        "trace id 1be8aad4 ip filter input rule 0x4 (handle 3) tcp dport 80 accept (verdict accept)")
    ≡ some (record (input_chain EventType.match) {
      rule_handle = some 3;
      rule_text = some (codes "tcp dport 80 accept");
      verdict = some (codes "ACCEPT");
    })
unfolding runs
parse_rule = refl

parse_policy :
    parse_line false 7 (codes "trace id 1be8aad4 ip filter input policy drop")
    ≡ some (record (input_chain EventType.verdict) { verdict = some (codes "DROP") })
unfolding runs
parse_policy = refl

parse_quoted :
    parse_line false 7 (codes "trace id 1be8aad4 ip \"filter\" input rule masquerade")
    ≡ some (record (input_chain EventType.match) { rule_text = some (codes "masquerade") })
unfolding runs
parse_quoted = refl

parse_other : parse_line false 7 (codes "trace id 1be8aad4 ip filter input jump x") ≡ none
unfolding runs
parse_other = refl

-- A verdict, a line of the trace that no pattern matches, and a line that is no trace output.
abbrev three_lines : List Stamped
three_lines =
    (1, codes "trace id 1be8aad4 ip filter input policy drop")
    ∷ (2, codes "trace id 1be8aad4 ip filter input jump x")
    ∷ (3, codes "add table ip filter")
    ∷ []

abbrev read_queue : Queue
read_queue = record { items = []; capacity = 512; consumed = true }

abbrev started : Harvester
started = start 0 10 (new_harvester read_queue)

turns-Accounts_example :
    Accounts false three_lines started (turns false (reads three_lines) started)
unfolding runs
turns-Accounts_example =
    turns-Accounts false three_lines started (record { works = refl; consumed = refl })
      (omega arith, (omega arith, (omega arith, tt)))

abbrev stopped_run : List Turn
stopped_run = stop_call ∷ iteration 11 timed_out ∷ []

healthy_end-asked_example : any asks stopped_run ≡ true
unfolding runs
healthy_end-asked_example =
    healthy_end-asked false stopped_run 0 10 (new_harvester read_queue) refl refl

turns-Signals_example : Signals started (turns false (reads three_lines) started)
turns-Signals_example = turns-Signals false (reads three_lines) started

abbrev reprs : Reprs
reprs = record { repr_text = λ t. t; repr_error = λ _. codes "OSError()" }

health_errors-nil_iff_example :
    (health_errors reprs started ≡ [])
    ↔ ((is_healthy started.state ≡ true) × (started.unparsed_trace_lines ≡ 0))
health_errors-nil_iff_example = health_errors-nil_iff reprs started

started-IsOpen : IsOpen started
unfolding runs
started-IsOpen = record { works = refl; consumed = refl }

three_lines-InTime : InTime started three_lines
unfolding runs
three_lines-InTime = (omega arith, (omega arith, (omega arith, tt)))

health_errors-blind_spot_example :
    health_errors reprs (turns false (reads three_lines) started) ≢ []
unfolding runs
health_errors-blind_spot_example =
    health_errors-blind_spot reprs false three_lines started started-IsOpen three_lines-InTime refl
