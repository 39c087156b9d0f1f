-- ===== src/Pipeline/Stages.antt =====
-- The steps of `run_test_pipeline` of nse/core/pipeline.py up to the liveness canary.
use network_sandbox_engine.Prelude.{
  ℕ, zero, suc, Text, codes, contains, add, not, Bool, true, false, Option, none, some, List, [],
  ◌∷◌, ◌++◌, keep, ◌⊎◌, inl, inr, if◌then◌else◌,
}
use network_sandbox_engine.Exceptions.{Exception}
use network_sandbox_engine.Models.{EventType, blank}
use network_sandbox_engine.Models.Request.{TestRequest, PacketSpec}
use network_sandbox_engine.Harvester.Loop.{start, aclose, extend_deadline}
use network_sandbox_engine.Harvester.Health.{health_errors}
use network_sandbox_engine.Pipeline.Canary.{Injection, probe_oracle}
use network_sandbox_engine.Pipeline.Conntrack.{Entry, table_entries, entry_text}
use network_sandbox_engine.Pipeline.Env.{Env, Loading, loaded, refused, load_raises}
use network_sandbox_engine.Pipeline.Machine.{
  Status, next, raises, rejects, returns, stuck, Action, Reads, ◌>>=◌, ◌>>◌, pure, attempt,
  with_harvester, loop_turns, await_reads, emit_event, emit_oracle_error,
}

-- step 3
unfoldable pub load_rules : Loading → Action (Unit {0})
load_rules loaded m = (next tt, m)
load_rules (refused errors) m = (rejects errors, m)
load_rules (load_raises e) m = (raises e, m)

-- `req.packets[0]`
unfoldable pub first_packet : List PacketSpec → Action (Unit {0})
first_packet [] m = (raises (Exception.other_error (codes "list index out of range")), m)
first_packet (p ∷ ps) m = (next tt, m)

-- `canary_trace_ids.update(...)`
abbrev add_all : List Text → List Text → List Text
add_all [] ids = ids
add_all (t ∷ ts) ids = add_all ts (add t ids)

abbrev pub note_canaries : List Text → Action (Unit {0})
note_canaries ts m = (next tt, record m { canary_trace_ids = add_all ts m.canary_trace_ids })

abbrev pub not_ready : Text
not_ready =
    codes
      "readiness canary was never observed - `nft monitor trace` is not reporting kernel events, so no verdict from this run would be evidence of anything"

abbrev pub not_live : Text
not_live =
    codes
      "liveness canary was never observed - the trace monitor stopped reporting before the run finished, so the verdict stream is truncated by an unknown amount"

abbrev return_early : Action (Unit {0})
return_early m = (returns, m)

-- step 5, behind the probe
unfoldable pub after_readiness : Bool → Action (Unit {0})
after_readiness true = λ m. note_canaries m.harvester.seen_trace_ids m
after_readiness false = do emit_oracle_error not_ready; emit_event none; return_early

-- step 7, behind the probe
unfoldable pub after_liveness : List Text → Bool → Action (Unit {0})
after_liveness before seen = do
  (if seen then pure tt else emit_oracle_error not_live)
  λ m. note_canaries (keep (λ t. not (contains t before)) m.harvester.seen_trace_ids) m

-- step 8: one event for each entry of the table
unfoldable pub emit_entries : List Entry → Action (Unit {0})
emit_entries [] = pure tt
emit_entries (e ∷ es) = do
  λ m.
      emit_event
        (some (record (blank EventType.conntrack) {
          trace_id = some m.test_id;
          rule_text = some (entry_text e);
        }))
        m
  emit_entries es

-- the ValueError of a number that `int` does not read leaves `read_conntrack_table`
abbrev pub emit_table : Text ⊎ List Entry → Action (Unit {0})
emit_table (inl bad) =
    attempt (some (Exception.value_error (codes "invalid literal for int(): " ++ bad)))
emit_table (inr es) = emit_entries es

unfoldable pub emit_conntrack : Exception ⊎ List Text → Action (Unit {0})
emit_conntrack (inl e) = attempt (some e)
emit_conntrack (inr lines) = emit_table (table_entries lines)

unfoldable pub emit_problems : List Text → Action (Unit {0})
emit_problems [] = pure tt
emit_problems (p ∷ ps) = emit_oracle_error p >> emit_problems ps

abbrev pub settled : Status → Status
settled Status.error = Status.error
settled _ = Status.done

-- `if pkt.dst_port`: what starting a listener raises
abbrev pub with_port : Option ℕ → Option Exception → Option Exception
with_port none raised = none
with_port (some zero) raised = none
with_port (some (suc port)) raised = raised

module _ (env : Env) where
  abbrev await_ : Reads → Action (Unit {0})
  await_ = await_reads env.blind

  -- step 2: a listener for each packet with a destination port
  abbrev listen : ℕ → PacketSpec → Action (Unit {0})
  listen k p = attempt (with_port p.dst_port (env.listener k))

  unfoldable pub start_listeners : ℕ → List PacketSpec → Action (Unit {0})
  start_listeners k [] = pure tt
  start_listeners k (p ∷ ps) = listen k p >> start_listeners (suc k) ps

  -- step 4
  unfoldable pub start_monitor : Action (Unit {0})
  start_monitor m = elim env.monitor [
    | some e ↦ (raises e, m)
    | none ↦ await_ env.ready_reads (with_harvester (start env.started_at env.initial_timeout) m)
  ]

  -- steps 1 to 4
  unfoldable pub prepare : TestRequest → Action (Unit {0})
  prepare req = do
    attempt env.topology
    start_listeners 0 req.packets
    load_rules env.load
    start_monitor
    first_packet req.packets

  unfoldable pub probe : (ℕ → Injection) → Action Bool
  probe attempts m =
      let (seen, m) = probe_oracle env.blind env.idle_timeout attempts env.canary_attempts 0 m in
      (next seen, m)

  -- step 6: one packet and the settling time behind it
  unfoldable pub inject_packet : Injection → Action (Unit {0})
  inject_packet i m =
      let m = with_harvester (extend_deadline i.now env.idle_timeout) m in
      let (_, m) = await_ i.reads m in attempt i.raised m

  unfoldable pub inject_packets : ℕ → List PacketSpec → Action (Unit {0})
  inject_packets k [] = pure tt
  inject_packets k (p ∷ ps) = inject_packet (env.packet k) >> inject_packets (suc k) ps

  unfoldable pub check_liveness : Action (Unit {0})
  check_liveness m = (probe env.liveness >>= after_liveness m.harvester.seen_trace_ids) m

  -- `await harvester.aclose()`
  unfoldable pub close_monitor : Action (Unit {0})
  close_monitor m = elim (aclose env.blind (loop_turns env.closing_reads) m.harvester) [
    | none ↦ (stuck, m)
    | some h ↦ (next tt, record m { harvester = h })
  ]

  -- step 9
  unfoldable pub report_health : Action (Unit {0})
  report_health = do
    λ m. emit_problems (health_errors env.reprs m.harvester) m
    λ m. (next tt, record m { status = settled m.status })
