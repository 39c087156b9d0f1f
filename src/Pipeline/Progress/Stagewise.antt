-- ===== src/Pipeline/Progress/Stagewise.antt =====
-- Each step of a run keeps what the harvester keeps.
use network_sandbox_engine.Prelude.{
  ℕ, zero, suc, Text, Bool, true, false, none, some, List, [], ◌∷◌, Option-cases, inl, inr, ◌⊎◌,
}
use network_sandbox_engine.Exceptions.{Exception}
use network_sandbox_engine.Models.Request.{TestRequest, PacketSpec}
use network_sandbox_engine.Harvester.Loop.{Harvester, aclose, turn, arm_call, extend_call}
use network_sandbox_engine.Harvester.Health.{health_errors}
use network_sandbox_engine.Pipeline.Canary.{Injection, probe_once, probe_oracle}
use network_sandbox_engine.Pipeline.Conntrack.{Entry, table_entries}
use network_sandbox_engine.Pipeline.Env.{Env, Loading, loaded, refused, load_raises}
use network_sandbox_engine.Pipeline.Stages.{
  start_listeners, load_rules, start_monitor, first_packet, prepare, probe, after_readiness,
  inject_packet, inject_packets, after_liveness, check_liveness, emit_entries, emit_conntrack,
  emit_table, close_monitor, emit_problems, report_health, settled,
}
use network_sandbox_engine.Pipeline.Machine.{Machine, next, loop_turns, await_reads}
use network_sandbox_engine.Pipeline.Progress.{
  Law, Respects, Respects-pure, Respects-if, Respects-bind, Respects-attempt, Respects-emit,
  Respects-oracle_error, turns-law,
}

module _ {I : Harvester → Type 0} {Hang : Type 0} (law : Law I Hang) where
  probe_once-law :
      (blind : Bool) (idle : ℕ) (i : Injection) (m : Machine)
      → I m.harvester
      → I (probe_once blind idle i m).1.harvester
  unfolding probe_once await_reads turn
  probe_once-law blind idle i m k =
      turns-law law blind (loop_turns i.reads) _
        (law.turned blind (extend_call i.now idle) _ (law.turned blind arm_call m.harvester k))

  probe_oracle-law :
      (blind : Bool) (idle : ℕ) (attempts : ℕ → Injection) (n k : ℕ) (m : Machine)
      → I m.harvester
      → I (probe_oracle blind idle attempts n k m).1.harvester
  unfolding probe_oracle
  probe_oracle-law blind idle attempts zero k m i = i
  probe_oracle-law blind idle attempts (suc n) k m i =
      let (seen, m') = probe_once blind idle (attempts k) m in
      let i' = probe_once-law blind idle (attempts k) m i in
      either seen m' _ i' (probe_oracle-law blind idle attempts n (suc k) m' i')
    where
      either :
          (seen : Bool) (m : Machine) (rest : Bool × Machine)
          → I m.harvester
          → I rest.1.harvester
          → I (elim seen as (λ _. Bool × Machine) [ true ↦ (true, m) | false ↦ rest ]).1.harvester
      either true m rest p q = p
      either false m rest p q = q

  module _ (env : Env) where
    Respects-listeners : (k : ℕ) (ps : List PacketSpec) → Respects I Hang (start_listeners env k ps)
    unfolding start_listeners
    Respects-listeners k [] = Respects-pure tt
    Respects-listeners k (p ∷ ps) =
        Respects-bind _ _ (Respects-attempt _) (λ _. Respects-listeners (suc k) ps)

    Respects-load : (l : Loading) → Respects I Hang (load_rules l)
    unfolding load_rules
    Respects-load loaded = record { at = λ m i. i }
    Respects-load (refused t) = record { at = λ m i. i }
    Respects-load (load_raises e) = record { at = λ m i. i }

    Respects-monitor : Respects I Hang (start_monitor env)
    unfolding start_monitor await_reads
    Respects-monitor = record {
      at = λ m i. elim (Option-cases env.monitor) [
        | inl e ↦ rw e (
            turns-law law env.blind (loop_turns env.ready_reads) _
              (law.started env.started_at env.initial_timeout m.harvester i))
        | inr (exc, e) ↦ rw e i
      ];
    }

    Respects-first : (ps : List PacketSpec) → Respects I Hang (first_packet ps)
    unfolding first_packet
    Respects-first [] = record { at = λ m i. i }
    Respects-first (p ∷ ps) = record { at = λ m i. i }

    pub Respects-prepare : (req : TestRequest) → Respects I Hang (prepare env req)
    unfolding prepare
    Respects-prepare req = Respects-bind _ _ (Respects-attempt env.topology) (λ _.
        Respects-bind _ _ (Respects-listeners 0 req.packets) (λ _.
          Respects-bind _ _ (Respects-load env.load)
            (λ _. Respects-bind _ _ Respects-monitor (λ _. Respects-first req.packets))))

    pub Respects-probe : (attempts : ℕ → Injection) → Respects I Hang (probe env attempts)
    unfolding probe
    Respects-probe attempts = record {
      at = λ m i. probe_oracle-law env.blind env.idle_timeout attempts env.canary_attempts 0 m i;
    }

    pub Respects-readiness : (ready : Bool) → Respects I Hang (after_readiness ready)
    unfolding after_readiness
    Respects-readiness true = record { at = λ m i. i }
    Respects-readiness false =
        Respects-bind _ _ (Respects-oracle_error law _)
          (λ _. Respects-bind _ _ (Respects-emit law none) (λ _. record { at = λ m i. i }))

    Respects-inject_packet : (i : Injection) → Respects I Hang (inject_packet env i)
    unfolding inject_packet await_reads turn
    Respects-inject_packet i = record {
      at = λ m k. (Respects-attempt i.raised).at _ (
          turns-law law env.blind (loop_turns i.reads) _
            (law.turned env.blind (extend_call i.now env.idle_timeout) m.harvester k));
    }

    pub Respects-inject_packets :
        (k : ℕ) (ps : List PacketSpec) → Respects I Hang (inject_packets env k ps)
    unfolding inject_packets
    Respects-inject_packets k [] = Respects-pure tt
    Respects-inject_packets k (p ∷ ps) =
        Respects-bind _ _ (Respects-inject_packet (env.packet k))
          (λ _. Respects-inject_packets (suc k) ps)

    Respects-liveness :
        (before : List Text) (seen : Bool) → Respects I Hang (after_liveness before seen)
    unfolding after_liveness
    Respects-liveness before seen =
        Respects-bind _ _ (Respects-if seen _ _ (Respects-pure tt) (Respects-oracle_error law _))
          (λ _. record { at = λ m i. i })

    pub Respects-check_liveness : Respects I Hang (check_liveness env)
    unfolding check_liveness
    Respects-check_liveness = record {
      at = λ m i.
          (Respects-bind _ _ (Respects-probe env.liveness)
              (Respects-liveness m.harvester.seen_trace_ids)).at
            m i;
    }

    Respects-entries : (es : List Entry) → Respects I Hang (emit_entries es)
    unfolding emit_entries
    Respects-entries [] = Respects-pure tt
    Respects-entries (e ∷ es) =
        Respects-bind _ _ (record { at = λ m i. (Respects-emit law _).at m i })
          (λ _. Respects-entries es)

    Respects-table : (t : Text ⊎ List Entry) → Respects I Hang (emit_table t)
    Respects-table (inl bad) = record { at = λ m i. i }
    Respects-table (inr es) = Respects-entries es

    pub Respects-conntrack : (r : Exception ⊎ List Text) → Respects I Hang (emit_conntrack r)
    unfolding emit_conntrack
    Respects-conntrack (inl e) = Respects-attempt (some e)
    Respects-conntrack (inr lines) = Respects-table (table_entries lines)

    pub Respects-close : Respects I Hang (close_monitor env)
    unfolding close_monitor
    Respects-close = record {
      at = λ m i.
          elim (Option-cases (aclose env.blind (loop_turns env.closing_reads) m.harvester)) [
            | inl e ↦
                rw (e, close_monitor)
                  (law.waits env.blind (loop_turns env.closing_reads) m.harvester i e)
            | inr (h, e) ↦
                rw (e, close_monitor)
                  (law.closes env.blind (loop_turns env.closing_reads) m.harvester h i e)
          ];
    }

    Respects-problems : (ps : List Text) → Respects I Hang (emit_problems ps)
    unfolding emit_problems
    Respects-problems [] = Respects-pure tt
    Respects-problems (p ∷ ps) =
        Respects-bind _ _ (Respects-oracle_error law p) (λ _. Respects-problems ps)

    pub Respects-health : Respects I Hang (report_health env)
    unfolding report_health
    Respects-health =
        Respects-bind {A = Unit} (λ m. emit_problems (health_errors env.reprs m.harvester) m)
          (λ _ m. (next tt, record m { status = settled m.status }))
          (record { at = λ m i. (Respects-problems (health_errors env.reprs m.harvester)).at m i })
          (λ _. record { at = λ m i. i })
