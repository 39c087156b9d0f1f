-- ===== src/Pipeline/Run/Steps.antt =====
-- Each step of a run keeps the id and what is collected.
use network_sandbox_engine.Prelude.{
  ℕ, zero, suc, Text, Bool, true, false, none, some, List, [], ◌∷◌, refl, Option-cases, inl, inr,
  ◌⊎◌,
}
use network_sandbox_engine.Exceptions.{Exception}
use network_sandbox_engine.Models.Request.{TestRequest, PacketSpec}
use network_sandbox_engine.Harvester.Loop.{aclose, start, extend_deadline}
use network_sandbox_engine.Harvester.Loop.Growth.{Extends-refl, turns-Extends, aclose-Extends}
use network_sandbox_engine.Harvester.Health.{health_errors}
use network_sandbox_engine.Pipeline.Canary.{Injection, probe_once, probe_oracle}
use network_sandbox_engine.Pipeline.Conntrack.{Entry, table_entries}
use network_sandbox_engine.Pipeline.Env.{Env, Loading, loaded, refused, load_raises}
use network_sandbox_engine.Pipeline.Stages.{
  start_listeners, load_rules, start_monitor, first_packet, prepare, probe, after_readiness,
  inject_packet, inject_packets, after_liveness, check_liveness, emit_entries, emit_conntrack,
  emit_table, close_monitor, emit_problems, report_health, note_canaries, settled,
}
use network_sandbox_engine.Pipeline.Machine.{Machine, next, with_harvester, loop_turns, await_reads}
use network_sandbox_engine.Pipeline.Run.Frame.{
  Later, Later-refl, Later-trans, Keeps, Keeps-bind, Keeps-await, Keeps-emit, Keeps-oracle_error,
  Keeps-attempt, Keeps-pure, Keeps-if, frame_rules,
}

probe_once-Later :
    (blind : Bool) (idle : ℕ) (i : Injection) (m : Machine) → Later m (probe_once blind idle i m).1
unfolding probe_once
probe_once-Later blind idle i m = record {
  same_id = refl;
  grown = turns-Extends blind (loop_turns i.reads) _;
}

Later-elim :
    (seen : Bool) (m : Machine) (rest : Bool × Machine)
    → Later m rest.1
    → Later m (elim seen as (λ _. Bool × Machine) [ true ↦ (true, m) | false ↦ rest ]).1
Later-elim true m rest l = Later-refl m
Later-elim false m rest l = l

probe_oracle-Later :
    (blind : Bool) (idle : ℕ) (attempts : ℕ → Injection) (n k : ℕ) (m : Machine)
    → Later m (probe_oracle blind idle attempts n k m).1
unfolding probe_oracle
probe_oracle-Later blind idle attempts zero k m = Later-refl m
probe_oracle-Later blind idle attempts (suc n) k m =
    let (seen, m') = probe_once blind idle (attempts k) m in
    Later-trans (probe_once-Later blind idle (attempts k) m)
      (Later-elim seen m' _ (probe_oracle-Later blind idle attempts n (suc k) m'))

module _ (env : Env) where
  Keeps-listeners : (k : ℕ) (ps : List PacketSpec) → Keeps (start_listeners env k ps)
  unfolding start_listeners
  Keeps-listeners k [] = Keeps-pure tt
  Keeps-listeners k (p ∷ ps) = Keeps-bind _ _ (Keeps-attempt _) (λ _. Keeps-listeners (suc k) ps)

  Keeps-load : (l : Loading) → Keeps (load_rules l)
  unfolding load_rules
  Keeps-load loaded = record { at = Later-refl }
  Keeps-load (refused t) = record { at = Later-refl }
  Keeps-load (load_raises e) = record { at = Later-refl }

  Keeps-monitor : Keeps (start_monitor env)
  unfolding start_monitor start await_reads
  Keeps-monitor = record {
    at = λ m. elim (Option-cases env.monitor) [
      | inl e ↦ rw e (record {
        same_id = refl;
        grown = turns-Extends env.blind (loop_turns env.ready_reads) _;
      })
      | inr (exc, e) ↦ rw e (Later-refl m)
    ];
  }

  Keeps-first : (ps : List PacketSpec) → Keeps (first_packet ps)
  unfolding first_packet
  Keeps-first [] = record { at = Later-refl }
  Keeps-first (p ∷ ps) = record { at = Later-refl }

  Keeps-prepare : (req : TestRequest) → Keeps (prepare env req)
  unfolding prepare
  Keeps-prepare req = search (frame_rules, Keeps-listeners, Keeps-load, Keeps-monitor, Keeps-first)

  Keeps-probe : (attempts : ℕ → Injection) → Keeps (probe env attempts)
  unfolding probe
  Keeps-probe attempts = record {
    at = λ m. probe_oracle-Later env.blind env.idle_timeout attempts env.canary_attempts 0 m;
  }

  Keeps-note : (ts : List Text) → Keeps (note_canaries ts)
  Keeps-note ts = record { at = λ m. record { same_id = refl; grown = Extends-refl _ } }

  Keeps-readiness : (ready : Bool) → Keeps (after_readiness ready)
  unfolding after_readiness
  Keeps-readiness true = record { at = λ m. (Keeps-note m.harvester.seen_trace_ids).at m }
  Keeps-readiness false =
      Keeps-bind _ _ (Keeps-oracle_error _)
        (λ _. Keeps-bind _ _ (Keeps-emit none) (λ _. record { at = Later-refl }))

  Keeps-inject_packet : (i : Injection) → Keeps (inject_packet env i)
  unfolding inject_packet extend_deadline await_reads
  Keeps-inject_packet i = record {
    at = λ m.
        let m' = with_harvester (extend_deadline i.now env.idle_timeout) m in
        let l = (Keeps-await env.blind i.reads).at m' in
        Later-trans (record { same_id = l.same_id; grown = l.grown })
          ((Keeps-attempt i.raised).at (await_reads env.blind i.reads m').1);
  }

  Keeps-inject_packets : (k : ℕ) (ps : List PacketSpec) → Keeps (inject_packets env k ps)
  unfolding inject_packets
  Keeps-inject_packets k [] = Keeps-pure tt
  Keeps-inject_packets k (p ∷ ps) =
      Keeps-bind _ _ (Keeps-inject_packet (env.packet k)) (λ _. Keeps-inject_packets (suc k) ps)

  Keeps-liveness : (before : List Text) (seen : Bool) → Keeps (after_liveness before seen)
  unfolding after_liveness
  Keeps-liveness before seen =
      Keeps-bind _ _ (Keeps-if seen _ _ (Keeps-pure tt) (Keeps-oracle_error _))
        (λ _. record { at = λ m. record { same_id = refl; grown = Extends-refl _ } })

  Keeps-check_liveness : Keeps (check_liveness env)
  unfolding check_liveness
  Keeps-check_liveness = record {
    at = λ m.
        (Keeps-bind _ _ (Keeps-probe env.liveness) (Keeps-liveness m.harvester.seen_trace_ids)).at
          m;
  }

  Keeps-entries : (es : List Entry) → Keeps (emit_entries es)
  unfolding emit_entries
  Keeps-entries [] = Keeps-pure tt
  Keeps-entries (e ∷ es) =
      Keeps-bind _ _ (record { at = λ m. (Keeps-emit _).at m }) (λ _. Keeps-entries es)

  Keeps-table : (t : Text ⊎ List Entry) → Keeps (emit_table t)
  Keeps-table (inl bad) = record { at = Later-refl }
  Keeps-table (inr es) = Keeps-entries es

  pub Keeps-conntrack : (r : Exception ⊎ List Text) → Keeps (emit_conntrack r)
  unfolding emit_conntrack
  Keeps-conntrack (inl e) = Keeps-attempt (some e)
  Keeps-conntrack (inr lines) = Keeps-table (table_entries lines)

  pub Keeps-close : Keeps (close_monitor env)
  unfolding close_monitor
  Keeps-close = record {
    at = λ m. elim (Option-cases (aclose env.blind (loop_turns env.closing_reads) m.harvester)) [
      | inl e ↦ rw (e, close_monitor) (Later-refl m)
      | inr (h, e) ↦
          rw (e, close_monitor)
            (record {
              same_id = refl;
              grown = aclose-Extends env.blind (loop_turns env.closing_reads) m.harvester h e;
            })
    ];
  }

  pub Keeps-problems : (ps : List Text) → Keeps (emit_problems ps)
  unfolding emit_problems
  Keeps-problems [] = Keeps-pure tt
  Keeps-problems (p ∷ ps) = Keeps-bind _ _ (Keeps-oracle_error p) (λ _. Keeps-problems ps)

  pub Keeps-health : Keeps (report_health env)
  unfolding report_health
  Keeps-health =
      Keeps-bind {A = Unit} (λ m. emit_problems (health_errors env.reprs m.harvester) m)
        (λ _ m. (next tt, record m { status = settled m.status }))
        (record { at = λ m. (Keeps-problems (health_errors env.reprs m.harvester)).at m })
        (λ _. record { at = λ m. record { same_id = refl; grown = Extends-refl _ } })
