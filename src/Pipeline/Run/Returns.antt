-- ===== src/Pipeline/Run/Returns.antt =====
-- Only the step behind the readiness canary returns early.
use network_sandbox_engine.Prelude.{
  ℕ, suc, Text, Bool, true, false, Option, none, some, List, [], ◌∷◌, ◌≢◌, refl, arith, inl, inr,
  ◌⊎◌, if◌then◌else◌,
}
use network_sandbox_engine.Exceptions.{Exception}
use network_sandbox_engine.Models.{TraceEvent}
use network_sandbox_engine.Models.Request.{TestRequest, PacketSpec}
use network_sandbox_engine.Harvester.Health.{health_errors}
use network_sandbox_engine.Pipeline.Canary.{Injection}
use network_sandbox_engine.Pipeline.Conntrack.{Entry, table_entries}
use network_sandbox_engine.Pipeline.Env.{Env, Loading, loaded, refused, load_raises}
use network_sandbox_engine.Pipeline.Stages.{
  start_listeners, load_rules, start_monitor, first_packet, prepare, probe, inject_packet,
  inject_packets, emit_table, settled, after_liveness, check_liveness, emit_entries, emit_conntrack,
  close_monitor, emit_problems, report_health,
}
use network_sandbox_engine.Pipeline.Machine.{
  Machine, Step, next, raises, rejects, returns, stuck, Action, Reads, ◌>>=◌, continue, pure,
  attempt, await_reads, put_or_wait, emit_event, fail_with, emit_oracle_error,
}

-- An action that does not return from the coroutine.
pub record Stays {ℓ} {A : Type ℓ} (a : Action A) : Type ℓ where
  pub at : (m : Machine) → (a m).0 ≢ returns

module _ {ℓ} {A : Type ℓ} where
  Stays-pure : (a : A) → Stays (pure a)
  Stays-pure a = record { at = λ m e. cc }

  Stays-next : (a : A) (f : Machine → Machine) → Stays (λ m. (next a, f m))
  Stays-next a f = record { at = λ m e. cc }

  Stays-if : (b : Bool) (a a' : Action A) → Stays a → Stays a' → Stays (if b then a else a')
  Stays-if true a a' k k' = k
  Stays-if false a a' k k' = k'

Stays-continue {ℓ κ} :
    {A : Type ℓ} {B : Type κ} (r : Step A) (f : A → Action B) (m : Machine)
    → r ≢ returns
    → ((a : A) → Stays (f a))
    → (continue r f m).0 ≢ returns
Stays-continue (next a) f m n k = (k a).at m
Stays-continue (raises e) f m n k = λ h. cc
Stays-continue (rejects t) f m n k = λ h. cc
Stays-continue returns f m n k = λ h. n refl
Stays-continue stuck f m n k = λ h. cc

pub Stays-bind {ℓ κ} :
    {A : Type ℓ} {B : Type κ} (a : Action A) (f : A → Action B)
    → Stays a
    → ((x : A) → Stays (f x))
    → Stays (a >>= f)
Stays-bind a f ka kf = record { at = λ m. Stays-continue (a m).0 f (a m).1 (ka.at m) kf }

Stays-attempt : (o : Option Exception) → Stays (attempt o)
Stays-attempt none = record { at = λ m e. cc }
Stays-attempt (some x) = record { at = λ m e. cc }

pub Stays-await : (blind : Bool) (rs : Reads) → Stays (await_reads blind rs)
unfolding await_reads
Stays-await blind rs = record { at = λ m e. cc }

Stays-put : (o : Option TraceEvent) (m : Machine) → (put_or_wait o m).0 ≢ returns
Stays-put o m e = ground arith

Stays-emit : (o : Option TraceEvent) → Stays (emit_event o)
unfolding emit_event
Stays-emit none = record { at = λ m. Stays-put none m }
Stays-emit (some e) = record { at = λ m. Stays-put (some e) _ }

Stays-oracle_error : (message : Text) → Stays (emit_oracle_error message)
unfolding emit_oracle_error fail_with
Stays-oracle_error message = record { at = λ m. (Stays-emit (some _)).at _ }

ruleset stays_rules =
    (Stays-pure, Stays-if, Stays-bind, Stays-attempt, Stays-await, Stays-emit, Stays-oracle_error)

module _ (env : Env) where
  Stays-listeners : (k : ℕ) (ps : List PacketSpec) → Stays (start_listeners env k ps)
  unfolding start_listeners
  Stays-listeners k [] = Stays-pure tt
  Stays-listeners k (p ∷ ps) = Stays-bind _ _ (Stays-attempt _) (λ _. Stays-listeners (suc k) ps)

  Stays-load : (l : Loading) → Stays (load_rules l)
  unfolding load_rules
  Stays-load loaded = record { at = λ m e. cc }
  Stays-load (refused t) = record { at = λ m e. cc }
  Stays-load (load_raises x) = record { at = λ m e. cc }

  Stays-monitor : Stays (start_monitor env)
  unfolding start_monitor await_reads
  Stays-monitor = record { at = λ m e. ground arith }

  Stays-first : (ps : List PacketSpec) → Stays (first_packet ps)
  unfolding first_packet
  Stays-first [] = record { at = λ m e. cc }
  Stays-first (p ∷ ps) = record { at = λ m e. cc }

  pub Stays-prepare : (req : TestRequest) → Stays (prepare env req)
  unfolding prepare
  Stays-prepare req = search (stays_rules, Stays-listeners, Stays-load, Stays-monitor, Stays-first)

  pub Stays-probe : (attempts : ℕ → Injection) → Stays (probe env attempts)
  unfolding probe
  Stays-probe attempts = record { at = λ m e. cc }

  Stays-inject_packet : (i : Injection) → Stays (inject_packet env i)
  unfolding inject_packet
  Stays-inject_packet i = record { at = λ m. (Stays-attempt i.raised).at _ }

  pub Stays-inject_packets : (k : ℕ) (ps : List PacketSpec) → Stays (inject_packets env k ps)
  unfolding inject_packets
  Stays-inject_packets k [] = Stays-pure tt
  Stays-inject_packets k (p ∷ ps) =
      Stays-bind _ _ (Stays-inject_packet (env.packet k)) (λ _. Stays-inject_packets (suc k) ps)

  Stays-liveness : (before : List Text) (seen : Bool) → Stays (after_liveness before seen)
  unfolding after_liveness
  Stays-liveness before seen =
      Stays-bind _ _ (Stays-if seen _ _ (Stays-pure tt) (Stays-oracle_error _))
        (λ _. record { at = λ m e. cc })

  pub Stays-check_liveness : Stays (check_liveness env)
  unfolding check_liveness
  Stays-check_liveness = record {
    at = λ m.
        (Stays-bind _ _ (Stays-probe env.liveness) (Stays-liveness m.harvester.seen_trace_ids)).at
          m;
  }

  Stays-entries : (es : List Entry) → Stays (emit_entries es)
  unfolding emit_entries
  Stays-entries [] = Stays-pure tt
  Stays-entries (e ∷ es) =
      Stays-bind _ _ (record { at = λ m. (Stays-emit _).at m }) (λ _. Stays-entries es)

  Stays-table : (t : Text ⊎ List Entry) → Stays (emit_table t)
  Stays-table (inl bad) = record { at = λ m e. cc }
  Stays-table (inr es) = Stays-entries es

  pub Stays-conntrack : (r : Exception ⊎ List Text) → Stays (emit_conntrack r)
  unfolding emit_conntrack
  Stays-conntrack (inl x) = Stays-attempt (some x)
  Stays-conntrack (inr lines) = Stays-table (table_entries lines)

  pub Stays-close : Stays (close_monitor env)
  unfolding close_monitor
  Stays-close = record { at = λ m e. ground arith }

  Stays-problems : (ps : List Text) → Stays (emit_problems ps)
  unfolding emit_problems
  Stays-problems [] = Stays-pure tt
  Stays-problems (p ∷ ps) = Stays-bind _ _ (Stays-oracle_error p) (λ _. Stays-problems ps)

  pub Stays-health : Stays (report_health env)
  unfolding report_health
  Stays-health =
      Stays-bind {A = Unit} (λ m. emit_problems (health_errors env.reprs m.harvester) m)
        (λ _ m. (next tt, record m { status = settled m.status }))
        (record { at = λ m. (Stays-problems (health_errors env.reprs m.harvester)).at m })
        (λ _. Stays-next tt (λ m. record m { status = settled m.status }))
