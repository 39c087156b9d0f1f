-- ===== src/Pipeline/Run/Contract.antt =====
-- The contract of the oracle: a run that reports no error has measured what it reports.
use network_sandbox_engine.Prelude.{
  Text, Bool, true, false, none, List, [], ◌∷◌, ◌≡◌, refl, ap, subst, arith, Bool-cases, inl, inr,
  ◌⊎◌,
}
use network_sandbox_engine.Models.Request.{TestRequest}
use network_sandbox_engine.Harvester.Loop.{is_healthy}
use network_sandbox_engine.Harvester.Health.{health_errors}
use network_sandbox_engine.Harvester.Health.Verdict.{health_errors-nil_iff}
use network_sandbox_engine.Pipeline.Env.{Env}
use network_sandbox_engine.Pipeline.Stages.{
  prepare, probe, after_readiness, inject_packets, check_liveness, after_liveness, emit_conntrack,
  close_monitor, report_health, emit_problems, note_canaries, not_ready, not_live, settled,
}
use network_sandbox_engine.Pipeline.Machine.{
  Machine, Step, next, raises, rejects, returns, stuck, Action, ◌>>=◌, ◌>>◌, continue, await_reads,
  emit_event, emit_oracle_error,
}
use network_sandbox_engine.Pipeline.Run.{body}
use network_sandbox_engine.Pipeline.Run.Frame.{
  Later, Later-refl, Later-trans, Keeps-continue, Keeps-bind, Keeps-await, Keeps-emit,
}
use network_sandbox_engine.Pipeline.Run.Steps.{
  Keeps-close, Keeps-conntrack, Keeps-health, Keeps-problems,
}
use network_sandbox_engine.Harvester.Loop.Growth.{Extends-refl}
use network_sandbox_engine.Pipeline.Canary.{probe_oracle}
use network_sandbox_engine.Pipeline.Run.Flags.{IsFlagged, Later-IsFlagged, oracle_error-IsFlagged}

-- An action that went on did each of its parts.
continue-next {ℓ κ} :
    {A : Type ℓ} {B : Type κ} (r : Step A) (f : A → Action B) (m : Machine) {b : B} {m' : Machine}
    → continue r f m ≡ (next b, m')
    → (x : A) × (r ≡ next x) × (f x m ≡ (next b, m'))
continue-next (next a) f m h = (a, refl, h)
continue-next (raises e) f m h = absurd (cc)
continue-next (rejects t) f m h = absurd (cc)
continue-next returns f m h = absurd (cc)
continue-next stuck f m h = absurd (cc)

bind-next {ℓ κ} :
    {A : Type ℓ} {B : Type κ} (a : Action A) (f : A → Action B) (m : Machine) {b : B} {m' : Machine}
    → (a >>= f) m ≡ (next b, m')
    → (x : A) × (a m ≡ (next x, (a m).1)) × (f x (a m).1 ≡ (next b, m'))
bind-next a f m h = let (x, e, k) = continue-next (a m).0 f (a m).1 h in (x, ground arith, k)

pub then-next {ℓ} :
    {B : Type ℓ} (a : Action (Unit {0})) (b : Action B) (m : Machine) {y : B} {m' : Machine}
    → (a >> b) m ≡ (next y, m')
    → (a m ≡ (next tt, (a m).1)) × (b (a m).1 ≡ (next y, m'))
then-next a b m h = let (x, e, k) = bind-next a (λ _. b) m h in (e, k)

module _ (env : Env) (req : TestRequest) where
  -- The machines between the steps of a run that went through: each canary was seen, every packet was
  -- injected, the conntrack table was reported, and the closed harvester is healthy. Each machine is
  -- the one in which the step before it ended.
  pub record Measured (m : Machine) : Type 0 where
    pub prepared : Machine
    pub ready : Machine
    pub noted : Machine
    pub injected : Machine
    pub live : Machine
    pub closed : Machine
    pub did_prepare : prepare env req m ≡ (next tt, prepared)
    pub saw_readiness : probe env env.readiness prepared ≡ (next true, ready)
    pub noted_canary : noted ≡ (note_canaries ready.harvester.seen_trace_ids ready).1
    pub injected_all : inject_packets env 0 req.packets noted ≡ (next tt, injected)
    pub saw_liveness :
        probe env env.liveness (await_reads env.blind env.drain_reads injected).1
        ≡ (next true, live)
    pub checked : Machine
    pub did_check :
        check_liveness env (await_reads env.blind env.drain_reads injected).1 ≡ (next tt, checked)
    pub reported : Machine
    pub did_report :
        emit_conntrack env.conntrack (await_reads env.blind env.conntrack_reads checked).1
        ≡ (next tt, reported)
    pub did_close : close_monitor env reported ≡ (next tt, closed)
    pub healthy : is_healthy closed.harvester.state ≡ true
    pub no_blind_spot : closed.harvester.unparsed_trace_lines ≡ 0

  -- A step 5 that goes on had seen the canary.
  readiness-next :
      (seen : Bool) (m m' : Machine)
      → after_readiness seen m ≡ (next tt, m')
      → (seen ≡ true) × (m' ≡ (note_canaries m.harvester.seen_trace_ids m).1)
  unfolding after_readiness
  readiness-next true m m' h = (refl, ground arith)
  readiness-next false m m' h =
      let (_, _, h₁) = bind-next (emit_oracle_error (not_ready)) _ m h in
      let (_, _, h₂) = bind-next (emit_event none) _ _ h₁ in absurd (cc)

  -- A step 5 that returns has left an error event.
  pub readiness-returns :
      (seen : Bool) (m : Machine)
      → (after_readiness seen m).0 ≡ returns
      → IsFlagged (after_readiness seen m).1
  unfolding after_readiness
  readiness-returns true m h = absurd (cc)
  readiness-returns false m h =
      Later-IsFlagged (emit_oracle_error (not_ready) m).1 _
        (Keeps-continue (emit_oracle_error (not_ready) m).0 _ _
          (λ _. Keeps-bind _ _ (Keeps-emit none) (λ _. record { at = Later-refl })))
        (oracle_error-IsFlagged (not_ready) m)

  -- A step 7 saw the canary, or has left an error event.
  after_liveness-IsFlagged :
      (before : List Text) (m : Machine) → IsFlagged (after_liveness before false m).1
  unfolding after_liveness
  after_liveness-IsFlagged before m =
      Later-IsFlagged (emit_oracle_error (not_live) m).1 _
        (Keeps-continue (emit_oracle_error (not_live) m).0 _ _
          (λ _. record { at = λ m. record { same_id = refl; grown = Extends-refl _ } }))
        (oracle_error-IsFlagged (not_live) m)

  liveness-cases :
      (m : Machine)
      → (probe env env.liveness m ≡ (next true, (probe env env.liveness m).1))
        ⊎ IsFlagged (check_liveness env m).1
  unfolding check_liveness probe
  liveness-cases m =
      elim (Bool-cases
        (probe_oracle env.blind env.idle_timeout env.liveness env.canary_attempts 0 m).0) [
          | inl e ↦ inl (ground arith)
          | inr e ↦ inr (rw e (after_liveness-IsFlagged _ _))
        ]

  problems-IsFlagged :
      (p : Text) (ps : List Text) (m : Machine) → IsFlagged (emit_problems (p ∷ ps) m).1
  unfolding emit_problems
  problems-IsFlagged p ps m =
      Later-IsFlagged (emit_oracle_error p m).1 _
        (Keeps-continue (emit_oracle_error p m).0 _ _ (λ _. Keeps-problems env ps))
        (oracle_error-IsFlagged p m)

  problems-cases : (ps : List Text) (m : Machine) → (ps ≡ []) ⊎ IsFlagged (emit_problems ps m).1
  problems-cases [] m = inl refl
  problems-cases (p ∷ ps) m = inr (problems-IsFlagged p ps m)

  health-cases :
      (m : Machine) → (health_errors env.reprs m.harvester ≡ []) ⊎ IsFlagged (report_health env m).1
  unfolding report_health
  health-cases m = elim (problems-cases (health_errors env.reprs m.harvester) m) [
    | inl e ↦ inl e
    | inr f ↦ inr (
        Later-IsFlagged (emit_problems (health_errors env.reprs m.harvester) m).1 _
          (Keeps-continue (emit_problems (health_errors env.reprs m.harvester) m).0
            (λ _ m. (next tt, record m { status = settled m.status })) _
            (λ _. record { at = λ m. record { same_id = refl; grown = Extends-refl _ } }))
          f)
  ]

  -- What follows the liveness canary.
  abbrev ending : Action (Unit {0})
  ending = do
    await_reads env.blind env.conntrack_reads
    emit_conntrack env.conntrack
    close_monitor env
    report_health env

  record Ended (m m' : Machine) : Type 0 where
    reported : Machine
    closed : Machine
    did_report :
        emit_conntrack env.conntrack (await_reads env.blind env.conntrack_reads m).1
        ≡ (next tt, reported)
    later : Later m m'
    did_close : close_monitor env reported ≡ (next tt, closed)
    health : (health_errors env.reprs closed.harvester ≡ []) ⊎ IsFlagged m'

  ending-next : (m m' : Machine) → ending m ≡ (next tt, m') → Ended m m'
  ending-next m m' h =
      let m₁ = (await_reads env.blind env.conntrack_reads m).1 in
      let (_, h) = then-next (await_reads env.blind env.conntrack_reads) _ m h in
      let m₂ = (emit_conntrack env.conntrack m₁).1 in
      let (p₂, h) = then-next (emit_conntrack env.conntrack) _ m₁ h in
      let m₃ = (close_monitor env m₂).1 in
      let (p₃, h) = then-next (close_monitor env) _ m₂ h in
      let e : (report_health env m₃).1 ≡ m' = ap (λ (x : Step (Unit {0}) × Machine). x.1) h in
      record {
        reported = m₂;
        closed = m₃;
        later =
            subst (λ x. Later m x) e
              (Later-trans ((Keeps-await env.blind env.conntrack_reads).at m) (
                Later-trans ((Keeps-conntrack env env.conntrack).at m₁)
                  (Later-trans ((Keeps-close env).at m₂) ((Keeps-health env).at m₃))));
        did_report = p₂;
        did_close = p₃;
        health =
            subst (λ x. (health_errors env.reprs m₃.harvester ≡ []) ⊎ IsFlagged x) e
              (health-cases m₃);
      }

  -- Every step of a run whose body ends normally was taken.
  pub body-Measured : (m m' : Machine) → body env req m ≡ (next tt, m') → Measured m ⊎ IsFlagged m'
  unfolding body
  body-Measured m m' h =
      let m₁ = (prepare env req m).1 in
      let (p₁, h) = then-next (prepare env req) _ m h in
      let (seen, p₂, h) = bind-next (probe env env.readiness) _ m₁ h in
      let m₂ = (probe env env.readiness m₁).1 in
      let m₃ = (after_readiness seen m₂).1 in
      let (p₃, h) = then-next (after_readiness seen) _ m₂ h in
      let (s₃, n₃) = readiness-next seen m₂ m₃ p₃ in
      let m₄ = (inject_packets env 0 req.packets m₃).1 in
      let (p₄, h) = then-next (inject_packets env 0 req.packets) _ m₃ h in
      let m₅ = (await_reads env.blind env.drain_reads m₄).1 in
      let (_, h) = then-next (await_reads env.blind env.drain_reads) _ m₄ h in
      let m₆ = (check_liveness env m₅).1 in
      let (p₆, h) = then-next (check_liveness env) _ m₅ h in
      let ended = ending-next m₆ m' h in
      elim (liveness-cases m₅) [
        | inr f ↦ inr (Later-IsFlagged m₆ m' ended.later f)
        | inl live ↦ elim ended.health [
          | inr f ↦ inr f
          | inl e ↦ inl (record {
            prepared = m₁;
            ready = m₂;
            noted = m₃;
            injected = m₄;
            live = (probe env env.liveness m₅).1;
            checked = m₆;
            did_check = p₆;
            reported = ended.reported;
            did_report = ended.did_report;
            closed = ended.closed;
            did_prepare = p₁;
            saw_readiness = subst (λ b. probe env env.readiness m₁ ≡ (next b, m₂)) s₃ p₂;
            noted_canary = n₃;
            injected_all = p₄;
            saw_liveness = live;
            did_close = ended.did_close;
            healthy = ((health_errors-nil_iff env.reprs ended.closed.harvester).0 e).0;
            no_blind_spot = ((health_errors-nil_iff env.reprs ended.closed.harvester).0 e).1;
          })
        ]
      ]
