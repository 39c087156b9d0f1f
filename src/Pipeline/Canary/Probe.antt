-- ===== src/Pipeline/Canary/Probe.antt =====
-- What a canary that was observed says.
use network_sandbox_engine.Prelude.{
  ℕ, zero, suc, ◌+◌, ◌<◌, ◌≤◌, Bool, true, none, ◌≡◌, refl, ap, subst, arith, length, Bool-cases,
  Option-cases, inl, inr,
}
use network_sandbox_engine.Harvester.Loop.{arm_event_signal, extend_deadline}
use network_sandbox_engine.Harvester.Loop.Signal.{Signals, turns-Signals}
use network_sandbox_engine.Pipeline.Canary.{Injection, probe_once, probe_oracle}
use network_sandbox_engine.Pipeline.Machine.{Machine, await_reads, loop_turns, collected_events}

module _ (blind : Bool) (idle : ℕ) where
  -- Attempt `j` began at the machine `before`, injected its canary without an error, and events were
  -- delivered to the run while it waited for them.
  pub record Observed (attempts : ℕ → Injection) (m m' : Machine) (j : ℕ) : Type 0 where
    pub before : Machine
    pub later : length (collected_events m) ≤ length (collected_events before)
    pub tried : (probe_once blind idle (attempts j) before).1 ≡ m'
    pub injected : (attempts j).raised ≡ none
    pub heard : length (collected_events before) < length (collected_events m')

  once-Signals :
      (i : Injection) (m : Machine)
      → Signals
          (extend_deadline i.now idle (arm_event_signal m.harvester))
          (probe_once blind idle i m).1.harvester
  unfolding probe_once await_reads
  once-Signals i m = turns-Signals blind (loop_turns i.reads) _

  once-monotone :
      (i : Injection) (m : Machine)
      → length (collected_events m) ≤ length (collected_events (probe_once blind idle i m).1)
  unfolding arm_event_signal extend_deadline
  once-monotone i m = (once-Signals i m).monotone

  once-raised :
      (i : Injection) (m : Machine)
      → (probe_once blind idle i m).0 ≡ true
      → (i.raised ≡ none) × ((probe_once blind idle i m).1.harvester.event_signal ≡ true)
  unfolding probe_once
  once-raised i m h = elim (Option-cases i.raised) [
    | inl e ↦ (e, (rw (e, probe_once) at h))
    | inr (x, e) ↦ absurd (cc ((rw (e, probe_once) at h)))
  ]

  once-Observed :
      (attempts : ℕ → Injection) (j : ℕ) (m : Machine)
      → (probe_once blind idle (attempts j) m).0 ≡ true
      → Observed attempts m (probe_once blind idle (attempts j) m).1 j
  unfolding arm_event_signal extend_deadline
  once-Observed attempts j m h =
      let (r, s) = once-raised (attempts j) m h in
      record {
        before = m;
        later = omega arith;
        tried = refl;
        injected = r;
        heard = elim ((once-Signals (attempts j) m).told s) [ inl e ↦ absurd (cc) | inr l ↦ l ];
      }

  -- A canary that was observed was injected by one of the attempts, at most as many as there are, and
  -- events were delivered to the run behind that injection, the last one that was made.
  pub probe_oracle-Observed :
      (attempts : ℕ → Injection) (n k : ℕ) (m m' : Machine)
      → probe_oracle blind idle attempts n k m ≡ (true, m')
      → (j : ℕ) × (k ≤ j) × (j < k + n) × Observed attempts m m' j
  unfolding probe_oracle
  probe_oracle-Observed attempts zero k m m' h = absurd (cc)
  probe_oracle-Observed attempts (suc n) k m m' h =
      elim (Bool-cases (probe_once blind idle (attempts k) m).0) [
        | inl e ↦
            let t = ap (λ (x : Bool × Machine). x.1) (rw (e, probe_oracle) at h) in
            (
              k,
              omega arith,
              omega arith,
              subst (λ x. Observed attempts m x k) t (once-Observed attempts k m e),
            )
        | inr e ↦
            let (j, l, u, o) =
              probe_oracle-Observed attempts n (suc k) _ m' (rw (e, probe_oracle) at h) in
            (
              j,
              omega (arith, l),
              omega (arith, u),
              record {
                before = o.before;
                later = omega (arith, o.later, once-monotone (attempts k) m);
                tried = o.tried;
                injected = o.injected;
                heard = o.heard;
              },
            )
      ]
