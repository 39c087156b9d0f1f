-- ===== src/Engine/Simulates.antt =====
-- A run with its calls is the run of the step machine in the environment of their ends.
use network_sandbox_engine.Prelude.{
  ℕ, zero, suc, ◌+◌, Bool, true, false, Option, none, some, List, [], ◌∷◌, ◌≡◌, refl, sym, ◌∙◌, ap,
  subst, arith,
}
use network_sandbox_engine.Exceptions.{Exception}
use network_sandbox_engine.Models.Request.{PacketSpec, TestRequest}
use network_sandbox_engine.Shell.{System, Result, Call}
use network_sandbox_engine.Pipeline.Canary.{Injection, probe_once, probe_oracle}
use network_sandbox_engine.Pipeline.Env.{Env}
use network_sandbox_engine.Pipeline.Machine as Machine
use network_sandbox_engine.Pipeline.Machine.{
  Machine, Step, next, raises, rejects, returns, stuck, Action, continue, attempt, pure,
}
use network_sandbox_engine.Pipeline.Stages
use network_sandbox_engine.Pipeline.Stages.{with_port}
use network_sandbox_engine.Engine.Calls.{
  Site, Effect, follow, ◌>>=◌, ◌>>◌, act, exception_of, proceed, call, injection, send,
}
use network_sandbox_engine.Engine.{listen_all, try_canary, try_canaries, inject_one, inject_all}
use network_sandbox_engine.Engine.Outcomes.{repeated, in_turn, listener_call}

-- A run that ends as an action does, from the same machine.
pub record Simulates {ℓ} {A : Type ℓ} (e : Effect A) (a : Action A) (m : Machine) (s : System)
    : Type ℓ where
  pub same : ((e m s).0, (e m s).1) ≡ a m

pub Simulates-act {ℓ} :
    {A : Type ℓ} (a : Action A) (m : Machine) (s : System) → Simulates (act a) a m s
Simulates-act a m s = record { same = refl }

pub Simulates-bind {ℓ κ} :
    {A : Type ℓ} {B : Type κ} (e : Effect A) (f : A → Effect B) (a : Action A) (g : A → Action B)
    (m : Machine) (s : System)
    → Simulates e a m s
    → ((x : A) → (e m s).0 ≡ next x → Simulates (f x) (g x) (e m s).1 (e m s).2)
    → Simulates (e >>= f) (Machine.◌>>=◌ a g) m s
Simulates-bind {A} {B} e f a g m s p k = record {
  same = go (e m s).0 refl k ∙ ap (λ r. continue r.0 g r.1) p.same;
}
  where
    go :
        (r : Step A)
        → (e m s).0 ≡ r
        → ((x : A) → (e m s).0 ≡ next x → Simulates (f x) (g x) (e m s).1 (e m s).2)
        → let out = follow (e m s).0 f (e m s).1 (e m s).2 in
          (out.0, out.1) ≡ continue (e m s).0 g (e m s).1
    go (next x) q k = rw (q, follow) ((k x q).same)
    go (raises x) q k = rw (q, follow) refl
    go (rejects x) q k = rw (q, follow) refl
    go returns q k = rw (q, follow) refl
    go stuck q k = rw (q, follow) refl

-- An effect behind which the rest runs whatever it gives.
pub Simulates-then :
    {e e' : Effect (Unit {0})} {a a' : Action (Unit {0})} {m : Machine} {s : System}
    → Simulates e a m s
    → Simulates e' a' (e m s).1 (e m s).2
    → Simulates (e >> e') (Machine.◌>>◌ a a') m s
Simulates-then {e} {e'} {a} {a'} {m} {s} p k =
    Simulates-bind e (λ _. e') a (λ _. a') m s p (λ _ _. k)

at_zero : {X : Type 0} (f : ℕ → X) (k : ℕ) {x : X} → f (k + 0) ≡ x → f k ≡ x
at_zero f k {x} h = subst (λ j. f j ≡ x) (omega arith) h

at_suc : {X : Type 0} (f : ℕ → X) (k i : ℕ) {x : X} → f (k + suc i) ≡ x → f (suc k + i) ≡ x
at_suc f k i {x} h = subst (λ j. f j ≡ x) (omega arith) h

-- Calls for the packets of a list, from the `k`-th on.
module _ {X : Type 0} (c : PacketSpec → Call (Unit {0})) (end : ℕ → Result (Unit {0}) → X)
    (rest : X) where
  abbrev pub Agrees : (ℕ → X) → List PacketSpec → System → ℕ → Type 0
  Agrees f ps s k = (i : ℕ) → f (k + i) ≡ in_turn c end rest ps s k i

  pub Agrees-head :
      (f : ℕ → X) (p : PacketSpec) (ps : List PacketSpec) (s : System) (k : ℕ)
      → Agrees f (p ∷ ps) s k
      → f k ≡ end k (c p s).0
  unfolding in_turn
  Agrees-head f p ps s k h = at_zero f k (h 0)

  pub Agrees-tail :
      (f : ℕ → X) (p : PacketSpec) (ps : List PacketSpec) (s : System) (k : ℕ)
      → Agrees f (p ∷ ps) s k
      → Agrees f ps (c p s).1 (suc k)
  unfolding in_turn
  Agrees-tail f p ps s k h i = at_suc f k i (h (suc i))

module _ (site : Site) where
  attempt-eq : (o : Option Exception) (m : Machine) → (proceed site o, m) ≡ attempt o m
  attempt-eq none m = refl
  attempt-eq (some e) m = refl

  pub Simulates-call :
      (c : Call (Unit {0})) (o : Option Exception) (m : Machine) (s : System)
      → o ≡ exception_of site (c s).0
      → Simulates (call site c) (attempt o) m s
  Simulates-call c o m s e = record {
    same = attempt-eq (exception_of site (c s).0) m ∙ ap (λ o. attempt o m) (sym e);
  }

  module _ (env : Env) (req : TestRequest) (env' : Env) where
    pub listen_all-Simulates :
        (ps : List PacketSpec) (k : ℕ) (m : Machine) (s : System)
        → Agrees (listener_call site env req) (λ k r. exception_of site r) none env'.listener ps s k
        → Simulates (listen_all site env req ps) (Stages.start_listeners env' k ps) m s
    unfolding listen_all Stages.start_listeners
    listen_all-Simulates [] k m s h = record { same = refl }
    listen_all-Simulates (p ∷ ps) k m s h =
        Simulates-bind _ _ _ _ m s (Simulates-call _ _ m s (ends p.dst_port refl))
          (λ x q. listen_all-Simulates ps (suc k) _ _ (Agrees-tail _ _ _ env'.listener p ps s k h))
      where
        ends :
            (port : Option ℕ)
            → p.dst_port ≡ port
            → with_port p.dst_port (env'.listener k)
              ≡ exception_of site (listener_call site env req p s).0
        ends none q = rw q refl
        ends (some zero) q = rw q refl
        ends (some (suc port)) q =
            ap (λ o. with_port o (env'.listener k)) q ∙ Agrees-head _ _ _ env'.listener p ps s k h

    pub inject_all-Simulates :
        (ps : List PacketSpec) (k : ℕ) (m : Machine) (s : System)
        → env'.blind ≡ env.blind
        → env'.idle_timeout ≡ env.idle_timeout
        → Agrees
            (send site req)
            (λ k r. injection site (env.packet k) r)
            (env.packet 0)
            env'.packet
            ps
            s
            k
        → Simulates (inject_all site env req k ps) (Stages.inject_packets env' k ps) m s
    unfolding inject_all inject_one Stages.inject_packets Stages.inject_packet
    inject_all-Simulates [] k m s b t h = record { same = refl }
    inject_all-Simulates (p ∷ ps) k m s b t h =
        Simulates-bind _ _ _ _ m s
          (record { same = rw (b, t, Agrees-head _ _ _ env'.packet p ps s k h) refl })
          (λ x q.
            inject_all-Simulates ps (suc k) _ _ b t (Agrees-tail _ _ _ env'.packet p ps s k h))

    -- The attempts of a canary, from the `k`-th on.
    pub try_canaries-eq :
        (c : Call (Unit {0})) (attempts f : ℕ → Injection) (n k : ℕ) (m : Machine) (s : System)
        → ((i : ℕ) → f (k + i) ≡ repeated site c s attempts k i)
        → let out = try_canaries site env c attempts n k m s in
          (out.0, out.1) ≡ probe_oracle env.blind env.idle_timeout f n k m
    unfolding try_canaries try_canary probe_oracle repeated
    try_canaries-eq c attempts f zero k m s h = refl
    try_canaries-eq c attempts f (suc n) k m s h =
        go (probe_once env.blind env.idle_timeout (injection site (attempts k) (c s).0) m)
          (λ m'. try_canaries-eq c attempts f n (suc k) m' (c s).1 (λ i. at_suc f k i (h (suc i))))
        ∙ ap
            (λ i. elim (probe_once env.blind env.idle_timeout i m).0 as (λ _. Bool × Machine) [
              | true ↦ (true, (probe_once env.blind env.idle_timeout i m).1)
              | false ↦
                  probe_oracle env.blind env.idle_timeout f n (suc k)
                    (probe_once env.blind env.idle_timeout i m).1
            ])
            (sym (at_zero f k (h 0)))
      where
        go :
            (r : Bool × Machine)
            → ((m' : Machine)
                → let out = try_canaries site env c attempts n (suc k) m' (c s).1 in
                  (out.0, out.1) ≡ probe_oracle env.blind env.idle_timeout f n (suc k) m')
            → let out = elim r.0 as (λ _. Bool × Machine × System) [
              | true ↦ (true, r.1, (c s).1)
              | false ↦ try_canaries site env c attempts n (suc k) r.1 (c s).1
            ] in
              (out.0, out.1) ≡ elim r.0 as (λ _. Bool × Machine) [
                | true ↦ (true, r.1)
                | false ↦ probe_oracle env.blind env.idle_timeout f n (suc k) r.1
              ]
        go (true, m') ih = refl
        go (false, m') ih = ih m'
