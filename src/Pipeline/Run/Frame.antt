-- ===== src/Pipeline/Run/Frame.antt =====
-- What every step of a run keeps: the id of the run, and the events that are collected so far.
use network_sandbox_engine.Prelude.{
  Text, Bool, true, false, Option, none, some, ◌≡◌, refl, ◌∙◌, Bool-cases, inl, inr, if◌then◌else◌,
}
use network_sandbox_engine.Exceptions.{Exception}
use network_sandbox_engine.Models.{TraceEvent}
use network_sandbox_engine.Harvester.Loop.{has_room}
use network_sandbox_engine.Harvester.Loop.Growth.{
  Extends, Extends-refl, Extends-trans, Extends-snoc, turns-Extends,
}
use network_sandbox_engine.Pipeline.Machine.{
  Status, Machine, Step, next, raises, rejects, returns, stuck, Action, Reads, ◌>>=◌, continue,
  pure, attempt, loop_turns, await_reads, put_or_wait, error_event, emit_event, fail_with,
  emit_oracle_error, collected_events,
}

pub record Later (m m' : Machine) : Type 0 where
  pub same_id : m'.test_id ≡ m.test_id
  pub grown : Extends (collected_events m) (collected_events m')

-- An action that keeps the id and what is collected.
pub record Keeps {ℓ} {A : Type ℓ} (a : Action A) : Type ℓ where
  pub at : (m : Machine) → Later m (a m).1

pub Later-refl : (m : Machine) → Later m m
Later-refl m = record { same_id = refl; grown = Extends-refl _ }

pub Later-trans : {a b c : Machine} → Later a b → Later b c → Later a c
Later-trans p q = record { same_id = q.same_id ∙ p.same_id; grown = Extends-trans p.grown q.grown }

module _ {ℓ} {A : Type ℓ} where
  pub Keeps-pure : (a : A) → Keeps (pure a)
  Keeps-pure a = record { at = λ m. Later-refl m }

  pub Keeps-if : (b : Bool) (a a' : Action A) → Keeps a → Keeps a' → Keeps (if b then a else a')
  Keeps-if true a a' k k' = k
  Keeps-if false a a' k k' = k'

pub Keeps-continue {ℓ κ} :
    {A : Type ℓ} {B : Type κ} (r : Step A) (f : A → Action B) (m : Machine)
    → ((a : A) → Keeps (f a))
    → Later m (continue r f m).1
Keeps-continue (next a) f m k = (k a).at m
Keeps-continue (raises e) f m k = Later-refl m
Keeps-continue (rejects t) f m k = Later-refl m
Keeps-continue returns f m k = Later-refl m
Keeps-continue stuck f m k = Later-refl m

pub Keeps-bind {ℓ κ} :
    {A : Type ℓ} {B : Type κ} (a : Action A) (f : A → Action B)
    → Keeps a
    → ((x : A) → Keeps (f x))
    → Keeps (a >>= f)
Keeps-bind a f ka kf = record {
  at = λ m. Later-trans (ka.at m) (Keeps-continue (a m).0 f (a m).1 kf);
}

pub Keeps-attempt : (o : Option Exception) → Keeps (attempt o)
Keeps-attempt none = record { at = λ m. Later-refl m }
Keeps-attempt (some e) = record { at = λ m. Later-refl m }

pub Keeps-await : (blind : Bool) (rs : Reads) → Keeps (await_reads blind rs)
unfolding await_reads
Keeps-await blind rs = record {
  at = λ m. record { same_id = refl; grown = turns-Extends blind (loop_turns rs) m.harvester };
}

Keeps-put : (o : Option TraceEvent) → Keeps (put_or_wait o)
Keeps-put o = record {
  at = λ m. elim (Bool-cases (has_room m.harvester.queue)) [
    | inl p ↦ rw p (record { same_id = refl; grown = Extends-refl _ })
    | inr p ↦ rw p (Later-refl m)
  ];
}

pub Keeps-emit : (o : Option TraceEvent) → Keeps (emit_event o)
unfolding emit_event
Keeps-emit none = Keeps-put none
Keeps-emit (some e) = record {
  at = λ m.
      Later-trans (record { same_id = refl; grown = Extends-snoc _ e }) ((Keeps-put (some e)).at _);
}

pub Keeps-fail : (raw : Text) → Keeps (fail_with raw)
unfolding fail_with
Keeps-fail raw = record {
  at = λ m.
      let later =
        (Keeps-emit (some (error_event m.test_id raw))).at (record m { status = Status.error }) in
      record { same_id = later.same_id; grown = later.grown };
}

pub Keeps-oracle_error : (message : Text) → Keeps (emit_oracle_error message)
unfolding emit_oracle_error
Keeps-oracle_error message = Keeps-fail _

pub ruleset frame_rules = (
  Keeps-pure, Keeps-if, Keeps-bind, Keeps-attempt, Keeps-await, Keeps-emit, Keeps-fail,
  Keeps-oracle_error,
)
