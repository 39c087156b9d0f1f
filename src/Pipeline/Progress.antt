-- ===== src/Pipeline/Progress.antt =====
-- Where a run of nse/core/pipeline.py waits for the queue, and what holds of the harvester where it
-- does not.
pub mod Stagewise
pub mod Whole
pub mod Consumed
pub mod Bounded
use network_sandbox_engine.Prelude.{
  ℕ, Text, Bool, true, false, Option, none, some, List, [], ◌∷◌, ◌++◌, ◌≡◌, refl, Bool-cases, inl,
  inr, if◌then◌else◌,
}
use network_sandbox_engine.Exceptions.{Exception}
use network_sandbox_engine.Models.{TraceEvent}
use network_sandbox_engine.Harvester.Loop.Queueing.{Kept, Holds, turn-Holds, aclose-Holds}
use network_sandbox_engine.Harvester.Loop.{
  Task, Queue, Harvester, Turn, turn, turns, start, aclose, has_room, put,
}
use network_sandbox_engine.Pipeline.Machine.{
  Status, Machine, error_event, Step, next, raises, rejects, returns, stuck, Action, Reads, ◌>>=◌,
  continue, pure, attempt, loop_turns, await_reads, put_or_wait, emit_event, fail_with,
  emit_oracle_error,
}

-- `emit_event`, where the queue has room
abbrev pub emitted : Option TraceEvent → Harvester → Harvester
emitted none h = record h { queue = put none h.queue }
emitted (some e) h = record h { queue = put (some e) h.queue; delivered = h.delivered ++ e ∷ [] }

-- A property of the harvester that what happens to it keeps; a wait that never ends gives `Hang`.
pub record Law (I : Harvester → Type 0) (Hang : Type 0) : Type 0 where
  pub emits :
      (o : Option TraceEvent) (h : Harvester) → I h → has_room h.queue ≡ true → I (emitted o h)
  pub full : (h : Harvester) → I h → has_room h.queue ≡ false → Hang
  pub turned : (blind : Bool) (t : Turn) (h : Harvester) → I h → I (turn blind t h)
  pub started : (now seconds : ℕ) (h : Harvester) → I h → I (start now seconds h)
  pub closes :
      (blind : Bool) (ts : List Turn) (h h' : Harvester) → I h → aclose blind ts h ≡ some h' → I h'
  pub waits :
      (blind : Bool) (ts : List Turn) (h : Harvester) → I h → aclose blind ts h ≡ none → Hang

module _ (I : Harvester → Type 0) (Hang : Type 0) where
  abbrev pub After {ℓ} : {A : Type ℓ} → Step A → Machine → Type 0
  After (next x) m = I m.harvester
  After (raises e) m = I m.harvester
  After (rejects t) m = I m.harvester
  After returns m = I m.harvester
  After stuck m = Hang

  -- An action that keeps the property.
  pub record Respects {ℓ} {A : Type ℓ} (a : Action A) : Type ℓ where
    pub at : (m : Machine) → I m.harvester → After (a m).0 (a m).1

module _ {I : Harvester → Type 0} {Hang : Type 0} where
  pub Respects-pure {ℓ} : {A : Type ℓ} (x : A) → Respects I Hang (pure x)
  Respects-pure x = record { at = λ m i. i }

  pub Respects-if {ℓ} :
      {A : Type ℓ} (b : Bool) (a a' : Action A)
      → Respects I Hang a
      → Respects I Hang a'
      → Respects I Hang (if b then a else a')
  Respects-if true a a' p q = p
  Respects-if false a a' p q = q

  After-continue {ℓ κ} :
      {A : Type ℓ} {B : Type κ} (r : Step A) (f : A → Action B) (m : Machine)
      → After I Hang r m
      → ((x : A) → Respects I Hang (f x))
      → After I Hang (continue r f m).0 (continue r f m).1
  After-continue (next x) f m i k = (k x).at m i
  After-continue (raises e) f m i k = i
  After-continue (rejects t) f m i k = i
  After-continue returns f m i k = i
  After-continue stuck f m i k = i

  pub Respects-bind {ℓ κ} :
      {A : Type ℓ} {B : Type κ} (a : Action A) (f : A → Action B)
      → Respects I Hang a
      → ((x : A) → Respects I Hang (f x))
      → Respects I Hang (a >>= f)
  Respects-bind a f p k = record { at = λ m i. After-continue (a m).0 f (a m).1 (p.at m i) k }

  pub Respects-attempt : (o : Option Exception) → Respects I Hang (attempt o)
  Respects-attempt none = record { at = λ m i. i }
  Respects-attempt (some e) = record { at = λ m i. i }

  module _ (law : Law I Hang) where
    pub turns-law : (blind : Bool) (ts : List Turn) (h : Harvester) → I h → I (turns blind ts h)
    unfolding turns
    turns-law blind [] h i = i
    turns-law blind (t ∷ ts) h i = turns-law blind ts (turn blind t h) (law.turned blind t h i)

    pub Respects-await : (blind : Bool) (rs : Reads) → Respects I Hang (await_reads blind rs)
    unfolding await_reads
    Respects-await blind rs = record { at = λ m i. turns-law blind (loop_turns rs) m.harvester i }

    pub Respects-emit : (o : Option TraceEvent) → Respects I Hang (emit_event o)
    unfolding emit_event
    Respects-emit o = record {
      at = λ m i. elim (Bool-cases (has_room m.harvester.queue)) [
        | inl p ↦ with_room o m i p
        | inr p ↦ without o m i p
      ];
    }
      where
        with_room :
            (o : Option TraceEvent) (m : Machine)
            → I m.harvester
            → has_room m.harvester.queue ≡ true
            → After I Hang (emit_event o m).0 (emit_event o m).1
        with_room none m i p = rw p (law.emits none m.harvester i p)
        with_room (some e) m i p = rw p (law.emits (some e) m.harvester i p)

        without :
            (o : Option TraceEvent) (m : Machine)
            → I m.harvester
            → has_room m.harvester.queue ≡ false
            → After I Hang (emit_event o m).0 (emit_event o m).1
        without none m i p = rw p (law.full m.harvester i p)
        without (some e) m i p = rw p (law.full m.harvester i p)

    pub Respects-fail : (raw : Text) → Respects I Hang (fail_with raw)
    unfolding fail_with
    Respects-fail raw = record {
      at = λ m i.
          (Respects-emit (some (error_event m.test_id raw))).at (record m { status = Status.error })
            i;
    }

    pub Respects-oracle_error : (message : Text) → Respects I Hang (emit_oracle_error message)
    unfolding emit_oracle_error
    Respects-oracle_error message = Respects-fail _

-- The read loop's part of such a property.
pub Law-Kept :
    {J : Task → Queue → List TraceEvent → Type 0} {Hang : Type 0}
    → Kept J
    → ((t : Task) (q : Queue) (d : List TraceEvent) → J t q d → has_room q ≡ false → Hang)
    → ((blind : Bool) (ts : List Turn) (h : Harvester)
        → Holds J h
        → aclose blind ts h ≡ none
        → Hang)
    → Law (Holds J) Hang
unfolding start
Law-Kept {J} k no_room no_end = record {
  emits = sent;
  full = λ h i p. no_room h.task h.queue h.delivered i p;
  turned = λ blind t h i. turn-Holds k blind t h i;
  started = λ now seconds h i. k.reads h.task h.queue h.delivered i;
  closes = λ blind ts h h' i e. aclose-Holds k blind ts h h' i e;
  waits = no_end;
}
  where
    sent :
        (o : Option TraceEvent) (h : Harvester)
        → Holds J h
        → has_room h.queue ≡ true
        → Holds J (emitted o h)
    sent none h i p = k.ends h.task h.queue h.delivered i p
    sent (some e) h i p = k.sends h.task h.queue h.delivered e i p
