-- ===== src/Harvester/Loop/Signal.antt =====
-- What `event_signal` tells the pipeline.
use network_sandbox_engine.Prelude.{
  ℕ, ◌≤◌, ◌<◌, Text, strip, Bool, true, some, List, [], ◌∷◌, ◌≡◌, refl, arith, length,
  length-append, Option-cases, inl, inr, ◌⊎◌, leb, Bool-cases, if◌then◌else◌,
}
use network_sandbox_engine.Models.{TraceEvent}
use network_sandbox_engine.Harvester.Parser.{parse_line}
use network_sandbox_engine.Harvester.Loop.{
  Harvester, HarvestState, Reading, line, timed_out, eof, fails, Turn, iteration, cancelled,
  stop_call, arm_call, extend_call, turn, turns, iterate, handle_line, record_unparsed, deliver,
  finish, cancel, stop, arm_event_signal, extend_deadline, is_reading, has_room,
}

-- From `h` to `h'` no event was lost, and a signal that is new came with an event.
pub record Signals (h h' : Harvester) : Type 0 where
  pub monotone : length h.delivered ≤ length h'.delivered
  pub told :
      h'.event_signal ≡ true → (h.event_signal ≡ true) ⊎ (length h.delivered < length h'.delivered)

Signals-refl : (h : Harvester) → Signals h h
Signals-refl h = record { monotone = omega arith; told = inl }

Signals-trans : (a b c : Harvester) → Signals a b → Signals b c → Signals a c
Signals-trans a b c p q = record {
  monotone = omega (arith, p.monotone, q.monotone);
  told = λ e. elim (q.told e) [
    | inr l ↦ inr (omega (arith, p.monotone, l))
    | inl e' ↦ elim (p.told e') [ inl e'' ↦ inl e'' | inr l ↦ inr (omega (arith, q.monotone, l)) ]
  ];
}

-- A step that leaves the signal and the events as they are.
Signals-same :
    (h h' : Harvester)
    → h'.event_signal ≡ h.event_signal
    → h'.delivered ≡ h.delivered
    → Signals h h'
Signals-same h h' e d = record { monotone = rw d (omega arith); told = λ s. inl (cc) }

Signals-finish : (s : HarvestState) (h : Harvester) → Signals h (finish s h)
unfolding finish
Signals-finish s h = Signals-same h (finish s h) (ground arith) (ground arith)

Signals-deliver : (e : TraceEvent) (h : Harvester) → Signals h (deliver e h)
unfolding deliver
Signals-deliver e h = elim (Bool-cases (has_room h.queue)) [
  | inl p ↦ rw p (record {
    monotone = omega (arith, length-append h.delivered (e ∷ []));
    told = λ s. inr (omega (arith, length-append h.delivered (e ∷ [])));
  })
  | inr p ↦ rw p (Signals-same _ _ refl refl)
]

Signals-handle_line :
    (blind : Bool) (now : ℕ) (t : Text) (h : Harvester) → Signals h (handle_line blind now t h)
unfolding handle_line record_unparsed
Signals-handle_line blind now [] h = Signals-refl h
Signals-handle_line blind now (c ∷ t) h = elim (Option-cases (parse_line blind now (c ∷ t))) [
  | inl p ↦ rw (p, handle_line) (Signals-same _ _ (ground arith) (ground arith))
  | inr (e, p) ↦ rw (p, handle_line) (Signals-deliver e h)
]

cancel-signal : (h : Harvester) → (cancel h).event_signal ≡ h.event_signal
unfolding cancel finish
cancel-signal h = ground arith

cancel-delivered : (h : Harvester) → (cancel h).delivered ≡ h.delivered
unfolding cancel finish
cancel-delivered h = ground arith

module _ (blind : Bool) where
  Signals-iterate : (now : ℕ) (r : Reading) (h : Harvester) → Signals h (iterate blind now r h)
  unfolding iterate
  Signals-iterate now r h = elim (Bool-cases (leb h.deadline now)) [
    | inl p ↦ rw p (Signals-finish _ h)
    | inr p ↦ rw p (on_time r)
  ]
    where
      on_time :
          (r : Reading)
          → Signals h (elim r as (λ _. Harvester) [
            | line t ↦ handle_line blind now (strip t) h
            | timed_out ↦ h
            | eof ↦
                finish (if h.stop_requested then HarvestState.stopped else HarvestState.clean_eof) h
            | fails exc ↦ finish HarvestState.error (record h { error = some exc })
          ])
      on_time (line t) = Signals-handle_line blind now (strip t) h
      on_time timed_out = Signals-refl h
      on_time eof = Signals-finish _ h
      on_time (fails exc) =
          Signals-trans h _ _ (Signals-same h (record h { error = some exc }) refl refl)
            (Signals-finish _ _)

  Signals-turn : (t : Turn) (h : Harvester) → Signals h (turn blind t h)
  unfolding turn stop arm_event_signal extend_deadline cancel
  Signals-turn (iteration now r) h = elim (Bool-cases (is_reading h.task)) [
    | inl p ↦ rw p (Signals-iterate now r h)
    | inr p ↦ rw p (Signals-refl h)
  ]
  Signals-turn cancelled h = Signals-same _ _ (cancel-signal h) (cancel-delivered h)
  Signals-turn stop_call h = Signals-same _ _ refl refl
  Signals-turn arm_call h = record { monotone = omega arith; told = λ e. absurd (cc) }
  Signals-turn (extend_call now s) h = Signals-same _ _ refl refl

  -- The signal is set behind some turns only if it was set before them or an event was delivered in
  -- one of them; no turn takes a delivered event back.
  pub turns-Signals : (ts : List Turn) (h : Harvester) → Signals h (turns blind ts h)
  unfolding turns
  turns-Signals [] h = Signals-refl h
  turns-Signals (t ∷ ts) h =
      Signals-trans h _ _ (Signals-turn t h) (turns-Signals ts (turn blind t h))
