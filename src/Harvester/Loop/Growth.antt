-- ===== src/Harvester/Loop/Growth.antt =====
-- The callback only ever appends to its list.
use network_sandbox_engine.Prelude.{
  ℕ, Text, strip, Bool, some, List, [], ◌∷◌, ◌++◌, ◌≡◌, refl, sym, ◌∙◌, arith, append-nil,
  append_assoc, Option-cases, inl, inr, ap, leb, Bool-cases, if◌then◌else◌,
}
use network_sandbox_engine.Models.{TraceEvent}
use network_sandbox_engine.Harvester.Parser.{parse_line}
use network_sandbox_engine.Harvester.Loop.{
  Harvester, HarvestState, Reading, line, timed_out, eof, fails, Turn, iteration, cancelled,
  stop_call, arm_call, extend_call, turn, turns, iterate, handle_line, record_unparsed, deliver,
  finish, cancel, stop, arm_event_signal, extend_deadline, is_reading, has_room, aclose,
  after_cancel, closed,
}

-- `ys` continues `xs`.
pub record Extends (xs ys : List TraceEvent) : Type 0 where
  pub added : List TraceEvent
  pub appended : ys ≡ xs ++ added

pub Extends-refl : (xs : List TraceEvent) → Extends xs xs
Extends-refl xs = record { added = []; appended = sym (append-nil xs) }

pub Extends-trans : {xs ys zs : List TraceEvent} → Extends xs ys → Extends ys zs → Extends xs zs
Extends-trans {xs} a b = record {
  added = a.added ++ b.added;
  appended = b.appended ∙ ap (λ l. l ++ b.added) a.appended ∙ append_assoc xs a.added b.added;
}

pub Extends-snoc : (xs : List TraceEvent) (x : TraceEvent) → Extends xs (xs ++ x ∷ [])
Extends-snoc xs x = record { added = x ∷ []; appended = refl }

Extends-eq : (xs ys : List TraceEvent) → ys ≡ xs → Extends xs ys
Extends-eq xs ys e = record { added = []; appended = e ∙ sym (append-nil xs) }

finish-delivered : (s : HarvestState) (h : Harvester) → (finish s h).delivered ≡ h.delivered
unfolding finish
finish-delivered s h = ground arith

record_unparsed-delivered :
    (t : Text) (h : Harvester) → (record_unparsed t h).delivered ≡ h.delivered
unfolding record_unparsed
record_unparsed-delivered t h = ground arith

deliver-Extends : (e : TraceEvent) (h : Harvester) → Extends h.delivered (deliver e h).delivered
unfolding deliver
deliver-Extends e h = elim (Bool-cases (has_room h.queue)) [
  | inl p ↦ rw p (Extends-snoc h.delivered e)
  | inr p ↦ rw p (Extends-refl h.delivered)
]

handle_line-Extends :
    (blind : Bool) (now : ℕ) (t : Text) (h : Harvester)
    → Extends h.delivered (handle_line blind now t h).delivered
unfolding handle_line
handle_line-Extends blind now [] h = Extends-refl h.delivered
handle_line-Extends blind now (c ∷ t) h = elim (Option-cases (parse_line blind now (c ∷ t))) [
  | inl p ↦ rw (p, handle_line) (Extends-eq _ _ (record_unparsed-delivered (c ∷ t) h))
  | inr (e, p) ↦ rw (p, handle_line) (deliver-Extends e h)
]

module _ (blind : Bool) where
  iterate-Extends :
      (now : ℕ) (r : Reading) (h : Harvester)
      → Extends h.delivered (iterate blind now r h).delivered
  unfolding iterate
  iterate-Extends now r h = elim (Bool-cases (leb h.deadline now)) [
    | inl p ↦ rw p (Extends-eq _ _ (finish-delivered _ h))
    | inr p ↦ rw p (on_time r)
  ]
    where
      on_time :
          (r : Reading)
          → Extends h.delivered
              (elim r as (λ _. Harvester) [
                | line t ↦ handle_line blind now (strip t) h
                | timed_out ↦ h
                | eof ↦
                    finish
                      (if h.stop_requested then HarvestState.stopped else HarvestState.clean_eof)
                      h
                | fails exc ↦ finish HarvestState.error (record h { error = some exc })
              ]).delivered
      on_time (line t) = handle_line-Extends blind now (strip t) h
      on_time timed_out = Extends-refl h.delivered
      on_time eof = Extends-eq _ _ (finish-delivered _ h)
      on_time (fails exc) =
          Extends-eq _ _ (finish-delivered HarvestState.error (record h { error = some exc }))

  cancel-delivered : (h : Harvester) → (cancel h).delivered ≡ h.delivered
  unfolding cancel
  cancel-delivered h =
      ground
        (arith, finish-delivered HarvestState.stopped (record h { state = HarvestState.stopped }))

  turn-Extends : (t : Turn) (h : Harvester) → Extends h.delivered (turn blind t h).delivered
  unfolding turn stop arm_event_signal extend_deadline
  turn-Extends (iteration now r) h = elim (Bool-cases (is_reading h.task)) [
    | inl p ↦ rw p (iterate-Extends now r h)
    | inr p ↦ rw p (Extends-refl h.delivered)
  ]
  turn-Extends cancelled h = Extends-eq _ _ (cancel-delivered h)
  turn-Extends stop_call h = Extends-refl h.delivered
  turn-Extends arm_call h = Extends-refl h.delivered
  turn-Extends (extend_call now s) h = Extends-refl h.delivered

  -- Whatever happens to the loop, the events that its callback was given stay, and new ones come
  -- behind them.
  pub turns-Extends :
      (ts : List Turn) (h : Harvester) → Extends h.delivered (turns blind ts h).delivered
  unfolding turns
  turns-Extends [] h = Extends-refl h.delivered
  turns-Extends (t ∷ ts) h = Extends-trans (turn-Extends t h) (turns-Extends ts (turn blind t h))

  pub aclose-Extends :
      (ts : List Turn) (h h' : Harvester)
      → aclose blind ts h ≡ some h'
      → Extends h.delivered h'.delivered
  unfolding aclose after_cancel closed stop
  aclose-Extends ts h h' e =
      Extends-trans (turns-Extends ts (stop h))
        (Extends-eq _ _ (ground (arith, cancel-delivered (turns blind ts (stop h)))))
