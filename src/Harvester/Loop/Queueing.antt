-- ===== src/Harvester/Loop/Queueing.antt =====
-- What the read loop does to its task, its queue and the events that its callback was given.
use network_sandbox_engine.Prelude.{
  ℕ, Text, strip, Bool, true, false, none, some, List, [], ◌∷◌, ◌++◌, ◌≡◌, refl, subst, arith,
  Option-cases, inl, inr, leb, Bool-cases,
}
use network_sandbox_engine.Models.{TraceEvent}
use network_sandbox_engine.Harvester.Parser.{parse_line}
use network_sandbox_engine.Harvester.Loop.{
  Harvester, HarvestState, Queue, put, Task, idle, reading, event_waits, sentinel_waits, ended,
  Reading, line, timed_out, eof, fails, Turn, iteration, cancelled, stop_call, arm_call,
  extend_call, turn, turns, iterate, handle_line, record_unparsed, deliver, finish, cancel, stop,
  arm_event_signal, extend_deadline, is_reading, has_room, aclose, after_cancel, closed,
}

-- A property of the three that each put, each wait and each move of the task keeps.
pub record Kept (J : Task → Queue → List TraceEvent → Type 0) : Type 0 where
  pub sends :
      (t : Task) (q : Queue) (d : List TraceEvent) (e : TraceEvent)
      → J t q d
      → has_room q ≡ true
      → J t (put (some e) q) (d ++ e ∷ [])
  pub ends :
      (t : Task) (q : Queue) (d : List TraceEvent)
      → J t q d
      → has_room q ≡ true
      → J t (put none q) d
  pub event_blocks :
      (t : Task) (q : Queue) (d : List TraceEvent)
      → J t q d
      → has_room q ≡ false
      → J event_waits q d
  pub sentinel_blocks :
      (t : Task) (q : Queue) (d : List TraceEvent)
      → J t q d
      → has_room q ≡ false
      → J sentinel_waits q d
  pub reads : (t : Task) (q : Queue) (d : List TraceEvent) → J t q d → J reading q d
  pub is_over : (t : Task) (q : Queue) (d : List TraceEvent) → J t q d → J ended q d

some-injective : {X : Type 0} {a b : X} → some a ≡ some b → a ≡ b
some-injective e = cc

module _ (J : Task → Queue → List TraceEvent → Type 0) where
  abbrev pub Holds : Harvester → Type 0
  Holds h = J h.task h.queue h.delivered

module _ {J : Task → Queue → List TraceEvent → Type 0} (k : Kept J) where
  finish-Holds : (s : HarvestState) (h : Harvester) → Holds J h → Holds J (finish s h)
  unfolding finish
  finish-Holds s h i = elim (Bool-cases (has_room h.queue)) [
    | inl p ↦ rw p (k.ends ended h.queue h.delivered (k.is_over h.task h.queue h.delivered i) p)
    | inr p ↦ rw p (k.sentinel_blocks h.task h.queue h.delivered i p)
  ]

  record_unparsed-Holds : (t : Text) (h : Harvester) → Holds J h → Holds J (record_unparsed t h)
  unfolding record_unparsed
  record_unparsed-Holds t h i = ground arith

  deliver-Holds : (e : TraceEvent) (h : Harvester) → Holds J h → Holds J (deliver e h)
  unfolding deliver
  deliver-Holds e h i = elim (Bool-cases (has_room h.queue)) [
    | inl p ↦ rw p (k.sends h.task h.queue h.delivered e i p)
    | inr p ↦ rw p (k.event_blocks h.task h.queue h.delivered i p)
  ]

  handle_line-Holds :
      (blind : Bool) (now : ℕ) (t : Text) (h : Harvester)
      → Holds J h
      → Holds J (handle_line blind now t h)
  unfolding handle_line
  handle_line-Holds blind now [] h i = i
  handle_line-Holds blind now (c ∷ t) h i = elim (Option-cases (parse_line blind now (c ∷ t))) [
    | inl p ↦ rw (p, handle_line) (record_unparsed-Holds (c ∷ t) h i)
    | inr (e, p) ↦ rw (p, handle_line) (deliver-Holds e h i)
  ]

  iterate-Holds :
      (blind : Bool) (now : ℕ) (r : Reading) (h : Harvester)
      → Holds J h
      → Holds J (iterate blind now r h)
  unfolding iterate
  iterate-Holds blind now r h i = elim (Bool-cases (leb h.deadline now)) [
    | inl p ↦ rw p (finish-Holds _ h i)
    | inr p ↦ on_time r p
  ]
    where
      on_time : (r : Reading) → leb h.deadline now ≡ false → Holds J (iterate blind now r h)
      on_time (line t) p = rw p (handle_line-Holds blind now (strip t) h i)
      on_time timed_out p = rw p i
      on_time eof p = rw p (finish-Holds _ h i)
      on_time (fails exc) p =
          rw p (finish-Holds HarvestState.error (record h { error = some exc }) i)

  cancel-Holds : (h : Harvester) → Holds J h → Holds J (cancel h)
  unfolding cancel
  cancel-Holds h i = go h.task refl
    where
      go : (t : Task) → h.task ≡ t → Holds J (cancel h)
      go reading e = rw (e, cancel) (finish-Holds _ (record h { state = HarvestState.stopped }) i)
      go event_waits e =
          rw (e, cancel) (finish-Holds _ (record h { state = HarvestState.stopped }) i)
      go sentinel_waits e = rw (e, cancel) (k.is_over h.task h.queue h.delivered i)
      go idle e = rw (e, cancel) i
      go ended e = rw (e, cancel) i

  pub turn-Holds : (blind : Bool) (t : Turn) (h : Harvester) → Holds J h → Holds J (turn blind t h)
  unfolding turn stop arm_event_signal extend_deadline
  turn-Holds blind (iteration now r) h i = elim (Bool-cases (is_reading h.task)) [
    | inl p ↦ rw p (iterate-Holds blind now r h i)
    | inr p ↦ rw p i
  ]
  turn-Holds blind cancelled h i = cancel-Holds h i
  turn-Holds blind stop_call h i = i
  turn-Holds blind arm_call h i = i
  turn-Holds blind (extend_call now s) h i = i

  pub turns-Holds :
      (blind : Bool) (ts : List Turn) (h : Harvester) → Holds J h → Holds J (turns blind ts h)
  unfolding turns
  turns-Holds blind [] h i = i
  turns-Holds blind (t ∷ ts) h i = turns-Holds blind ts (turn blind t h) (turn-Holds blind t h i)

  some-Holds : (h h' : Harvester) → Holds J h → some (closed h) ≡ some h' → Holds J h'
  unfolding closed
  some-Holds h h' i e = subst (Holds J) (some-injective e) i

  after_cancel-Holds : (h h' : Harvester) → Holds J h → after_cancel h ≡ some h' → Holds J h'
  unfolding after_cancel
  after_cancel-Holds h h' i e = go h.task refl
    where
      go : (t : Task) → h.task ≡ t → Holds J h'
      go ended q = some-Holds h h' i (rw (q, after_cancel) at e)
      go idle q = absurd (cc (rw (q, after_cancel) at e))
      go reading q = absurd (cc (rw (q, after_cancel) at e))
      go event_waits q = absurd (cc (rw (q, after_cancel) at e))
      go sentinel_waits q = absurd (cc (rw (q, after_cancel) at e))

  pub aclose-Holds :
      (blind : Bool) (ts : List Turn) (h h' : Harvester)
      → Holds J h
      → aclose blind ts h ≡ some h'
      → Holds J h'
  unfolding aclose stop turn
  aclose-Holds blind ts h h' i e = go (last.task) refl
    where
      last : Harvester
      last = turns blind ts (stop h)

      held : Holds J last
      held = turns-Holds blind ts (stop h) (turn-Holds blind stop_call h i)

      cancelled_ : after_cancel (cancel last) ≡ some h' → Holds J h'
      cancelled_ = after_cancel-Holds (cancel last) h' (cancel-Holds last held)

      go : (t : Task) → last.task ≡ t → Holds J h'
      go idle q = some-Holds last h' held (rw (q, aclose) at e)
      go ended q = some-Holds last h' held (rw (q, aclose) at e)
      go reading q = cancelled_ (rw (q, aclose) at e)
      go event_waits q = cancelled_ (rw (q, aclose) at e)
      go sentinel_waits q = cancelled_ (rw (q, aclose) at e)
