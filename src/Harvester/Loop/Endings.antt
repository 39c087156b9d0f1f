-- ===== src/Harvester/Loop/Endings.antt =====
-- How the loop ends.
use network_sandbox_engine.Prelude.{
  ℕ, Text, strip, Bool, true, false, some, List, [], ◌∷◌, ◌≡◌, ◌≢◌, refl, arith, Option-cases,
  Bool-cases, inl, inr, any,
}
use network_sandbox_engine.Harvester.Parser.{parse_line}
use network_sandbox_engine.Harvester.Loop.{
  Harvester, HarvestState, reading, event_waits, ended, Turn, iteration, cancelled, stop_call,
  arm_call, extend_call, line, Reading, timed_out, eof, fails, turn, turns, iterate, handle_line,
  record_unparsed, deliver, finish, cancel, stop, start, is_healthy, is_reading, arm_event_signal,
  extend_deadline,
}

-- A turn by which another task asks the loop to end.
abbrev pub asks : Turn → Bool
asks stop_call = true
asks cancelled = true
asks _ = false

-- Nobody has asked, and the state agrees.
record IsUnasked (h : Harvester) : Type 0 where
  not_requested : h.stop_requested ≡ false
  not_stopped : h.state ≢ HarvestState.stopped

finish-IsUnasked :
    (s : HarvestState) (h : Harvester)
    → s ≢ HarvestState.stopped
    → IsUnasked h
    → IsUnasked (finish s h)
unfolding finish
finish-IsUnasked s h p u = ground (arith)

handle_line-IsUnasked :
    (blind : Bool) (now : ℕ) (t : Text) (h : Harvester)
    → IsUnasked h
    → IsUnasked (handle_line blind now t h)
unfolding handle_line record_unparsed deliver
handle_line-IsUnasked blind now [] h u = u
handle_line-IsUnasked blind now (c ∷ t) h u = elim (Option-cases (parse_line blind now (c ∷ t))) [
  | inl p ↦ ground arith
  | inr (event, p) ↦ ground arith
]

module _ (blind : Bool) where
  iterate-IsUnasked :
      (now : ℕ) (result : Reading) (h : Harvester)
      → IsUnasked h
      → IsUnasked (iterate blind now result h)
  unfolding iterate
  iterate-IsUnasked now (line t) h u = ground (
    arith,
    handle_line-IsUnasked blind now (strip t) h u,
    finish-IsUnasked HarvestState.timeout h,
  )
  iterate-IsUnasked now timed_out h u = ground (arith, finish-IsUnasked HarvestState.timeout h)
  iterate-IsUnasked now eof h u =
      ground
        (arith, finish-IsUnasked HarvestState.timeout h, finish-IsUnasked HarvestState.clean_eof h)
  iterate-IsUnasked now (fails exc) h u = ground (
    arith,
    finish-IsUnasked HarvestState.timeout h,
    finish-IsUnasked HarvestState.error (record h { error = some exc }),
  )

  turn-IsUnasked :
      (t : Turn) (h : Harvester) → asks t ≡ false → IsUnasked h → IsUnasked (turn blind t h)
  unfolding turn arm_event_signal extend_deadline
  turn-IsUnasked (iteration now r) h a u = ground (arith, iterate-IsUnasked now r h u)
  turn-IsUnasked cancelled h a u = absurd (cc)
  turn-IsUnasked stop_call h a u = absurd (cc)
  turn-IsUnasked arm_call h a u = ground arith
  turn-IsUnasked (extend_call now s) h a u = ground arith

  turns-IsUnasked :
      (ts : List Turn) (h : Harvester)
      → any asks ts ≡ false
      → IsUnasked h
      → IsUnasked (turns blind ts h)
  unfolding turns
  turns-IsUnasked [] h a u = u
  turns-IsUnasked (t ∷ ts) h a u =
      turns-IsUnasked ts (turn blind t h) (ground arith) (turn-IsUnasked t h (ground arith) u)

-- The state is RUNNING until the `finally` block, and not from there on.
abbrev IsSettled : Harvester → Type 0
IsSettled h = elim h.task [
  | reading ↦ h.state ≡ HarvestState.running
  | event_waits ↦ h.state ≡ HarvestState.running
  | _ ↦ h.state ≢ HarvestState.running
]

finish-IsSettled :
    (s : HarvestState) (h : Harvester) → s ≢ HarvestState.running → IsSettled (finish s h)
unfolding finish
finish-IsSettled s h p = ground arith

handle_line-IsSettled :
    (blind : Bool) (now : ℕ) (t : Text) (h : Harvester)
    → is_reading h.task ≡ true
    → IsSettled h
    → IsSettled (handle_line blind now t h)
unfolding handle_line record_unparsed deliver is_reading
handle_line-IsSettled blind now [] h k u = u
handle_line-IsSettled blind now (c ∷ t) h k u = elim (Option-cases (parse_line blind now (c ∷ t))) [
  | inl p ↦ ground arith
  | inr (event, p) ↦ ground arith
]

module _ (blind : Bool) where
  iterate-IsSettled :
      (now : ℕ) (result : Reading) (h : Harvester)
      → is_reading h.task ≡ true
      → IsSettled h
      → IsSettled (iterate blind now result h)
  unfolding iterate
  iterate-IsSettled now (line t) h k u = ground (
    arith,
    handle_line-IsSettled blind now (strip t) h k u,
    finish-IsSettled HarvestState.timeout h,
    finish-IsSettled HarvestState.stopped h,
  )
  iterate-IsSettled now timed_out h k u =
      ground
        (arith, finish-IsSettled HarvestState.timeout h, finish-IsSettled HarvestState.stopped h)
  iterate-IsSettled now eof h k u = ground (
    arith,
    finish-IsSettled HarvestState.timeout h,
    finish-IsSettled HarvestState.stopped h,
    finish-IsSettled HarvestState.clean_eof h,
  )
  iterate-IsSettled now (fails exc) h k u = ground (
    arith,
    finish-IsSettled HarvestState.timeout h,
    finish-IsSettled HarvestState.stopped h,
    finish-IsSettled HarvestState.error (record h { error = some exc }),
  )

  turn-IsSettled : (t : Turn) (h : Harvester) → IsSettled h → IsSettled (turn blind t h)
  unfolding turn arm_event_signal extend_deadline stop cancel
  turn-IsSettled (iteration now r) h u = ground (arith, iterate-IsSettled now r h)
  turn-IsSettled cancelled h u =
      ground
        (arith, finish-IsSettled HarvestState.stopped (record h { state = HarvestState.stopped }))
  turn-IsSettled stop_call h u = ground arith
  turn-IsSettled arm_call h u = ground arith
  turn-IsSettled (extend_call now s) h u = ground arith

  turns-IsSettled : (ts : List Turn) (h : Harvester) → IsSettled h → IsSettled (turns blind ts h)
  unfolding turns
  turns-IsSettled [] h u = u
  turns-IsSettled (t ∷ ts) h u = turns-IsSettled ts (turn blind t h) (turn-IsSettled t h u)

  -- Whatever the loop reads and whenever, if it is over and its state counts as healthy then a call of
  -- `stop` or a cancellation came before: a monitor that dies, a deadline that passes and a read that
  -- fails each end in another state.
  pub healthy_end-asked :
      (ts : List Turn) (now seconds : ℕ) (h : Harvester)
      → (turns blind ts (start now seconds h)).task ≡ ended
      → is_healthy (turns blind ts (start now seconds h)).state ≡ true
      → any asks ts ≡ true
  unfolding start is_healthy
  healthy_end-asked ts now seconds h over healthy = elim (Bool-cases (any asks ts)) [
    | inl e ↦ e
    | inr e ↦ ground (
      arith,
      turns-IsSettled ts (start now seconds h) refl,
      turns-IsUnasked blind ts (start now seconds h) e (ground arith),
    )
  ]
