-- ===== src/Pipeline/Run/Flags.antt =====
-- A failure of the instrument leaves an error event that the caller is given.
use network_sandbox_engine.Prelude.{
  Text, text_eq, text_eq_iff, text_eq_refl, contains, given, ◌&&◌, ◌||◌, Bool, true, false, Option,
  none, some, List, [], ◌∷◌, ◌++◌, ◌≡◌, refl, arith, any, keep, Bool-cases, Option-cases, inl, inr,
}
use network_sandbox_engine.Models.{TraceEvent, is_error}
use network_sandbox_engine.Harvester.Loop.{has_room}
use network_sandbox_engine.Pipeline.Canary.{is_reported, without_canaries}
use network_sandbox_engine.Pipeline.Machine.{
  Machine, put_or_wait, emit_event, error_event, fail_with, emit_oracle_error, collected_events,
}
use network_sandbox_engine.Pipeline.Run.Frame.{Later}

-- An error event of the run itself.
abbrev pub is_flag : Text → TraceEvent → Bool
is_flag id e = is_error e && elim e.trace_id [ none ↦ false | some t ↦ text_eq t id ]

abbrev pub IsFlagged : Machine → Type 0
IsFlagged m = any (is_flag m.test_id) (collected_events m) ≡ true

any-append :
    (p : TraceEvent → Bool) (xs ys : List TraceEvent) → any p (xs ++ ys) ≡ (any p xs || any p ys)
any-append p [] ys = refl
any-append p (x ∷ xs) ys = ground (arith, any-append p xs ys)

pub Later-IsFlagged : (m m' : Machine) → Later m m' → IsFlagged m → IsFlagged m'
Later-IsFlagged m m' l f =
    rw
      (
        l.same_id,
        l.grown.appended,
        any-append (is_flag m.test_id) (collected_events m) l.grown.added,
        f,
      )
      refl

put-collected :
    (o : Option TraceEvent) (m : Machine)
    → (collected_events (put_or_wait o m).1 ≡ collected_events m)
      × ((put_or_wait o m).1.test_id ≡ m.test_id)
put-collected o m = ground arith

pub fail_with-IsFlagged : (raw : Text) (m : Machine) → IsFlagged (fail_with raw m).1
unfolding fail_with emit_event error_event
fail_with-IsFlagged raw m = elim (Bool-cases (has_room m.harvester.queue)) [
  | inl p ↦ ground (
    arith,
    text_eq_refl m.test_id,
    any-append (is_flag m.test_id) (collected_events m) (error_event m.test_id raw ∷ []),
  )
  | inr p ↦ ground (
    arith,
    text_eq_refl m.test_id,
    any-append (is_flag m.test_id) (collected_events m) (error_event m.test_id raw ∷ []),
  )
]

pub oracle_error-IsFlagged :
    (message : Text) (m : Machine) → IsFlagged (emit_oracle_error message m).1
unfolding emit_oracle_error
oracle_error-IsFlagged message m = fail_with-IsFlagged _ m

any-is_error :
    (id : Text) (es : List TraceEvent) → any (is_flag id) es ≡ true → any is_error es ≡ true
any-is_error id [] f = f
any-is_error id (e ∷ es) f = ground (arith, any-is_error id es)

-- A flagged event is not dropped.
is_flag-is_reported :
    (id : Text) (canaries : List Text) (e : TraceEvent)
    → contains id canaries ≡ false
    → is_flag id e ≡ true
    → is_reported canaries e ≡ true
unfolding given
is_flag-is_reported id canaries e c f = elim (Option-cases e.trace_id) [
  | inl p ↦ ground arith
  | inr (t, p) ↦ go t p
]
  where
    go : (t : Text) → e.trace_id ≡ some t → is_reported canaries e ≡ true
    go [] p = ground arith
    go (x ∷ t) p = ground (arith, text_eq_iff (x ∷ t) id)

reported :
    (id : Text) (canaries : List Text) (es : List TraceEvent)
    → contains id canaries ≡ false
    → any (is_flag id) es ≡ true
    → any is_error (keep (is_reported canaries) es) ≡ true
reported id canaries [] c f = absurd (cc)
reported id canaries (e ∷ es) c f =
    ground (arith, reported id canaries es c, is_flag-is_reported id canaries e c)

-- The error event of a run is among the events that it returns, unless the id of the run is that of
-- a canary.
pub without_canaries-flag :
    (id : Text) (canaries : List Text) (es : List TraceEvent)
    → contains id canaries ≡ false
    → any (is_flag id) es ≡ true
    → any is_error (without_canaries es canaries) ≡ true
unfolding without_canaries
without_canaries-flag id [] es c f = any-is_error id es f
without_canaries-flag id (x ∷ canaries) es c f = reported id (x ∷ canaries) es c f
