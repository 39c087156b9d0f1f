-- ===== src/Harvester/Loop/Accounting.antt =====
-- What becomes of the lines that the loop reads in time.
use network_sandbox_engine.Prelude.{
  ℕ, ◌+◌, ◌<◌, Text, strip, Bool, true, false, not, ◌&&◌, Option, none, some, List, [], ◌∷◌, ◌++◌,
  map, length, keep, collect, All, append-nil, append_assoc, ◌≡◌, refl, arith, Option-cases, inl,
  inr, if◌then◌else◌, ◌∙◌,
}
use network_sandbox_engine.Models.{TraceEvent}
use network_sandbox_engine.Harvester.Parser.{parse_line, is_trace_line}
use network_sandbox_engine.Harvester.Loop.{
  Harvester, Turn, iteration, line, turn, turns, iterate, handle_line, record_unparsed, deliver,
  has_room, is_reading,
}

-- A line that `readline` returns, with the time of the read.
abbrev pub Stamped : Type 0
Stamped = ℕ × Text

abbrev pub reads : List Stamped → List Turn
reads = map (λ (x : Stamped). iteration x.0 (line x.1))

abbrev pub is_blank : Text → Bool
is_blank [] = true
is_blank (c ∷ t) = false

module _ (blind : Bool) where
  abbrev pub parsed : Stamped → Option TraceEvent
  parsed x = if is_blank (strip x.1) then none else parse_line blind x.0 (strip x.1)

  abbrev is_lost : Stamped → Bool
  is_lost x =
      not (is_blank (strip x.1))
      && elim (parse_line blind x.0 (strip x.1)) [ none ↦ true | some _ ↦ false ]

  -- A line of the trace that no pattern matches.
  abbrev pub is_blind_spot : Stamped → Bool
  is_blind_spot x = is_lost x && is_trace_line (strip x.1)

  -- A line that is no trace output.
  abbrev pub is_noise : Stamped → Bool
  is_noise x = is_lost x && not (is_trace_line (strip x.1))

abbrev pub is_full : Stamped → Bool
is_full x = not (is_blank (strip x.1))

-- A loop that is at work on a queue that somebody empties.
pub record IsOpen (h : Harvester) : Type 0 where
  pub works : is_reading h.task ≡ true
  pub consumed : h.queue.consumed ≡ true

-- How the loop has moved from `h` to `h'` by what it read.
pub record Accounts (blind : Bool) (ls : List Stamped) (h h' : Harvester) : Type 0 where
  pub open_still : IsOpen h'
  pub delivered : h'.delivered ≡ h.delivered ++ collect (parsed blind) ls
  pub queued : h'.queue.items ≡ h.queue.items ++ map some (collect (parsed blind) ls)
  pub blind_spots :
      h'.unparsed_trace_lines ≡ h.unparsed_trace_lines + length (keep (is_blind_spot blind) ls)
  pub noise : h'.unparsed_other_lines ≡ h.unparsed_other_lines + length (keep (is_noise blind) ls)
  pub same_state : h'.state ≡ h.state
  pub same_deadline : h'.deadline ≡ h.deadline

handle_line-Accounts :
    (blind : Bool) (now : ℕ) (l t : Text) (h : Harvester)
    → strip l ≡ t
    → IsOpen h
    → Accounts blind ((now, l) ∷ []) h (handle_line blind now t h)
unfolding handle_line record_unparsed deliver has_room
handle_line-Accounts blind now l [] h e k =
    ground (arith, append-nil h.delivered, append-nil h.queue.items)
handle_line-Accounts blind now l (c ∷ t) h e k =
    elim (Option-cases (parse_line blind now (c ∷ t))) [
      | inl p ↦ ground (arith, append-nil h.delivered, append-nil h.queue.items)
      | inr (event, p) ↦ ground arith
    ]

abbrev pub InTime : Harvester → List Stamped → Type 0
InTime h = All (λ (x : Stamped). x.0 < h.deadline)

pub turn-Accounts :
    (blind : Bool) (x : Stamped) (h : Harvester)
    → IsOpen h
    → x.0 < h.deadline
    → Accounts blind (x ∷ []) h (turn blind (iteration x.0 (line x.1)) h)
unfolding turn iterate
turn-Accounts blind x h k early =
    ground (arith, handle_line-Accounts blind x.0 x.1 (strip x.1) h refl k)

pub Accounts-cons :
    (blind : Bool) (x : Stamped) (ls : List Stamped) (h h' h'' : Harvester)
    → Accounts blind (x ∷ []) h h'
    → Accounts blind ls h' h''
    → Accounts blind (x ∷ ls) h h''
Accounts-cons blind x ls h h' h'' a b = record {
  open_still = b.open_still;
  delivered = ground (
    arith,
    a.delivered,
    b.delivered,
    append_assoc h.delivered (collect (parsed blind) (x ∷ [])) (collect (parsed blind) ls),
  );
  queued = ground (
    arith,
    a.queued,
    b.queued,
    append_assoc h.queue.items (map some (collect (parsed blind) (x ∷ [])))
        (map some (collect (parsed blind) ls)),
  );
  blind_spots = ground (arith, a.blind_spots, b.blind_spots);
  noise = ground (arith, a.noise, b.noise);
  same_state = b.same_state ∙ a.same_state;
  same_deadline = b.same_deadline ∙ a.same_deadline;
}

-- While the loop is at work, its queue is emptied, and every read comes before the deadline, each
-- line that parses is queued and given to the callback once, in order, each line of the trace that
-- does not parse is counted as a blind spot, each other line that does not parse as noise, and the
-- loop stays at work.
pub turns-Accounts :
    (blind : Bool) (ls : List Stamped) (h : Harvester)
    → IsOpen h
    → InTime h ls
    → Accounts blind ls h (turns blind (reads ls) h)
unfolding turns
turns-Accounts blind [] h k early = ground (arith, append-nil h.delivered, append-nil h.queue.items)
turns-Accounts blind (x ∷ ls) h k (early, rest) =
    let h' = turn blind (iteration x.0 (line x.1)) h in
    let a : Accounts blind (x ∷ []) h h' = turn-Accounts blind x h k early in
    Accounts-cons blind x ls h h' _ a
      (turns-Accounts blind ls h' a.open_still (rw a.same_deadline rest))

-- Every line that is not blank is an event, a blind spot or noise, and only one of them.
pub reads-length :
    (blind : Bool) (ls : List Stamped)
    → length (collect (parsed blind) ls)
        + length (keep (is_blind_spot blind) ls)
        + length (keep (is_noise blind) ls)
      ≡ length (keep is_full ls)
reads-length blind [] = refl
reads-length blind (x ∷ ls) = ground (arith, reads-length blind ls)
