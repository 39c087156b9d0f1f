-- ===== src/Pipeline/Run/Injections.antt =====
-- Step 6 of `run_test_pipeline` of nse/core/pipeline.py, where each injection extends the deadline of the
-- read loop in time.
use network_sandbox_engine.Prelude.{
  ℕ, suc, ◌+◌, ◌<◌, ◌≤◌, Bool, true, false, none, List, [], ◌∷◌, ◌++◌, length, keep, collect, All,
  append-nil, append_assoc, ◌≡◌, refl, sym, ◌∙◌, subst, length-append, collect-append, keep-append,
  arith,
}
use network_sandbox_engine.Models.Request.{PacketSpec}
use network_sandbox_engine.Harvester.Loop.{
  Harvester, Reading, line, timed_out, eof, fails, turns, iteration, turn, iterate, extend_deadline,
}
use network_sandbox_engine.Harvester.Loop.Accounting.{
  Stamped, parsed, is_blind_spot, IsOpen, Accounts, turn-Accounts, Accounts-cons,
}
use network_sandbox_engine.Pipeline.Canary.{Injection}
use network_sandbox_engine.Pipeline.Env.{Env}
use network_sandbox_engine.Pipeline.Machine.{Machine, next, Reads, loop_turns, await_reads}
use network_sandbox_engine.Pipeline.Stages.{inject_packet, inject_packets}

-- the lines among the reads
abbrev pub lines : Reads → List Stamped
lines [] = []
lines ((now, line t) ∷ rs) = (now, t) ∷ lines rs
lines ((now, timed_out) ∷ rs) = lines rs
lines ((now, eof) ∷ rs) = lines rs
lines ((now, fails e) ∷ rs) = lines rs

-- A read that ends nothing.
abbrev is_harmless : Reading → Bool
is_harmless (line t) = true
is_harmless timed_out = true
is_harmless eof = false
is_harmless (fails e) = false

abbrev pub Before : ℕ → Reads → Type 0
Before limit = All (λ (x : ℕ × Reading). (is_harmless x.1 ≡ true) × (x.0 < limit))

turn-timed_out :
    (blind : Bool) (now : ℕ) (h : Harvester)
    → IsOpen h
    → now < h.deadline
    → turn blind (iteration now timed_out) h ≡ h
unfolding turn iterate
turn-timed_out blind now h o early = let w = o.works in ground arith

reads-Accounts :
    (blind : Bool) (rs : Reads) (h : Harvester)
    → IsOpen h
    → Before h.deadline rs
    → Accounts blind (lines rs) h (turns blind (loop_turns rs) h)
unfolding turns
reads-Accounts blind [] h o b = ground (arith, append-nil h.delivered, append-nil h.queue.items)
reads-Accounts blind ((now, line t) ∷ rs) h o ((_, early), b) =
    let h' = turn blind (iteration now (line t)) h in
    let a : Accounts blind ((now, t) ∷ []) h h' = turn-Accounts blind (now, t) h o early in
    Accounts-cons blind (now, t) (lines rs) h h' _ a
      (reads-Accounts blind rs h' a.open_still (rw a.same_deadline b))
reads-Accounts blind ((now, timed_out) ∷ rs) h o ((_, early), b) =
    subst (λ h'. Accounts blind (lines rs) h (turns blind (loop_turns rs) h'))
      (sym (turn-timed_out blind now h o early)) (reads-Accounts blind rs h o b)
reads-Accounts blind ((now, eof) ∷ rs) h o ((e, early), b) = absurd (cc)
reads-Accounts blind ((now, fails x) ∷ rs) h o ((e, early), b) = absurd (cc)

-- What the loop has done with lines, in whatever time.
pub record Observes (blind : Bool) (ls : List Stamped) (h h' : Harvester) : Type 0 where
  pub open_still : IsOpen h'
  pub delivered : h'.delivered ≡ h.delivered ++ collect (parsed blind) ls
  pub blind_spots :
      h'.unparsed_trace_lines ≡ h.unparsed_trace_lines + length (keep (is_blind_spot blind) ls)
  pub same_state : h'.state ≡ h.state

Observes-append :
    (blind : Bool) (ks ls : List Stamped) (h h' h'' : Harvester)
    → Observes blind ks h h'
    → Observes blind ls h' h''
    → Observes blind (ks ++ ls) h h''
Observes-append blind ks ls h h' h'' a b = record {
  open_still = b.open_still;
  delivered = ground (
    arith,
    a.delivered,
    b.delivered,
    collect-append (parsed blind) ks ls,
    append_assoc h.delivered (collect (parsed blind) ks) (collect (parsed blind) ls),
  );
  blind_spots = ground (
    arith,
    a.blind_spots,
    b.blind_spots,
    keep-append (is_blind_spot blind) ks ls,
    length-append (keep (is_blind_spot blind) ks) (keep (is_blind_spot blind) ls),
  );
  same_state = b.same_state ∙ a.same_state;
}

module _ (env : Env) where
  -- An injection that succeeds, with reads from the extension of the deadline, which comes before it, to
  -- the next one that come within the idle timeout of that extension.
  pub record InTime (i : Injection) : Type 0 where
    pub succeeds : i.raised ≡ none
    pub window : Before (i.now + env.idle_timeout) i.reads

  abbrev pub AllInTime : ℕ → List PacketSpec → Type 0
  AllInTime k [] = Unit
  AllInTime k (p ∷ ps) = InTime (env.packet k) × AllInTime (suc k) ps

  -- the lines that are read from each extension of the deadline to the next, from the `k`-th on
  abbrev pub lines_from : ℕ → List PacketSpec → List Stamped
  lines_from k [] = []
  lines_from k (p ∷ ps) = lines (env.packet k).reads ++ lines_from (suc k) ps

  Before-later : (a b : ℕ) (rs : Reads) → a ≤ b → Before a rs → Before b rs
  Before-later a b [] le h = tt
  Before-later a b (r ∷ rs) le ((e, lt), h) = ((e, omega arith), Before-later a b rs le h)

  injected-Observes :
      (i : Injection) (m : Machine)
      → InTime i
      → IsOpen m.harvester
      → ((inject_packet env i m).0 ≡ next tt)
        × Observes env.blind (lines i.reads) m.harvester (inject_packet env i m).1.harvester
  unfolding inject_packet await_reads extend_deadline
  injected-Observes i m t o =
      let h = extend_deadline i.now env.idle_timeout m.harvester in
      let a =
        reads-Accounts env.blind i.reads h (record { works = o.works; consumed = o.consumed })
          (Before-later (i.now + env.idle_timeout) h.deadline i.reads (ground arith) t.window) in
      rw t.succeeds (
        refl,
        record {
          open_still = a.open_still;
          delivered = a.delivered;
          blind_spots = a.blind_spots;
          same_state = a.same_state;
        },
      )

  -- However many packets there are: where each injection succeeds, and each read from the extension of the
  -- deadline, which comes before the injection, to the next extension, or to the end of the step, comes
  -- before the idle timeout has passed since that extension and returns a line or nothing, step 6 ends
  -- normally, and the loop, which was at work on a queue that is emptied, is still at work, in the same
  -- state, has given each line that parses to the callback, in order, and has counted each line of the
  -- trace that does not parse.
  pub inject_packets-Observes :
      (ps : List PacketSpec) (k : ℕ) (m : Machine)
      → AllInTime k ps
      → IsOpen m.harvester
      → ((inject_packets env k ps m).0 ≡ next tt)
        × Observes env.blind (lines_from k ps) m.harvester (inject_packets env k ps m).1.harvester
  unfolding inject_packets
  inject_packets-Observes [] k m t o = (refl, ground (arith, append-nil m.harvester.delivered))
  inject_packets-Observes (p ∷ ps) k m (t, ts) o =
      let (e, a) = injected-Observes (env.packet k) m t o in
      let m' = (inject_packet env (env.packet k) m).1 in
      let (e', b) = inject_packets-Observes ps (suc k) m' ts a.open_still in
      rw e (
        e',
        Observes-append env.blind (lines (env.packet k).reads) (lines_from (suc k) ps) m.harvester
            m'.harvester _ a b,
      )
