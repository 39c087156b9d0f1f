-- ===== src/Pipeline/Progress/Bounded.antt =====
-- A run whose queue nobody empties, as the command line runner calls it.
use network_sandbox_engine.Prelude.{
  ℕ, ◌≤◌, Text, Bool, true, false, Option, none, some, List, [], ◌∷◌, ◌++◌, ◌≡◌, refl, sym, ◌∙◌,
  arith, length, length-append, keep, subst,
}
use network_sandbox_engine.Models.{TraceEvent}
use network_sandbox_engine.Models.Request.{TestRequest}
use network_sandbox_engine.Harvester.Loop.{Queue, Task, has_room}
use network_sandbox_engine.Harvester.Loop.Queueing.{Kept, Holds}
use network_sandbox_engine.Pipeline.Canary.{without_canaries, is_reported}
use network_sandbox_engine.Pipeline.Env.{Env}
use network_sandbox_engine.Pipeline.Machine.{Machine, collected_events}
use network_sandbox_engine.Pipeline.Run.{
  PipelineEnd, returned, raised, hangs, new_machine, run_test_pipeline,
}
use network_sandbox_engine.Pipeline.Progress.{Law, Law-Kept}
use network_sandbox_engine.Pipeline.Progress.Whole.{AtEnd, run-AtEnd}

-- the queue has room for what it holds, and each event that was delivered is in it
record Fits (c : ℕ) (q : Queue) (d : List TraceEvent) : Type 0 where
  unread : q.consumed ≡ false
  capacity : q.capacity ≡ c
  delivered : length d ≤ length q.items
  bounded : length q.items ≤ c

module _ (c : ℕ) where
  abbrev Fitting : Task → Queue → List TraceEvent → Type 0
  Fitting t q d = Fits c q d

  put-bounded :
      (x : Option TraceEvent) (q : Queue) (d : List TraceEvent)
      → Fits c q d
      → has_room q ≡ true
      → length (q.items ++ x ∷ []) ≤ c
  unfolding has_room
  put-bounded x q d f p =
      ground (arith, length-append q.items (x ∷ []), f.unread, f.capacity, f.bounded)

  Kept-Fitting : Kept Fitting
  Kept-Fitting = record {
    sends = λ t q d e f p. record {
      unread = f.unread;
      capacity = f.capacity;
      delivered =
          omega (arith, f.delivered, length-append d (e ∷ []), length-append q.items (some e ∷ []));
      bounded = put-bounded (some e) q d f p;
    };
    ends = λ t q d f p. record {
      unread = f.unread;
      capacity = f.capacity;
      delivered = omega (arith, f.delivered, length-append q.items (none ∷ []));
      bounded = put-bounded none q d f p;
    };
    event_blocks = λ t q d f p. f;
    sentinel_blocks = λ t q d f p. f;
    reads = λ t q d f. f;
    is_over = λ t q d f. f;
  }

  Law-Fitting : Law (Holds Fitting) Unit
  Law-Fitting = Law-Kept Kept-Fitting (λ t q d f p. tt) (λ blind ts h f e. tt)

length-keep : (p : TraceEvent → Bool) (es : List TraceEvent) → length (keep p es) ≤ length es
length-keep p [] = omega arith
length-keep p (e ∷ es) = ground (arith, length-keep p es)

length-without_canaries :
    (es : List TraceEvent) (canaries : List Text)
    → length (without_canaries es canaries) ≤ length es
unfolding without_canaries
length-without_canaries es [] = omega arith
length-without_canaries es (c ∷ canaries) = length-keep (is_reported (c ∷ canaries)) es

returned-injective : {a b : List TraceEvent} → returned a ≡ returned b → a ≡ b
returned-injective e = cc

-- Where nobody takes the items of the queue, a run that returns gives at most as many events as the
-- queue has room for: a run with more of them does not return.
pub returned-bounded :
    (env : Env) (req : TestRequest) (test_id : Text) (c : ℕ) (es : List TraceEvent)
    → (run_test_pipeline env req
        (new_machine test_id (record { items = []; capacity = c; consumed = false }))).0
      ≡ returned es
    → length es ≤ c
returned-bounded env req test_id c es e = go _ e (
    run-AtEnd (Law-Fitting c) env req _
      (record { unread = refl; capacity = refl; delivered = omega arith; bounded = omega arith }))
  where
    end : Machine
    end =
        (run_test_pipeline env req
          (new_machine test_id (record { items = []; capacity = c; consumed = false }))).1

    go : (r : PipelineEnd) → r ≡ returned es → AtEnd (Law-Fitting c) env r end → length es ≤ c
    go hangs q i = absurd (cc)
    go (returned es') q (eq, f) =
        subst (λ l. length l ≤ c) (sym eq ∙ returned-injective q)
          (omega (
            arith,
            length-without_canaries (collected_events end) end.canary_trace_ids,
            f.delivered,
            f.bounded,
          ))
    go (raised x) q i = absurd (cc)
