-- ===== src/Pipeline/Progress/Consumed.antt =====
-- A run whose queue somebody empties.
use network_sandbox_engine.Prelude.{Text, Bool, true, false, none, List, ◌≡◌, ◌≢◌, refl}
use network_sandbox_engine.Models.{TraceEvent}
use network_sandbox_engine.Models.Request.{TestRequest}
use network_sandbox_engine.Harvester.Loop.{
  Harvester, Queue, Task, idle, reading, event_waits, sentinel_waits, ended, Turn, turns, finish,
  cancel, stop, has_room, aclose, after_cancel,
}
use network_sandbox_engine.Harvester.Loop.Queueing.{Kept, Holds, turns-Holds}
use network_sandbox_engine.Pipeline.Env.{Env}
use network_sandbox_engine.Pipeline.Run.{
  PipelineEnd, returned, raised, hangs, new_machine, run_test_pipeline,
}
use network_sandbox_engine.Pipeline.Progress.{Law, Law-Kept}
use network_sandbox_engine.Pipeline.Progress.Whole.{AtEnd, run-AtEnd}

-- the loop waits for nobody
abbrev flows : Task → Bool
flows event_waits = false
flows sentinel_waits = false
flows _ = true

abbrev Flowing : Task → Queue → List TraceEvent → Type 0
Flowing t q d = (q.consumed ≡ true) × (flows t ≡ true)

consumed-has_room : (q : Queue) → q.consumed ≡ true → has_room q ≡ true
unfolding has_room
consumed-has_room q e = rw e refl

Kept-Flowing : Kept Flowing
Kept-Flowing = record {
  sends = λ t q d e (c, f) p. (c, f);
  ends = λ t q d (c, f) p. (c, f);
  event_blocks = λ t q d (c, f) p. absurd (cc (p, consumed-has_room q c));
  sentinel_blocks = λ t q d (c, f) p. absurd (cc (p, consumed-has_room q c));
  reads = λ t q d (c, f). (c, refl);
  is_over = λ t q d (c, f). (c, refl);
}

-- A cancelled loop that waits for nobody is over, so `aclose` ends.
after_cancel-ends :
    (h : Harvester) → Holds Flowing h → h.task ≡ reading → after_cancel (cancel h) ≢ none
unfolding after_cancel cancel finish
after_cancel-ends h (c, f) e n =
    absurd (cc (rw (e, cancel, finish, consumed-has_room h.queue c, after_cancel) at n))

aclose-ends :
    (blind : Bool) (ts : List Turn) (h : Harvester) → Holds Flowing h → aclose blind ts h ≢ none
unfolding aclose stop
aclose-ends blind ts h i n = go last.task refl
  where
    last : Harvester
    last = turns blind ts (stop h)

    held : Holds Flowing last
    held = turns-Holds Kept-Flowing blind ts (stop h) i

    go : (t : Task) → last.task ≡ t → ⊥
    go idle q = absurd (cc (rw (q, aclose) at n))
    go ended q = absurd (cc (rw (q, aclose) at n))
    go reading q = after_cancel-ends last held q (rw (q, aclose) at n)
    go event_waits q = absurd (cc (rw q at held.1))
    go sentinel_waits q = absurd (cc (rw q at held.1))

Law-Flowing : Law (Holds Flowing) ⊥
Law-Flowing =
    Law-Kept Kept-Flowing (λ t q d (c, f) p. absurd (cc (p, consumed-has_room q c))) aclose-ends

-- Where somebody takes the items of the queue, a run ends, with its events or with the exception of its
-- teardown: whatever the other components do, however many events there are and wherever an exception
-- is raised, neither the read loop nor the pipeline waits forever.
pub run_test_pipeline-ends :
    (env : Env) (req : TestRequest) (test_id : Text) (q : Queue)
    → q.consumed ≡ true
    → (run_test_pipeline env req (new_machine test_id q)).0 ≢ hangs
run_test_pipeline-ends env req test_id q c e =
    go _ e (run-AtEnd Law-Flowing env req (new_machine test_id q) (c, refl))
  where
    go :
        (r : PipelineEnd)
        → r ≡ hangs
        → AtEnd Law-Flowing env r (run_test_pipeline env req (new_machine test_id q)).1
        → ⊥
    go hangs e i = i
    go (returned es) e i = absurd (cc)
    go (raised x) e i = absurd (cc)
