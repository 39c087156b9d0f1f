-- ===== src/Engine/Suite.antt =====
-- The suite runner of nse/cli/runner.py over the runs of the engine.
mod Tests
use network_sandbox_engine.Prelude.{
  ℕ, suc, Text, contains, any, Bool, true, false, Bool-cases, List, [], ◌∷◌, ◌≡◌, refl, arith, inl,
  inr,
}
use network_sandbox_engine.Models.{TraceEvent, is_error}
use network_sandbox_engine.Models.Request.{TestRequest}
use network_sandbox_engine.Shell.{System}
use network_sandbox_engine.Harvester.Loop.{Queue}
use network_sandbox_engine.Pipeline.Env.{Env}
use network_sandbox_engine.Pipeline.Machine.{Machine}
use network_sandbox_engine.Pipeline.Run.{PipelineEnd, new_machine}
use network_sandbox_engine.Runner.Verdicts.{reduce_verdicts}
use network_sandbox_engine.Runner.Verdicts.Errors.{collect_oracle_errors-any}
use network_sandbox_engine.Runner.Suite.Value.{Value}
use network_sandbox_engine.Runner.Suite.Build.{ok, Conversions, build_case}
use network_sandbox_engine.Runner.Suite.Run.{Ran, run_suite, exit_of}
use network_sandbox_engine.Runner.Suite.Run.Laws.{Passes, AllPass, run_suite-exit_zero_iff}
use network_sandbox_engine.Engine.Calls.{Site}
use network_sandbox_engine.Engine.{run_test_pipeline}
use network_sandbox_engine.Engine.EndToEnd.{Exercised, run_test_pipeline-Exercised}

-- What the run of a case is given: the machine, its settings, and the id, the queue and the system with
-- which it starts.
pub record Session : Type 0 where
  pub site : Site
  pub env : Env
  pub test_id : Text
  pub queue : Queue
  pub system : System

abbrev pub machine_of : Session → Machine
machine_of s = new_machine s.test_id s.queue

abbrev pub run_of : Session → TestRequest → PipelineEnd × Machine × System
run_of s request = run_test_pipeline s.site s.env request (machine_of s) s.system

module _ (c : Conversions) (sessions : ℕ → Session) (pipeline : ℕ → TestRequest → Ran) where
  -- Events that the runner is given for case `k` are those that a run of the engine returned, and the id
  -- of that run is none of a canary.
  abbrev pub Performs : ℕ → Value → Type 0
  Performs k raw =
      (name : Text) (request : TestRequest) (expected : List Text) (events : List TraceEvent)
      → build_case c raw k ≡ ok (name, request, expected)
      → pipeline k request ≡ Ran.returned events
      → let run = run_of (sessions k) request in
        (run.0 ≡ PipelineEnd.returned events)
        × (contains run.1.test_id run.1.canary_trace_ids ≡ false)

  abbrev pub AllPerform : ℕ → List Value → Type 0
  AllPerform k [] = Unit
  AllPerform k (raw ∷ cases) = Performs k raw × AllPerform (suc k) cases

  -- Case `k` was exercised on the machine, and the verdicts of the events that its run returned are the
  -- expected ones.
  pub record Holds (k : ℕ) (raw : Value) : Type 0 where
    pub name : Text
    pub request : TestRequest
    pub expected : List Text
    pub events : List TraceEvent
    pub built : build_case c raw k ≡ ok (name, request, expected)
    pub ran : (run_of (sessions k) request).0 ≡ PipelineEnd.returned events
    pub exercised :
        Exercised
          (sessions k).site
          request
          (sessions k).env
          (machine_of (sessions k))
          (sessions k).system
    pub observed : reduce_verdicts events ≡ expected

  abbrev pub AllHold : ℕ → List Value → Type 0
  AllHold k [] = Unit
  AllHold k (raw ∷ cases) = Holds k raw × AllHold (suc k) cases

  Passes-Holds : (k : ℕ) (raw : Value) → Performs k raw → Passes c pipeline k raw → Holds k raw
  Passes-Holds k raw performs p =
      let s = sessions k in
      let (ran, unmistaken) = performs p.name p.request p.expected p.events p.built p.ran in
      record {
        name = p.name;
        request = p.request;
        expected = p.expected;
        events = p.events;
        built = p.built;
        ran = ran;
        exercised =
            run_test_pipeline-Exercised s.site p.request s.env (machine_of s) s.system p.events ran
              unmistaken (collect_oracle_errors-any p.events p.no_error);
        observed = p.observed;
      }

  all-Hold :
      (k : ℕ) (cases : List Value)
      → AllPerform k cases
      → AllPass c pipeline k cases
      → AllHold k cases
  all-Hold k [] f h = tt
  all-Hold k (raw ∷ cases) (f, fs) (p, h) = (Passes-Holds k raw f p, all-Hold (suc k) cases fs h)

  -- A suite that ends with the status 0 has exercised each of its cases on the machine: the topology
  -- was created, the rules were loaded behind the tracing table, each packet with a destination has
  -- left, both canaries were seen, and the verdicts of the returned events are those that the case
  -- expects; where the runner is given the events of the engine's runs, and no canary has a run's id.
  pub run_suite-AllHold :
      (cases : List Value)
      → AllPerform 0 cases
      → exit_of (run_suite c pipeline cases) ≡ 0
      → AllHold 0 cases
  run_suite-AllHold cases f h = all-Hold 0 cases f ((run_suite-exit_zero_iff c pipeline cases).0 h)
