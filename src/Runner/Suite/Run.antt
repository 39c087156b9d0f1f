-- ===== src/Runner/Suite/Run.antt =====
-- `load_suite`, `run_suite` and the exit status of nse/cli/runner.py. The pipeline is an argument:
-- what it does with the request of each case.
pub mod Laws
use network_sandbox_engine.Prelude.{
  ℕ, suc, ◌+◌, Text, codes, decimal, Bool, true, false, Option, none, some, List, [], ◌∷◌, ◌++◌,
  if◌then◌else◌,
}
use network_sandbox_engine.Exceptions.{Exception, is_pipeline_crash, message}
use network_sandbox_engine.Models.{TraceEvent}
use network_sandbox_engine.Models.Request.{TestRequest}
use network_sandbox_engine.Runner.Case.{
  CaseOutcome, SuiteOutcome, Line, invalid_entry, pipeline_crashed, evaluate_case, record_case,
  exit_code,
}
use network_sandbox_engine.Runner.Suite.Error.{
  SuiteConfigError, no_suite_mapping, no_cases, cases_not_a_list,
}
use network_sandbox_engine.Runner.Suite.Value.{
  Value, null, mapping, sequence, elements, get_or, is_truthy,
}
use network_sandbox_engine.Runner.Suite.Build.{
  Built, ok, config_error, raised, Conversions, build_case,
}

-- How a run of the pipeline ends.
pub data Ran : Type 0 where
  returned : List TraceEvent → Ran
  crashed : Exception → Ran

-- What follows the parser in `load_suite`, on the value that it returned.
load_cases : Value → Built (List Value)
load_cases (sequence items) = ok (elements items)
load_cases _ = config_error cases_not_a_list

unfoldable pub load_suite : Value → Built (List Value)
unfolding load_cases
load_suite (mapping fs) =
    let cases = get_or (codes "tests") fs null in
    if is_truthy cases then load_cases cases else config_error no_cases
load_suite _ = config_error no_suite_mapping

-- the end of a suite: its counts, or an exception that nobody catches
pub data SuiteEnd : Type 0 where
  finished : SuiteOutcome → SuiteEnd
  uncaught : Exception → SuiteEnd

-- The status with which the process ends; Python ends with 1 on an uncaught exception.
unfoldable pub exit_of : SuiteEnd → ℕ
exit_of (finished outcome) = exit_code outcome
exit_of (uncaught _) = 1

abbrev pub no_counts : SuiteOutcome
no_counts = record { passed = 0; failed = 0; oracle_errors = 0 }

-- the end of one round of the loop of `run_suite`
pub data CaseEnd : Type 0 where
  recorded : CaseOutcome → CaseEnd
  stopped : Exception → CaseEnd

module _ (c : Conversions) (pipeline : ℕ → TestRequest → Ran) where
  -- the outcome of one case, or the exception that leaves the loop
  case_outcome : ℕ → Value → CaseEnd
  case_outcome index raw = elim (build_case c raw index) [
    | config_error e ↦ recorded (record {
      name = codes "case " ++ decimal (index + 1);
      passed = false;
      oracle_error = false;
      lines = invalid_entry e ∷ [];
    })
    | raised exc ↦ stopped exc
    | ok (name, request, expected) ↦ elim (pipeline index request) [
      | returned events ↦ recorded (evaluate_case name expected events)
      | crashed exc ↦
          if is_pipeline_crash exc
          then recorded (record {
            name = name;
            passed = false;
            oracle_error = true;
            lines = pipeline_crashed (message exc) ∷ [];
          })
          else stopped exc
    ]
  ]

  run_from : ℕ → List Value → SuiteOutcome → SuiteEnd
  run_from index [] outcome = finished outcome
  run_from index (raw ∷ cases) outcome = elim (case_outcome index raw) [
    | recorded result ↦ run_from (suc index) cases (record_case outcome result)
    | stopped exc ↦ uncaught exc
  ]

  unfoldable pub run_suite : List Value → SuiteEnd
  unfolding run_from case_outcome
  run_suite cases = run_from 0 cases no_counts

  -- `main`, on the value that the suite file holds
  pub main : Value → ℕ
  unfolding exit_of
  main suite = elim (load_suite suite) [
    | ok cases ↦ exit_of (run_suite cases)
    | config_error _ ↦ 1
    | raised _ ↦ 1
  ]
