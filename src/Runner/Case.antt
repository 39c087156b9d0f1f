-- ===== src/Runner/Case.antt =====
-- `evaluate_case` and the counters of nse/cli/runner.py. A line of the report is kept as its
-- parts, and is not formatted.
pub mod Laws
use network_sandbox_engine.Prelude.{
  ℕ, suc, ◌+◌, Text, text_eq, Bool, true, false, ◌&&◌, ◌||◌, not, List, [], ◌∷◌, map, length, ◌==◌,
  ltb, if◌then◌else◌,
}
use network_sandbox_engine.Models.{TraceEvent}
use network_sandbox_engine.Runner.Suite.Error.{SuiteConfigError}
use network_sandbox_engine.Runner.Verdicts.{collect_oracle_errors, reduce_verdicts}

pub data Line : Type 0 where
  -- the message of an error event
  oracle_error : Text → Line
  -- how many verdicts were expected, and those that were observed
  verdict_count : ℕ → List Text → Line
  -- the number of the packet, the expected verdict and the observed one
  packet_ok packet_fail : ℕ → Text → Text → Line
  invalid_entry : SuiteConfigError → Line
  -- the message of an exception that the pipeline raised
  pipeline_crashed : Text → Line

pub record CaseOutcome : Type 0 where
  pub name : Text
  pub passed : Bool
  pub oracle_error : Bool
  pub lines : List Line

-- The loop over `zip(expected, observed, strict=True)`, with the flag and the lines; the lists
-- have one length when it starts.
compare_packets : ℕ → List Text → List Text → Bool × List Line
compare_packets idx (exp ∷ exps) (act ∷ acts) =
    let (passed, lines) = compare_packets (suc idx) exps acts in
    if text_eq exp act
    then (passed, packet_ok idx exp act ∷ lines)
    else (false, packet_fail idx exp act ∷ lines)
compare_packets idx _ _ = (true, [])

-- the part of `evaluate_case` behind its two guards
judged : Text → Bool × List Line → CaseOutcome
judged name (passed, lines) = record {
  name = name;
  passed = passed;
  oracle_error = false;
  lines = lines;
}

-- the part of `evaluate_case` behind its first guard
compared : Text → List Text → List Text → CaseOutcome
compared name expected observed =
    if not (length observed == length expected)
    then record {
      name = name;
      passed = false;
      oracle_error = true;
      lines = verdict_count (length expected) observed ∷ [];
    }
    else judged name (compare_packets 1 expected observed)

unblamed : Text → List Text → List TraceEvent → List Text → CaseOutcome
unblamed name expected events [] = compared name expected (reduce_verdicts events)
unblamed name expected events (e ∷ errors) = record {
  name = name;
  passed = false;
  oracle_error = true;
  lines = map Line.oracle_error (e ∷ errors);
}

unfoldable pub evaluate_case : Text → List Text → List TraceEvent → CaseOutcome
unfolding unblamed compared judged compare_packets
evaluate_case name expected events = unblamed name expected events (collect_oracle_errors events)

pub record SuiteOutcome : Type 0 where
  pub passed : ℕ
  pub failed : ℕ
  pub oracle_errors : ℕ

unfoldable pub exit_code : SuiteOutcome → ℕ
exit_code s = if ltb 0 s.failed || ltb 0 s.oracle_errors then 1 else 0

-- `SuiteOutcome.record`
unfoldable pub record_case : SuiteOutcome → CaseOutcome → SuiteOutcome
record_case s outcome =
    if outcome.passed
    then record s { passed = s.passed + 1 }
    else if outcome.oracle_error
    then record s { failed = s.failed + 1; oracle_errors = s.oracle_errors + 1 }
    else record s { failed = s.failed + 1 }
