-- ===== src/Runner/Suite/Run/Laws.antt =====
-- The exit status of the runner against the cases of the suite.
use network_sandbox_engine.Prelude.{
  ℕ, suc, ◌+◌, ◌≤◌, Text, true, List, [], ◌∷◌, length, ◌≡◌, ◌↔◌, ◌⊎◌, refl, arith, inl, inr, sym,
}
use network_sandbox_engine.Exceptions.{Exception}
use network_sandbox_engine.Models.{TraceEvent}
use network_sandbox_engine.Models.Request.{TestRequest}
use network_sandbox_engine.Runner.Verdicts.{collect_oracle_errors, reduce_verdicts}
use network_sandbox_engine.Runner.Case.{
  CaseOutcome, SuiteOutcome, evaluate_case, record_case, exit_code,
}
use network_sandbox_engine.Runner.Case.Laws.{evaluate_case-passed_iff}
use network_sandbox_engine.Runner.Suite.Value.{Value}
use network_sandbox_engine.Runner.Suite.Build.{
  Built, ok, config_error, raised, Conversions, build_case,
}
use network_sandbox_engine.Runner.Suite.Run.{
  Ran, returned, crashed, finished, uncaught, CaseEnd, recorded, stopped, case_outcome, run_from,
  run_suite, exit_of, no_counts,
}

-- Counts that give the status 0.
abbrev IsClean : SuiteOutcome → Type 0
IsClean s = (s.failed ≡ 0) × (s.oracle_errors ≡ 0)

record_case-IsClean :
    (s : SuiteOutcome) (o : CaseOutcome)
    → IsClean (record_case s o) ↔ (IsClean s × (o.passed ≡ true))
unfolding record_case
record_case-IsClean s o = ground arith

record_case-counts :
    (s : SuiteOutcome) (o : CaseOutcome)
    → ((record_case s o).passed + (record_case s o).failed ≡ s.passed + s.failed + 1)
      × (s.oracle_errors ≤ s.failed → (record_case s o).oracle_errors ≤ (record_case s o).failed)
unfolding record_case
record_case-counts s o = ground arith

CaseEnd-cases :
    (e : CaseEnd) → ((o : CaseOutcome) × (e ≡ recorded o)) ⊎ ((exc : Exception) × (e ≡ stopped exc))
CaseEnd-cases (recorded o) = inl (o, refl)
CaseEnd-cases (stopped exc) = inr (exc, refl)

finished_is_not_uncaught : (r : SuiteOutcome) (exc : Exception) → ¬ (finished r ≡ uncaught exc)
finished_is_not_uncaught r exc e = cc

module _ (c : Conversions) (pipeline : ℕ → TestRequest → Ran) where
  -- Case `index` is well formed, its pipeline returned events with no error among them, and the
  -- observed verdicts are the expected ones.
  pub record Passes (index : ℕ) (raw : Value) : Type 0 where
    pub name : Text
    pub request : TestRequest
    pub expected : List Text
    pub events : List TraceEvent
    pub built : build_case c raw index ≡ ok (name, request, expected)
    pub ran : pipeline index request ≡ returned events
    pub no_error : collect_oracle_errors events ≡ []
    pub observed : reduce_verdicts events ≡ expected

  abbrev pub AllPass : ℕ → List Value → Type 0
  AllPass index [] = Unit
  AllPass index (raw ∷ cases) = Passes index raw × AllPass (suc index) cases

  case_outcome-Passes :
      (index : ℕ) (raw : Value) (o : CaseOutcome)
      → case_outcome c pipeline index raw ≡ recorded o
      → o.passed ≡ true
      → Passes index raw
  unfolding case_outcome
  case_outcome-Passes index raw o h p = go (build_case c raw index) refl
    where
      ran :
          (name : Text) (request : TestRequest) (expected : List Text)
          → build_case c raw index ≡ ok (name, request, expected)
          → (r : Ran) → pipeline index request ≡ r
          → Passes index raw
      ran name request expected b (returned events) e =
          let q : evaluate_case name expected events ≡ o = ground (arith) in
          let (none_seen, same) = (evaluate_case-passed_iff name expected events).0 (rw q p) in
          record {
            name = name;
            request = request;
            expected = expected;
            events = events;
            built = b;
            ran = e;
            no_error = none_seen;
            observed = same;
          }
      ran name request expected b (crashed exc) e = ground (arith)

      go :
          (r : Built (Text × TestRequest × List Text))
          → build_case c raw index ≡ r
          → Passes index raw
      go (ok (name, request, expected)) e =
          ran name request expected e (pipeline index request) refl
      go (config_error _) e = ground arith
      go (raised _) e = ground arith

  Passes-case_outcome :
      (index : ℕ) (raw : Value)
      → Passes index raw
      → (o : CaseOutcome) × (case_outcome c pipeline index raw ≡ recorded o) × (o.passed ≡ true)
  unfolding case_outcome
  Passes-case_outcome index raw h = (
    evaluate_case h.name h.expected h.events,
    rw (h.built, h.ran, case_outcome),
    (evaluate_case-passed_iff h.name h.expected h.events).1 (h.no_error, h.observed),
  )

  -- The run from any point of the loop, with any counts so far.
  run_from-exit_zero :
      (index : ℕ) (cases : List Value) (s : SuiteOutcome)
      → exit_of (run_from c pipeline index cases s) ≡ 0
      → IsClean s × AllPass index cases
  unfolding run_from exit_of exit_code
  run_from-exit_zero index [] s h = (ground arith, tt)
  run_from-exit_zero index (raw ∷ cases) s h =
      elim (CaseEnd-cases (case_outcome c pipeline index raw)) [
        | inl (o, e) ↦
            let (clean, pass) =
              run_from-exit_zero (suc index) cases (record_case s o) (rw (e, run_from) at h) in
            let (clean', passed) = (record_case-IsClean s o).0 clean in
            (clean', (case_outcome-Passes index raw o e passed, pass))
        | inr (exc, e) ↦ absurd (omega (arith, (rw (e, run_from) at h)))
      ]

  run_from_of_AllPass :
      (index : ℕ) (cases : List Value) (s : SuiteOutcome)
      → IsClean s
      → AllPass index cases
      → exit_of (run_from c pipeline index cases s) ≡ 0
  unfolding run_from exit_of exit_code
  run_from_of_AllPass index [] s clean h = ground arith
  run_from_of_AllPass index (raw ∷ cases) s clean (h, hs) =
      let (o, e, passed) = Passes-case_outcome index raw h in
      rw (e, run_from)
        (run_from_of_AllPass (suc index) cases (record_case s o)
          ((record_case-IsClean s o).1 (clean, passed)) hs)

  -- The status of a run is 0 exactly when every case of the suite is well formed, its pipeline returned
  -- a stream with no error event, and the verdicts of that stream are the expected ones.
  pub run_suite-exit_zero_iff :
      (cases : List Value) → (exit_of (run_suite c pipeline cases) ≡ 0) ↔ AllPass 0 cases
  unfolding run_suite
  run_suite-exit_zero_iff cases =
      (λ h. (run_from-exit_zero 0 cases _ h).1, run_from_of_AllPass 0 cases _ (refl, refl))

  run_from-counts :
      (index : ℕ) (cases : List Value) (s r : SuiteOutcome)
      → run_from c pipeline index cases s ≡ finished r
      → s.oracle_errors ≤ s.failed
      → (r.passed + r.failed ≡ s.passed + s.failed + length cases) × (r.oracle_errors ≤ r.failed)
  unfolding run_from
  run_from-counts index [] s r h k = ground arith
  run_from-counts index (raw ∷ cases) s r h k =
      elim (CaseEnd-cases (case_outcome c pipeline index raw)) [
        | inl (o, e) ↦ ground (
          arith,
          run_from-counts (suc index) cases (record_case s o) r (rw (e, run_from) at h),
          record_case-counts s o,
        )
        | inr (exc, e) ↦ absurd (finished_is_not_uncaught r exc (sym (rw (e, run_from) at h)))
      ]

  -- A run that ends with counts has counted every case once, as passed or as failed, and the failures
  -- that are blamed on the instrument are among the failures.
  pub run_suite-counts :
      (cases : List Value) (r : SuiteOutcome)
      → run_suite c pipeline cases ≡ finished r
      → (r.passed + r.failed ≡ length cases) × (r.oracle_errors ≤ r.failed)
  unfolding run_suite
  run_suite-counts cases r h = omega (arith, run_from-counts 0 cases no_counts r h (omega arith))
