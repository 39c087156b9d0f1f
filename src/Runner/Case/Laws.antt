-- ===== src/Runner/Case/Laws.antt =====
-- When a case passes, and whom a failure is blamed on.
use network_sandbox_engine.Prelude.{
  ℕ, suc, Text, text_eq_iff, Bool, true, false, List, [], ◌∷◌, length, all, ◌≡◌, ◌≢◌, ◌↔◌, ◌⊎◌,
  refl, arith, ap,
}
use network_sandbox_engine.Models.{TraceEvent}
use network_sandbox_engine.Runner.Verdicts.{collect_oracle_errors, reduce_verdicts}
use network_sandbox_engine.Runner.Case.{
  Line, packet_ok, compare_packets, compared, judged, evaluate_case,
}

compare_packets_passed :
    (idx : ℕ) (exps acts : List Text)
    → length acts ≡ length exps
    → ((compare_packets idx exps acts).0 ≡ true) ↔ (acts ≡ exps)
unfolding compare_packets
compare_packets_passed idx [] [] h = (λ _. refl, λ _. refl)
compare_packets_passed idx [] (a ∷ acts) h = absurd (omega arith)
compare_packets_passed idx (e ∷ exps) [] h = absurd (omega arith)
compare_packets_passed idx (e ∷ exps) (a ∷ acts) h =
    ground (arith, compare_packets_passed (suc idx) exps acts, text_eq_iff e a)

-- A line that reports a packet as expected.
abbrev pub is_ok_line : Line → Bool
is_ok_line (packet_ok _ _ _) = true
is_ok_line _ = false

compare_packets_lines :
    (idx : ℕ) (exps acts : List Text)
    → length acts ≡ length exps
    → (length (compare_packets idx exps acts).1 ≡ length exps)
      × ((compare_packets idx exps acts).0 ≡ all is_ok_line (compare_packets idx exps acts).1)
unfolding compare_packets
compare_packets_lines idx [] [] h = (refl, refl)
compare_packets_lines idx [] (a ∷ acts) h = absurd (omega arith)
compare_packets_lines idx (e ∷ exps) [] h = absurd (omega arith)
compare_packets_lines idx (e ∷ exps) (a ∷ acts) h =
    ground (arith, compare_packets_lines (suc idx) exps acts)

length_eq : (xs ys : List Text) → xs ≡ ys → length xs ≡ length ys
length_eq xs ys = ap length

module _ (name : Text) (exps acts : List Text) where
  compared_passed : ((compared name exps acts).passed ≡ true) ↔ (acts ≡ exps)
  unfolding compared judged
  compared_passed = ground (arith, compare_packets_passed 1 exps acts, length_eq acts exps)

  compared_blamed :
      (((compared name exps acts).oracle_error ≡ true) ↔ (length acts ≢ length exps))
      × ((compared name exps acts).oracle_error ≡ true → (compared name exps acts).passed ≡ false)
  unfolding compared judged
  compared_blamed = ground arith

  compared_lines :
      length acts ≡ length exps
      → (length (compared name exps acts).lines ≡ length exps)
        × ((compared name exps acts).passed ≡ all is_ok_line (compared name exps acts).lines)
  unfolding compared judged
  compared_lines h = ground (arith, compare_packets_lines 1 exps acts h)

module _ (name : Text) (expected : List Text) (events : List TraceEvent) where
  -- A case passes exactly when the pipeline reported no error and the observed verdicts are the
  -- expected ones, in number and in order.
  pub evaluate_case-passed_iff :
      ((evaluate_case name expected events).passed ≡ true)
      ↔ ((collect_oracle_errors events ≡ []) × (reduce_verdicts events ≡ expected))
  unfolding evaluate_case
  evaluate_case-passed_iff = ground (arith, compared_passed name expected (reduce_verdicts events))

  -- A failure is blamed on the instrument exactly when the pipeline reported an error or the number
  -- of observed verdicts is not the expected number, and a case so blamed has not passed.
  pub evaluate_case-blamed_iff :
      (((evaluate_case name expected events).oracle_error ≡ true) ↔ (
        (collect_oracle_errors events ≢ []) ⊎ (length (reduce_verdicts events) ≢ length expected)))
      × ((evaluate_case name expected events).oracle_error ≡ true
          → (evaluate_case name expected events).passed ≡ false)
  unfolding evaluate_case
  evaluate_case-blamed_iff = ground (arith, compared_blamed name expected (reduce_verdicts events))

  -- Where no error was reported and the counts agree, the report has one line for each expected
  -- verdict, and the case passes exactly if every line reports its packet as expected.
  pub evaluate_case-lines :
      collect_oracle_errors events ≡ []
      → length (reduce_verdicts events) ≡ length expected
      → (length (evaluate_case name expected events).lines ≡ length expected)
        × ((evaluate_case name expected events).passed
            ≡ all is_ok_line (evaluate_case name expected events).lines)
  unfolding evaluate_case
  evaluate_case-lines clean h =
      ground (arith, compared_lines name expected (reduce_verdicts events) h)
