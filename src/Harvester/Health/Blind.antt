-- ===== src/Harvester/Health/Blind.antt =====
-- A parser that does not understand the trace makes the run fail.
use network_sandbox_engine.Prelude.{
  ◌<◌, Bool, true, List, [], ◌∷◌, ◌≡◌, ◌≢◌, arith, length, any, keep,
}
use network_sandbox_engine.Harvester.Loop.{Harvester, turns}
use network_sandbox_engine.Harvester.Loop.Accounting.{
  Stamped, IsOpen, InTime, reads, is_blind_spot, turns-Accounts,
}
use network_sandbox_engine.Harvester.Health.{Reprs, health_errors}
use network_sandbox_engine.Harvester.Health.Verdict.{health_errors-nil_iff}

some_kept {ℓ} : {A : Type ℓ} (p : A → Bool) (xs : List A) → any p xs ≡ true → 0 < length (keep p xs)
some_kept p [] h = absurd (cc)
some_kept p (x ∷ xs) h = ground (arith, some_kept p xs)

module _ (r : Reprs) where
  -- While the loop is at work, its queue is emptied and every read comes before the deadline, one line
  -- of trace output that no pattern matches is enough for the harvester to report a problem.
  pub health_errors-blind_spot :
      (blind : Bool) (ls : List Stamped) (h : Harvester)
      → IsOpen h
      → InTime h ls
      → any (is_blind_spot blind) ls ≡ true
      → health_errors r (turns blind (reads ls) h) ≢ []
  health_errors-blind_spot blind ls h k early seen clean =
      let after = turns-Accounts blind ls h k early in
      let count = ((health_errors-nil_iff r (turns blind (reads ls) h)).0 clean).1 in
      absurd (omega (arith, after.blind_spots, count, some_kept (is_blind_spot blind) ls seen))
