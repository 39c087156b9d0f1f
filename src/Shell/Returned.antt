-- ===== src/Shell/Returned.antt =====
-- What follows from a call that returned.
use network_sandbox_engine.Prelude.{◌≡◌, refl, ◌∙◌, ap}
use network_sandbox_engine.Shell.{
  Argv, System, World, Process, exited, killed, not_started, Result, ok, failed, expired, raised,
  Call, follow, ◌>>=◌, finally, run_unchecked, Completed,
}
use network_sandbox_engine.Shell.Runs.{ok-injective}

-- A chain of calls that returns has a first call that returns.
pub record Returned {X Y : Type 0} (a : Call X) (f : X → Call Y) (s : System) (y : Y) : Type 0 where
  pub first : X
  pub returns : (a s).0 ≡ ok first
  pub rest : (f first (a s).1).0 ≡ ok y

pub bind-Returned :
    {X Y : Type 0} (a : Call X) (f : X → Call Y) (s : System) (y : Y)
    → ((a >>= f) s).0 ≡ ok y
    → Returned a f s y
bind-Returned {X} {Y} a f s y = go (a s).0 refl
  where
    go : (r : Result X) → (a s).0 ≡ r → (follow r f (a s).1).0 ≡ ok y → Returned a f s y
    go (ok x) e h = record { first = x; returns = e; rest = h }
    go (failed _ _ _) e h = absurd (cc)
    go (expired _) e h = absurd (cc)
    go (raised _) e h = absurd (cc)

pub finally-ok :
    {X : Type 0} (a : Call X) (c : Call (Unit {0})) (s : System) (x : X)
    → (finally a c s).0 ≡ ok x
    → (a s).0 ≡ ok x
finally-ok a c s x = go (c (a s).1).0 refl
  where
    go : (r : Result (Unit {0})) → (c (a s).1).0 ≡ r → (finally a c s).0 ≡ ok x → (a s).0 ≡ ok x
    go (ok _) e h = rw (e, finally) at h
    go (failed _ _ _) e h = absurd (cc (rw (e, finally) at h))
    go (expired _) e h = absurd (cc (rw (e, finally) at h))
    go (raised _) e h = absurd (cc (rw (e, finally) at h))

module _ (w : World) where
  -- What `subprocess.run` returns is what the process left.
  pub run_unchecked-exited :
      (cmd : Argv) (s : System) (done : Completed)
      → (run_unchecked w cmd s).0 ≡ ok done
      → w.process s cmd ≡ exited done.returncode done.stdout done.stderr
  unfolding run_unchecked
  run_unchecked-exited cmd s done = go (w.process s cmd) refl
    where
      go :
          (p : Process)
          → w.process s cmd ≡ p
          → (run_unchecked w cmd s).0 ≡ ok done
          → w.process s cmd ≡ exited done.returncode done.stdout done.stderr
      go (exited n out err) e h =
          e
          ∙ ap (λ d. exited d.returncode d.stdout d.stderr)
              (ok-injective (rw (e, run_unchecked) at h))
      go killed e h = absurd (cc (rw (e, run_unchecked) at h))
      go (not_started _) e h = absurd (cc (rw (e, run_unchecked) at h))
