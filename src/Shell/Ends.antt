-- ===== src/Shell/Ends.antt =====
-- How a command ends that could be started.
use network_sandbox_engine.Prelude.{
  Text, List, [], ◌∷◌, ◌++◌, ◌≡◌, refl, inl, inr, ◌==◌, Bool-cases, if◌then◌else◌,
}
use network_sandbox_engine.Exceptions.{Exception}
use network_sandbox_engine.Paths.{resolve_once}
use network_sandbox_engine.Shell.{
  Argv, System, Process, exited, killed, not_started, World, Result, ok, failed, expired, raised,
  find, run_unchecked, run, in_root,
}

module _ (w : World) where
  pub find-eq :
      (binary path : Text) (s : System)
      → resolve_once w.fs binary ≡ inr path
      → find w binary s ≡ (ok path, s)
  unfolding find
  find-eq binary path s e = rw (e, find) refl

  pub in_root-eq :
      (binary path : Text) (args : List Text) (s : System)
      → resolve_once w.fs binary ≡ inr path
      → in_root w binary args s ≡ run w (path ∷ args) s
  unfolding in_root
  in_root-eq binary path args s e = rw (find-eq binary path s e) refl

  abbrev pub after_run : Argv → System → System
  after_run cmd s = record s { ran = s.ran ++ cmd ∷ [] }

  -- What `_run` makes of the end of a process.
  abbrev pub verdict : Argv → Process → Result (Unit {0})
  verdict cmd (exited status out err) = if status == 0 then ok tt else failed cmd status err
  verdict cmd killed = expired cmd
  verdict cmd (not_started t) = raised (Exception.os_error t)

  pub run-eq :
      (cmd : Argv) (s : System) → run w cmd s ≡ (verdict cmd (w.process s cmd), after_run cmd s)
  unfolding run run_unchecked
  run-eq cmd s = go (w.process s cmd) refl
    where
      go : (q : Process) → w.process s cmd ≡ q → run w cmd s ≡ (verdict cmd q, after_run cmd s)
      go (exited status out err) e = elim (Bool-cases (status == 0)) [
        | inl z ↦ rw (e, run, run_unchecked, z) refl
        | inr z ↦ rw (e, run, run_unchecked, z) refl
      ]
      go killed e = rw (e, run, run_unchecked) refl
      go (not_started t) e = rw (e, run, run_unchecked) refl
