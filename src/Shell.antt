-- ===== src/Shell.antt =====
-- The commands that the engine runs by Python's subprocess module, with what they leave behind. The
-- operating system is an argument: what the file system holds, and how each process ends.
pub mod Runs
pub mod Ends
pub mod Returned
pub mod Sample
use network_sandbox_engine.Prelude.{
  ℕ, Text, codes, ◌==◌, Bool, true, false, Option, none, some, List, [], ◌∷◌, ◌++◌, inl, inr,
  if◌then◌else◌,
}
use network_sandbox_engine.Prelude.Dict.{Dict}
use network_sandbox_engine.Exceptions.{Exception, is_os_error}
use network_sandbox_engine.Paths.{FileSystem, resolve_once}

abbrev pub Argv : Type 0
Argv = List Text

-- The commands so far, the namespaces of the controller, and the temporary files with their text.
pub record System : Type 0 where
  pub ran : List Argv
  pub active_ns : List Text
  pub temp_files : Dict Text

-- How a process ends: with its status and what it printed, by the timeout, or by an OSError.
pub data Process : Type 0 where
  exited : ℕ → Text → Text → Process
  killed : Process
  not_started : Text → Process

pub record World : Type 0 where
  pub fs : FileSystem
  pub process : System → Argv → Process
  pub use_nsenter : Bool

-- How a call ends: with a value, a CalledProcessError with its status and `stderr`, a TimeoutExpired,
-- or another exception.
pub data Result {ℓ} (A : Type ℓ) : Type ℓ where
  ok : A → Result A
  failed : Argv → ℕ → Text → Result A
  expired : Argv → Result A
  raised : Exception → Result A

abbrev pub Call {ℓ} : Type ℓ → Type ℓ
Call A = System → Result A × System

abbrev pub follow : {X Y : Type 0} → Result X → (X → Call Y) → Call Y
follow (failed cmd status stderr) f s = (failed cmd status stderr, s)
follow (expired cmd) f s = (expired cmd, s)
follow (raised e) f s = (raised e, s)
follow (ok x) f s = f x s

infixl 5 ◌>>=◌ ◌>>◌
abbrev pub ◌>>=◌ : {X Y : Type 0} → Call X → (X → Call Y) → Call Y
◌>>=◌ a f s = let (r, s') = a s in follow r f s'

abbrev pub ◌>>◌ : {Y : Type 0} → Call (Unit {0}) → Call Y → Call Y
a >> b = a >>= λ _. b

abbrev pub pure : {X : Type 0} → X → Call X
pure x s = (ok x, s)

abbrev pub raise : {X : Type 0} → Exception → Call X
raise e s = (raised e, s)

-- What a process returned: its status, `stdout` and `stderr`.
pub record Completed : Type 0 where
  pub returncode : ℕ
  pub stdout : Text
  pub stderr : Text

-- the value that a call returns, whatever the exception, as under `except Exception`
abbrev quiet : Result (Unit {0}) → Result (Unit {0})
quiet _ = ok tt

abbrev pub ignore_errors : Call (Unit {0}) → Call (Unit {0})
ignore_errors a s = let (r, s') = a s in (quiet r, s')

-- `contextlib.suppress(subprocess.CalledProcessError, OSError)`
abbrev pub suppressed : Result (Unit {0}) → Result (Unit {0})
suppressed (ok x) = ok x
suppressed (failed _ _ _) = ok tt
suppressed (expired cmd) = expired cmd
suppressed (raised e) = if is_os_error e then ok tt else raised e

abbrev pub suppress : Call (Unit {0}) → Call (Unit {0})
suppress a s = let (r, s') = a s in (suppressed r, s')

-- `except subprocess.CalledProcessError`
abbrev tolerated : Result (Unit {0}) → Result (Unit {0})
tolerated (failed _ _ _) = ok tt
tolerated (ok x) = ok x
tolerated (expired cmd) = expired cmd
tolerated (raised e) = raised e

abbrev pub tolerate : Call (Unit {0}) → Call (Unit {0})
tolerate a s = let (r, s') = a s in (tolerated r, s')

-- A `finally` block; its own exception replaces the one before it.
abbrev after_finally : {X : Type 0} → Result X → Result (Unit {0}) → Result X
after_finally r (ok _) = r
after_finally r (failed cmd status stderr) = failed cmd status stderr
after_finally r (expired cmd) = expired cmd
after_finally r (raised e) = raised e

abbrev pub finally : {X : Type 0} → Call X → Call (Unit {0}) → Call X
finally a cleanup s = let (r, s') = a s in let (r', s'') = cleanup s' in (after_finally r r', s'')

module _ (w : World) where
  -- `resolve`, without its cache
  unfoldable pub find : Text → Call Text
  find binary s = elim (resolve_once w.fs binary) [
    | inl e ↦ (raised e, s)
    | inr path ↦ (ok path, s)
  ]

  abbrev ended : Argv → Process → Result Completed
  ended cmd (exited status out err) =
      ok (record { returncode = status; stdout = out; stderr = err })
  ended cmd killed = expired cmd
  ended cmd (not_started t) = raised (Exception.os_error t)

  -- `subprocess.run(cmd, check=False, ...)`
  unfoldable pub run_unchecked : Argv → Call Completed
  run_unchecked cmd s = (ended cmd (w.process s cmd), record s { ran = s.ran ++ cmd ∷ [] })

  -- the start of a process that nobody waits for: `Popen`, or `create_subprocess_exec`
  abbrev started : Process → Result (Unit {0})
  started (exited status out err) = ok tt
  started killed = ok tt
  started (not_started t) = raised (Exception.os_error t)

  abbrev pub spawn : Argv → Call (Unit {0})
  spawn cmd s = (started (w.process s cmd), record s { ran = s.ran ++ cmd ∷ [] })

  abbrev checked : Argv → Completed → Call (Unit {0})
  checked cmd done =
      if done.returncode == 0 then pure tt else λ s. (failed cmd done.returncode done.stderr, s)

  -- `_run`, whose result nobody reads
  unfoldable pub run : Argv → Call (Unit {0})
  run cmd = run_unchecked cmd >>= checked cmd

  -- `exec_prefix`
  unfoldable pub exec_prefix : Text → Call Argv
  exec_prefix name =
      if w.use_nsenter
      then (find (codes "nsenter") >>= λ nsenter.
          pure (nsenter ∷ (codes "--net=/var/run/netns/" ++ name) ∷ codes "--" ∷ []))
      else (find (codes "ip") >>= λ ip. pure (ip ∷ codes "netns" ∷ codes "exec" ∷ name ∷ []))

  -- a command in the root namespace, whose program is resolved
  unfoldable pub in_root : Text → List Text → Call (Unit {0})
  in_root binary args = find binary >>= λ program. run (program ∷ args)

  -- `_run_in_netns`, with a command whose program is resolved before the prefix
  unfoldable pub in_netns : Text → Text → List Text → Call (Unit {0})
  in_netns name binary args = do
    program ← find binary
    prefix ← exec_prefix name
    run (prefix ++ program ∷ args)
