-- ===== src/Pipeline/Listeners.antt =====
-- The end of the mock listeners in the `finally` block of `run_test_pipeline` of nse/core/pipeline.py.
use network_sandbox_engine.Prelude.{
  ℕ, zero, suc, Bool, true, Option, none, some, ◌≡◌, refl, Option-cases, inl, inr, if◌then◌else◌,
}
use network_sandbox_engine.Exceptions.{Exception, is_process_error}

-- What `terminate` and `wait` raise for one process, and what `kill` raises.
pub record Stopping : Type 0 where
  pub ended : Option Exception
  pub killed : Option Exception

-- `contextlib.suppress(OSError, subprocess.SubprocessError)`
abbrev pub suppressed : Option Exception → Option Exception
suppressed none = none
suppressed (some e) = if is_process_error e then none else some e

-- what leaves the loop for one listener
unfoldable pub stop_listener : Stopping → Option Exception
stop_listener p = elim p.ended [
  | none ↦ none
  | some e ↦ if is_process_error e then suppressed p.killed else some e
]

-- the loop over `n` listeners, from the `k`-th on
unfoldable pub stop_listeners : (ℕ → Stopping) → ℕ → ℕ → Option Exception
stop_listeners processes zero k = none
stop_listeners processes (suc n) k =
    let rest = stop_listeners processes n (suc k) in
    elim (stop_listener (processes k)) [ none ↦ rest | some e ↦ some e ]

-- An exception is one of an operating system or of a subprocess.
abbrev is_quiet : Option Exception → Bool
is_quiet none = true
is_quiet (some e) = is_process_error e

abbrev pub Stops : Stopping → Type 0
Stops p = (is_quiet p.ended ≡ true) × (is_quiet p.killed ≡ true)

suppressed-none : (o : Option Exception) → is_quiet o ≡ true → suppressed o ≡ none
suppressed-none none h = refl
suppressed-none (some e) h = rw h refl

stop_listener-none : (p : Stopping) → Stops p → stop_listener p ≡ none
unfolding stop_listener
stop_listener-none p (h, k) = elim (Option-cases p.ended) [
  | inl q ↦ rw q refl
  | inr (e, q) ↦ rw (q, (rw q at h)) (suppressed-none p.killed k)
]

pub stop_listeners-none :
    (processes : ℕ → Stopping) (n k : ℕ)
    → ((i : ℕ) → Stops (processes i))
    → stop_listeners processes n k ≡ none
unfolding stop_listeners
stop_listeners-none processes zero k h = refl
stop_listeners-none processes (suc n) k h =
    rw (stop_listener-none (processes k) (h k), stop_listeners)
      (stop_listeners-none processes n (suc k) h)
