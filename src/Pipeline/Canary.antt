-- ===== src/Pipeline/Canary.antt =====
-- `_probe_oracle` and `_without_canaries` of nse/core/pipeline.py.
pub mod Probe
use network_sandbox_engine.Prelude.{
  ℕ, zero, suc, Text, contains, given, not, ◌&&◌, Bool, true, false, Option, none, some, List, [],
  ◌∷◌, keep, if◌then◌else◌,
}
use network_sandbox_engine.Exceptions.{Exception}
use network_sandbox_engine.Models.{TraceEvent}
use network_sandbox_engine.Harvester.Loop.{Harvester, arm_event_signal, extend_deadline}
use network_sandbox_engine.Pipeline.Machine.{
  Machine, Action, Reads, with_harvester, await_reads, next,
}

-- One injection: its time, whether it raised, and what the read loop does until the pipeline goes on.
pub record Injection : Type 0 where
  pub now : ℕ
  pub raised : Option Exception
  pub reads : Reads

-- One attempt of the loop: `true` if the canary was injected and an event was seen.
unfoldable pub probe_once : Bool → ℕ → Injection → Machine → Bool × Machine
unfolding await_reads arm_event_signal extend_deadline
probe_once blind idle_timeout i m =
    let m = with_harvester arm_event_signal m in
    let m = with_harvester (extend_deadline i.now idle_timeout) m in
    let (_, m) = await_reads blind i.reads m in
    (elim i.raised [ none ↦ m.harvester.event_signal | some _ ↦ false ], m)

-- `_probe_oracle`, from the attempt `k` on, with `n` attempts left
unfoldable pub probe_oracle : Bool → ℕ → (ℕ → Injection) → ℕ → ℕ → Machine → Bool × Machine
probe_oracle blind idle_timeout attempts zero k m = (false, m)
probe_oracle blind idle_timeout attempts (suc n) k m =
    let (seen, m) = probe_once blind idle_timeout (attempts k) m in
    elim seen [ true ↦ (true, m) | false ↦ probe_oracle blind idle_timeout attempts n (suc k) m ]

-- `not (e.trace_id and e.trace_id in canary_trace_ids)`
abbrev pub is_reported : List Text → TraceEvent → Bool
is_reported canaries e = elim (given e.trace_id) [
  | none ↦ true
  | some t ↦ not (contains t canaries)
]

unfoldable pub without_canaries : List TraceEvent → List Text → List TraceEvent
without_canaries events [] = events
without_canaries events (c ∷ canaries) = keep (is_reported (c ∷ canaries)) events
