-- ===== src/Harvester/Health/Verdict.antt =====
-- When the harvester can be trusted.
use network_sandbox_engine.Prelude.{true, [], ◌≡◌, ◌↔◌, arith}
use network_sandbox_engine.Harvester.Loop.{Harvester, is_healthy}
use network_sandbox_engine.Harvester.Health.{Reprs, health_errors}

-- No problem is reported exactly when the loop was stopped on request or still runs, and every line
-- that looks like trace output was parsed.
pub health_errors-nil_iff :
    (r : Reprs) (h : Harvester)
    → (health_errors r h ≡ []) ↔ ((is_healthy h.state ≡ true) × (h.unparsed_trace_lines ≡ 0))
unfolding health_errors is_healthy
health_errors-nil_iff r h = ground arith
