-- ===== src/Runner/Verdicts/Errors.antt =====
-- The messages of the error events of a stream.
use network_sandbox_engine.Prelude.{any, false, List, [], ◌∷◌, ◌≡◌, refl, arith}
use network_sandbox_engine.Models.{TraceEvent, is_error}
use network_sandbox_engine.Runner.Verdicts.{collect_oracle_errors, error_message}

-- A stream without a message has no error event.
pub collect_oracle_errors-any :
    (es : List TraceEvent) → collect_oracle_errors es ≡ [] → any is_error es ≡ false
unfolding collect_oracle_errors error_message
collect_oracle_errors-any [] h = refl
collect_oracle_errors-any (e ∷ es) h = ground (arith, collect_oracle_errors-any es)
