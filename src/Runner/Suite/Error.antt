-- ===== src/Runner/Suite/Error.antt =====
-- The messages of `SuiteConfigError`, each as its parts.
use network_sandbox_engine.Prelude.{ℕ, Text, List}
use network_sandbox_engine.Runner.Suite.Value.{Key}

pub data SuiteConfigError : Type 0 where
  -- the number of the case
  not_a_mapping : ℕ → SuiteConfigError
  unknown_keys : Text → List Key → SuiteConfigError
  unknown_topology : Text → Text → SuiteConfigError
  no_packets : Text → SuiteConfigError
  -- the name of the case and the number of the packet
  packet_not_a_mapping : Text → ℕ → SuiteConfigError
  packet_unknown_keys : Text → ℕ → List Key → SuiteConfigError
  unknown_verdict : Text → ℕ → Text → SuiteConfigError
  packet_invalid : Text → ℕ → SuiteConfigError
  invalid_request : Text → SuiteConfigError
  no_suite_mapping no_cases cases_not_a_list : SuiteConfigError
