-- ===== src/Harvester/Health.antt =====
-- `health_errors` of nse/core/trace_harvester.py. `repr` of a text and of an exception is Python's.
pub mod Verdict
pub mod Blind
use network_sandbox_engine.Prelude.{
  ℕ, zero, suc, Text, codes, decimal, Option, none, some, List, [], ◌∷◌, ◌++◌, map, take,
}
use network_sandbox_engine.Exceptions.{Exception}
use network_sandbox_engine.Harvester.Loop.{HarvestState, Harvester}

pub record Reprs : Type 0 where
  pub repr_text : Text → Text
  pub repr_error : Option Exception → Text

-- `"; ".join(xs)`
join : List Text → Text
join [] = []
join (x ∷ []) = x
join (x ∷ y ∷ xs) = x ++ codes "; " ++ join (y ∷ xs)

module _ (r : Reprs) where
  state_problem : Harvester → List Text
  state_problem h = elim h.state [
    | HarvestState.timeout ↦
        codes "trace monitor timed out while still running: the verdict stream is truncated" ∷ []
    | HarvestState.clean_eof ↦
        codes
          "trace monitor exited on its own before the run finished (is `nft monitor trace` available inside the namespace?)"
        ∷ []
    | HarvestState.error ↦ (codes "trace read loop crashed: " ++ r.repr_error h.error) ∷ []
    | HarvestState.not_started ↦ codes "trace monitor was never started" ∷ []
    | HarvestState.running ↦ []
    | HarvestState.stopped ↦ []
  ]

  unparsed_problem : ℕ → List Text → List Text
  unfolding join
  unparsed_problem zero samples = []
  unparsed_problem (suc n) samples =
      (decimal (suc n)
        ++ codes
            " trace line(s) could not be parsed - the parser does not understand this nftables/kernel output: "
        ++ join (map r.repr_text (take 3 samples)))
      ∷ []

  unfoldable pub health_errors : Harvester → List Text
  unfolding state_problem unparsed_problem
  health_errors h = state_problem h ++ unparsed_problem h.unparsed_trace_lines h.unparsed_samples
