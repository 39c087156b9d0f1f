-- ===== src/Harvester/Monitor.antt =====
-- The command of `TraceHarvester.start` of nse/core/trace_harvester.py.
use network_sandbox_engine.Prelude.{Text, codes, [], ◌∷◌, ◌++◌}
use network_sandbox_engine.Shell.{Argv, World, Call, ◌>>=◌, pure, find, exec_prefix}

module _ (w : World) where
  unfoldable pub monitor_command : Text → Call Argv
  monitor_command netns_name = do
    prefix ← exec_prefix w netns_name
    nft ← find w (codes "nft")
    pure (prefix ++ nft ∷ codes "monitor" ∷ codes "trace" ∷ [])
