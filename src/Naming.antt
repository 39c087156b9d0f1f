-- ===== src/Naming.antt =====
-- nse/core/naming.py: the names of the namespaces and of the interfaces of a run.
pub mod Laws
mod Tests
use network_sandbox_engine.Prelude.{Text, codes, take, List, [], ◌∷◌, ◌++◌}

pub record NamespaceNames : Type 0 where
  pub test_id : Text
  pub netns : Text
  pub router_ns : Text
  pub server_ns : Text
  pub veth_host : Text
  pub veth_router_host : Text
  pub veth_router_server : Text
  pub veth_server : Text

unfoldable pub derive_names : Text → NamespaceNames
derive_names test_id =
    let suffix = take 8 test_id in
    record {
      test_id = test_id;
      netns = codes "nse_" ++ test_id;
      router_ns = codes "nsr_" ++ test_id;
      server_ns = codes "nss_" ++ test_id;
      veth_host = codes "vhr-" ++ suffix;
      veth_router_host = codes "vrh-" ++ suffix;
      veth_router_server = codes "vrs-" ++ suffix;
      veth_server = codes "vsr-" ++ suffix;
    }

-- The prefixes of the cleanup at the start.
abbrev pub netns_sweep_prefixes : List Text
netns_sweep_prefixes = codes "nse_" ∷ codes "nsr_" ∷ codes "nss_" ∷ []

abbrev pub veth_sweep_prefixes : List Text
veth_sweep_prefixes = codes "vhr-" ∷ codes "vrh-" ∷ codes "vrs-" ∷ codes "vsr-" ∷ []

abbrev pub namespaces : NamespaceNames → List Text
namespaces n = n.netns ∷ n.router_ns ∷ n.server_ns ∷ []

abbrev pub interfaces : NamespaceNames → List Text
interfaces n = n.veth_host ∷ n.veth_router_host ∷ n.veth_router_server ∷ n.veth_server ∷ []
