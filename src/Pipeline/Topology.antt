-- ===== src/Pipeline/Topology.antt =====
-- The steps of `run_test_pipeline` of nse/core/pipeline.py that go through the namespace controller: the
-- setup of the topology and its teardown, with the choices that depend on the topology.
pub mod Cleared
use network_sandbox_engine.Listener.{start_mock_listener}
use network_sandbox_engine.Prelude.{ℕ, zero, suc, Text, codes, Option, none, some, List, [], ◌∷◌}
use network_sandbox_engine.Models.Request.{TopologyType, PacketSpec, Protocol}
use network_sandbox_engine.Naming.{NamespaceNames}
use network_sandbox_engine.Shell.{
  World, Result, Call, ◌>>=◌, ◌>>◌, pure, finally, find, run_unchecked,
}
use network_sandbox_engine.Controller.Lifecycle.{create_netns, destroy_netns}
use network_sandbox_engine.Controller.Topology.{
  Gateway, default_plan, create_veth_pair, create_gateway_topology,
}

abbrev pub veth_peer : Text
veth_peer = codes "veth-nse"

-- the namespace that the rules are loaded into, and the peer of the link over which packets come
abbrev pub target_netns : TopologyType → NamespaceNames → Text
target_netns TopologyType.gateway n = n.router_ns
target_netns TopologyType.simple n = n.netns

abbrev pub peer_target : TopologyType → NamespaceNames → Text
peer_target TopologyType.gateway n = n.veth_router_host
peer_target TopologyType.simple n = veth_peer

abbrev pub listener_netns : TopologyType → NamespaceNames → Text
listener_netns TopologyType.gateway n = n.server_ns
listener_netns TopologyType.simple n = n.netns

abbrev gateway_of : NamespaceNames → Gateway
gateway_of n = record {
  router_ns = n.router_ns;
  server_ns = n.server_ns;
  veth_host = n.veth_host;
  veth_router_host = n.veth_router_host;
  veth_router_server = n.veth_router_server;
  veth_server = n.veth_server;
}

-- `_canary_spec`, with the two ports of the module
abbrev pub canary_spec : Text → Text → PacketSpec
canary_spec dst_ip src_ip = record {
  protocol = Protocol.udp;
  src_ip = src_ip;
  dst_ip = dst_ip;
  src_port = some 64998;
  dst_port = some 64999;
  tcp_flags = [];
}

-- The namespaces that a topology creates.
abbrev pub created : TopologyType → NamespaceNames → List Text
created TopologyType.gateway n = n.router_ns ∷ n.server_ns ∷ []
created TopologyType.simple n = n.netns ∷ []

module _ (w : World) where
  -- step 1
  unfoldable pub create_topology : TopologyType → NamespaceNames → Call (Unit {0})
  create_topology TopologyType.gateway n = create_gateway_topology w (gateway_of n) default_plan
  create_topology TopologyType.simple n = do
    create_netns w n.netns
    create_veth_pair w n.netns n.veth_host veth_peer (codes "10.0.0.1/24" ∷ [])
        (codes "10.0.0.2/24" ∷ [])

  abbrev protocol_text : Protocol → Text
  protocol_text Protocol.tcp = codes "tcp"
  protocol_text Protocol.udp = codes "udp"
  protocol_text Protocol.icmp = codes "icmp"

  -- step 2, for one packet, with the path of the interpreter
  abbrev pub listen_on : Text → Text → Protocol → Option ℕ → Call (Unit {0})
  listen_on executable ns protocol none = pure tt
  listen_on executable ns protocol (some zero) = pure tt
  listen_on executable ns protocol (some (suc port)) =
      start_mock_listener w executable ns (protocol_text protocol) (suc port) (codes "::")

  unfoldable pub destroy_topology : TopologyType → NamespaceNames → Call (Unit {0})
  destroy_topology TopologyType.gateway n = do
    destroy_netns w n.router_ns
    destroy_netns w n.server_ns
  destroy_topology TopologyType.simple n = destroy_netns w n.netns

  -- the deletion of the link, whose status nobody reads
  unfoldable pub delete_link : Text → Call (Unit {0})
  delete_link veth_host = do
    ip ← find w (codes "ip")
    _ ← run_unchecked w (ip ∷ codes "link" ∷ codes "del" ∷ veth_host ∷ [])
    pure tt

  -- the `finally` block, behind the listeners
  unfoldable pub teardown : TopologyType → NamespaceNames → Call (Unit {0})
  teardown topology n = do destroy_topology topology n; delete_link n.veth_host

  -- The `try` statement: `rest` stands for the steps behind the first, and `handlers` for what the
  -- `except` clauses make of the end of the steps.
  unfoldable pub with_topology :
      {X : Type 0} → TopologyType → NamespaceNames → Call X → (Result X → Call X) → Call X
  with_topology topology n rest handlers s =
      let (r, s) = (create_topology topology n >> rest) s in
      finally (handlers r) (teardown topology n) s
