-- ===== src/Controller/Topology.antt =====
-- `create_veth_pair` and `create_gateway_topology` of nse/core/netns_controller.py.
pub mod Trusted
use network_sandbox_engine.Prelude.{
  Text, codes, any, given, first_part, ◌==◌, Bool, true, false, Option, none, some, List, [], ◌∷◌,
  ◌++◌, if◌then◌else◌,
}
use network_sandbox_engine.Shell.{World, Call, ◌>>=◌, ◌>>◌, pure, in_root, in_netns}
use network_sandbox_engine.Controller.Lifecycle.{create_netns}

-- A call of `_run`, or of `_run_in_netns`, with a program that is resolved.
pub data Step : Type 0 where
  root : Text → List Text → Step
  inside : Text → Text → List Text → Step

-- The addresses of one end that were given.
pub record Addresses : Type 0 where
  pub v4 : Option Text
  pub v6 : Option Text

-- the loop over the addresses: the last of each kind stays
unfoldable pub pick_from : List Text → Addresses → Addresses
pick_from [] a = a
pick_from (ip ∷ ips) a =
    pick_from ips
      (if any (λ c. c == b':') ip then record a { v6 = some ip } else record a { v4 = some ip })

unfoldable pub pick : List Text → Addresses
pick ips = pick_from ips (record { v4 = none; v6 = none })

-- `if not v: v = default`
unfoldable pub or_default : Option Text → Text → Text
or_default o default = elim (given o) [ none ↦ default | some t ↦ t ]

abbrev ip : List Text → Step
ip = root (codes "ip")

abbrev ip_in : Text → List Text → Step
ip_in ns = inside ns (codes "ip")

abbrev add_link : Text → Text → List Text
add_link a b =
    codes "link"
    ∷ codes "add"
    ∷ a
    ∷ codes "type"
    ∷ codes "veth"
    ∷ codes "peer"
    ∷ codes "name"
    ∷ b
    ∷ []

abbrev move_link : Text → Text → List Text
move_link a ns = codes "link" ∷ codes "set" ∷ a ∷ codes "netns" ∷ ns ∷ []

abbrev add_address : Text → Text → List Text
add_address a dev = codes "addr" ∷ codes "add" ∷ a ∷ codes "dev" ∷ dev ∷ []

abbrev link_up : Text → List Text
link_up dev = codes "link" ∷ codes "set" ∷ dev ∷ codes "up" ∷ []

-- The commands of `create_veth_pair`; with the defaults, every address is given.
unfoldable pub veth_steps : Text → Text → Text → List Text → List Text → List Step
veth_steps ns veth_host veth_peer host_ips peer_ips =
    let host = pick host_ips in
    let peer = pick peer_ips in
    ip (add_link veth_host veth_peer)
    ∷ ip (move_link veth_peer ns)
    ∷ ip (add_address (or_default host.v4 (codes "10.0.0.1/24")) veth_host)
    ∷ ip (add_address (or_default host.v6 (codes "fd00::1/64")) veth_host)
    ∷ ip (link_up veth_host)
    ∷ ip_in ns (add_address (or_default peer.v4 (codes "10.0.0.2/24")) veth_peer)
    ∷ ip_in ns (add_address (or_default peer.v6 (codes "fd00::2/64")) veth_peer)
    ∷ ip_in ns (link_up veth_peer)
    ∷ ip_in ns (link_up (codes "lo"))
    ∷ []

-- The interfaces of the gateway topology, and its two namespaces.
pub record Gateway : Type 0 where
  pub router_ns : Text
  pub server_ns : Text
  pub veth_host : Text
  pub veth_router_host : Text
  pub veth_router_server : Text
  pub veth_server : Text

-- The addresses; the pipeline leaves them at their defaults.
pub record Plan : Type 0 where
  pub host_v4 : Text
  pub router_host_v4 : Text
  pub router_server_v4 : Text
  pub server_v4 : Text
  pub host_v6 : Text
  pub router_host_v6 : Text
  pub router_server_v6 : Text
  pub server_v6 : Text

abbrev pub default_plan : Plan
default_plan = record {
  host_v4 = codes "10.0.1.1/24";
  router_host_v4 = codes "10.0.1.2/24";
  router_server_v4 = codes "10.0.2.1/24";
  server_v4 = codes "10.0.2.2/24";
  host_v6 = codes "fd00:1::1/64";
  router_host_v6 = codes "fd00:1::2/64";
  router_server_v6 = codes "fd00:2::1/64";
  server_v6 = codes "fd00:2::2/64";
}

-- What follows the creation of the two namespaces: forwarding, the two links and the loopbacks.
unfoldable pub gateway_links : Gateway → Plan → List Step
gateway_links g a =
    inside g.router_ns (codes "sysctl") (codes "-w" ∷ codes "net.ipv4.ip_forward=1" ∷ [])
    ∷ inside g.router_ns (codes "sysctl") (codes "-w" ∷ codes "net.ipv6.conf.all.forwarding=1" ∷ [])
    ∷ ip (add_link g.veth_host g.veth_router_host)
    ∷ ip (move_link g.veth_router_host g.router_ns)
    ∷ ip (add_address a.host_v4 g.veth_host)
    ∷ ip (add_address a.host_v6 g.veth_host)
    ∷ ip (link_up g.veth_host)
    ∷ ip_in g.router_ns (add_address a.router_host_v4 g.veth_router_host)
    ∷ ip_in g.router_ns (add_address a.router_host_v6 g.veth_router_host)
    ∷ ip_in g.router_ns (link_up g.veth_router_host)
    ∷ ip_in g.router_ns (add_link g.veth_router_server g.veth_server)
    ∷ ip_in g.router_ns (move_link g.veth_server g.server_ns)
    ∷ ip_in g.router_ns (add_address a.router_server_v4 g.veth_router_server)
    ∷ ip_in g.router_ns (add_address a.router_server_v6 g.veth_router_server)
    ∷ ip_in g.router_ns (link_up g.veth_router_server)
    ∷ ip_in g.server_ns (add_address a.server_v4 g.veth_server)
    ∷ ip_in g.server_ns (add_address a.server_v6 g.veth_server)
    ∷ ip_in g.server_ns (link_up g.veth_server)
    ∷ ip_in g.router_ns (link_up (codes "lo"))
    ∷ ip_in g.server_ns (link_up (codes "lo"))
    ∷ []

-- The routes.
unfoldable pub gateway_routes : Gateway → Plan → List Step
gateway_routes g a =
    ip (
      codes "route"
      ∷ codes "add"
      ∷ codes "10.0.2.0/24"
      ∷ codes "via"
      ∷ first_part b'/' a.router_host_v4
      ∷ codes "dev"
      ∷ g.veth_host
      ∷ [])
    ∷ ip (
        codes "-6"
        ∷ codes "route"
        ∷ codes "add"
        ∷ codes "fd00:2::/64"
        ∷ codes "via"
        ∷ first_part b'/' a.router_host_v6
        ∷ codes "dev"
        ∷ g.veth_host
        ∷ [])
    ∷ ip_in g.server_ns (
        codes "route"
        ∷ codes "add"
        ∷ codes "default"
        ∷ codes "via"
        ∷ first_part b'/' a.router_server_v4
        ∷ codes "dev"
        ∷ g.veth_server
        ∷ [])
    ∷ ip_in g.server_ns (
        codes "-6"
        ∷ codes "route"
        ∷ codes "add"
        ∷ codes "default"
        ∷ codes "via"
        ∷ first_part b'/' a.router_server_v6
        ∷ codes "dev"
        ∷ g.veth_server
        ∷ [])
    ∷ []

unfoldable pub gateway_steps : Gateway → Plan → List Step
gateway_steps g a = gateway_links g a ++ gateway_routes g a

module _ (w : World) where
  abbrev pub perform : Step → Call (Unit {0})
  perform (root binary args) = in_root w binary args
  perform (inside ns binary args) = in_netns w ns binary args

  unfoldable pub run_steps : List Step → Call (Unit {0})
  run_steps [] = pure tt
  run_steps (step ∷ steps) = do perform step; run_steps steps

  unfoldable pub create_veth_pair : Text → Text → Text → List Text → List Text → Call (Unit {0})
  create_veth_pair ns veth_host veth_peer host_ips peer_ips =
      run_steps (veth_steps ns veth_host veth_peer host_ips peer_ips)

  unfoldable pub create_gateway_topology : Gateway → Plan → Call (Unit {0})
  create_gateway_topology g a = do
    create_netns w g.router_ns
    create_netns w g.server_ns
    run_steps (gateway_steps g a)
