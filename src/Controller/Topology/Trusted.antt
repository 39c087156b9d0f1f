-- ===== src/Controller/Topology/Trusted.antt =====
-- Which programs the setup of a topology runs as root.
use network_sandbox_engine.Prelude.{
  Text, codes, text_eq, starts_with, all, Bool, true, not, ◌&&◌, ◌||◌, List, [], ◌∷◌, ◌++◌, ◌≡◌,
  refl, arith,
}
use network_sandbox_engine.Paths.Search.{Trusted}
use network_sandbox_engine.Shell.{Argv, World, ◌>>◌, in_root, in_netns}
use network_sandbox_engine.Shell.Runs.{
  Runs, Always, IsPrefix, Runs-pure, Runs-then, Runs-in_root, Runs-in_netns, Runs-tolerate,
  Adds-same,
}
use network_sandbox_engine.Controller.Lifecycle.{activate, create_netns, disable_dad}
use network_sandbox_engine.Controller.Topology.{
  Step, root, inside, veth_steps, Gateway, Plan, gateway_steps, gateway_links, gateway_routes,
  run_steps, create_veth_pair, create_gateway_topology,
}

-- Arguments that do not make `ip` or `nsenter` run another program.
abbrev pub is_plain : List Text → Bool
is_plain [] = true
is_plain (a ∷ args) =
    not (starts_with a (codes "--"))
    && (not (text_eq a (codes "netns"))
        || elim args [ [] ↦ true | b ∷ _ ↦ not (text_eq b (codes "exec")) ])

abbrev is_plain_step : Step → Bool
is_plain_step (root binary args) = is_plain args
is_plain_step (inside ns binary args) = true

module _ (w : World) where
  -- A command each of whose programs is one that only root can replace: the command itself, or the
  -- prefix that changes the namespace and the program behind it.
  pub data IsTrusted : Argv → Type 0 where
    direct :
        {p : Text} {args : List Text} → Trusted w.fs p → is_plain args ≡ true → IsTrusted (p ∷ args)
    within :
        (ns : Text) (prefix : Argv) (p : Text) (args : List Text)
        → IsPrefix w ns prefix
        → Trusted w.fs p
        → IsTrusted (prefix ++ p ∷ args)

  Runs-root :
      (binary : Text) (args : List Text)
      → is_plain args ≡ true
      → Runs IsTrusted Always (in_root w binary args)
  Runs-root binary args e = Runs-in_root w binary args (λ p t. direct t e)

  Runs-inside :
      (ns binary : Text) (args : List Text) → Runs IsTrusted Always (in_netns w ns binary args)
  Runs-inside ns binary args =
      Runs-in_netns w ns binary args (λ prefix p i t. within ns prefix p args i t)

  Runs-steps :
      (steps : List Step)
      → all is_plain_step steps ≡ true
      → Runs IsTrusted Always (run_steps w steps)
  unfolding run_steps
  Runs-steps [] e = Runs-pure tt tt
  Runs-steps (root binary args ∷ steps) e =
      Runs-then _ _ (Runs-root binary args (ground arith)) (Runs-steps steps (ground arith))
  Runs-steps (inside ns binary args ∷ steps) e =
      Runs-then _ _ (Runs-inside ns binary args) (Runs-steps steps e)

  Runs-activate : (name : Text) → Runs IsTrusted Always (activate name)
  Runs-activate name = record { at = λ s. Adds-same _ _ refl; value = λ s x h. tt }

  Runs-disable_dad : (name : Text) → Runs IsTrusted Always (disable_dad w name)
  unfolding disable_dad
  Runs-disable_dad name = Runs-tolerate _ (
      Runs-then _ _
        (Runs-inside name (codes "sysctl")
          (codes "-w" ∷ codes "net.ipv6.conf.all.accept_dad=0" ∷ []))
        (Runs-inside name (codes "sysctl")
          (codes "-w" ∷ codes "net.ipv6.conf.default.accept_dad=0" ∷ [])))

  Runs-create_netns : (name : Text) → Runs IsTrusted Always (create_netns w name)
  unfolding create_netns text_eq starts_with
  Runs-create_netns name =
      Runs-then _ _ (Runs-root (codes "ip") (codes "netns" ∷ codes "add" ∷ name ∷ []) refl)
        (Runs-then (activate name) _ (Runs-activate name) (Runs-disable_dad name))

  -- Whatever the names, the addresses and the ends of the processes are, the setup of either topology
  -- runs only programs that only root can replace, also behind the prefix of a namespace.
  pub create_topology-Trusted :
      (g : Gateway) (a : Plan) (ns veth_host veth_peer : Text) (host_ips peer_ips : List Text)
      → Runs IsTrusted Always (create_gateway_topology w g a)
        × Runs IsTrusted Always
            (create_netns w ns >> create_veth_pair w ns veth_host veth_peer host_ips peer_ips)
  unfolding create_gateway_topology create_veth_pair gateway_steps gateway_links gateway_routes
      veth_steps text_eq starts_with
  create_topology-Trusted g a ns veth_host veth_peer host_ips peer_ips = (
    Runs-then _ _ (Runs-create_netns g.router_ns)
        (Runs-then _ _ (Runs-create_netns g.server_ns) (Runs-steps (gateway_steps g a) refl)),
    Runs-then _ _ (Runs-create_netns ns)
        (Runs-steps (veth_steps ns veth_host veth_peer host_ips peer_ips) refl),
  )
