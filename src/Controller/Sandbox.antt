-- ===== src/Controller/Sandbox.antt =====
-- `NamespaceSandbox` and `create_namespace` of nse/core/netns_controller.py. The code that runs under
-- the `async with` is an argument.
pub mod Cleans
use network_sandbox_engine.Prelude.{
  false, Bool, Option, none, some, given, any, ℕ, Text, codes, take, split_words, ◌==◌, List, [],
  ◌∷◌, ◌++◌, if◌then◌else◌,
}
use network_sandbox_engine.Prelude.Int.{ℤ}
use network_sandbox_engine.Exceptions.{Exception}
use network_sandbox_engine.Models.Request.{Protocol, make_packet}
use network_sandbox_engine.Injector.{Host, inject}
use network_sandbox_engine.Shell.{
  raise, Argv, World, Result, failed, Call, ◌>>=◌, ◌>>◌, pure, finally, suppress, Completed,
  run_unchecked, exec_prefix, in_root, in_netns,
}
use network_sandbox_engine.Controller.Lifecycle.{create_netns, destroy_netns}
use network_sandbox_engine.Controller.Topology.{create_veth_pair}

-- the names that a sandbox derives from its own
abbrev pub ext_iface : Text → Text
ext_iface name = codes "vhr-" ++ take 8 name

abbrev pub peer_iface : Text → Text
peer_iface name = codes "vrh-" ++ take 8 name

module _ (w : World) where
  abbrev pub setup : Text → List Text → List Text → Call (Unit {0})
  setup name host_ips peer_ips = do
    create_netns w name
    in_netns w name (codes "ip") (codes "link" ∷ codes "set" ∷ codes "lo" ∷ codes "up" ∷ [])
    create_veth_pair w name (ext_iface name) (peer_iface name) host_ips peer_ips

  abbrev pub cleanup : Text → Call (Unit {0})
  cleanup name = do
    suppress (in_root w (codes "ip") (codes "link" ∷ codes "del" ∷ ext_iface name ∷ []))
    destroy_netns w name

  unfoldable pub create_namespace : {X : Type 0} → Text → List Text → List Text → Call X → Call X
  create_namespace name host_ips peer_ips body = do
    setup name host_ips peer_ips
    finally body (cleanup name)

  checked_exec : Argv → Completed → Call Completed
  checked_exec cmd done =
      if done.returncode == 0 then pure done else λ s. (failed cmd done.returncode done.stderr, s)

  -- `NamespaceSandbox.exec`, whose process has no timeout
  unfoldable pub exec : Text → Text → Call Completed
  unfolding checked_exec
  exec name command = do
    prefix ← exec_prefix w name
    done ← run_unchecked w (prefix ++ split_words command)
    checked_exec (prefix ++ split_words command) done

  -- `src_ip or ...`
  abbrev source_for : Option Text → Text → Text
  source_for src_ip dst_ip = elim (given src_ip) [
    | some ip ↦ ip
    | none ↦ if any (λ c. c == b'.') dst_ip then codes "10.0.1.1" else codes "fd00:1::1"
  ]

  -- `NamespaceSandbox.inject_packet`: the injector is a new one, which never uses nsenter. `is_ip` is the
  -- test of pydantic and `invalid` the text of its ValidationError.
  unfoldable pub inject_packet :
      Host → (Text → Bool) → Text → Protocol → ℤ → Text → Option Text → Text → Call (Unit {0})
  inject_packet host is_ip invalid protocol dst_port dst_ip src_ip name =
      elim (make_packet is_ip protocol (source_for src_ip dst_ip) dst_ip none (some dst_port) []) [
        | none ↦ raise (Exception.value_error invalid)
        | some spec ↦
            inject (record w { use_nsenter = false }) host spec name (ext_iface name)
              (peer_iface name) none
      ]
