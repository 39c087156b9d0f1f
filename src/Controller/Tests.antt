-- ===== src/Controller/Tests.antt =====
-- The controller on small machines.
use network_sandbox_engine.Prelude.{
  ℕ, Text, codes, contains, text_eq, starts_with, Bool, true, false, [], ◌∷◌, ◌≡◌, refl, inr,
}
use network_sandbox_engine.Paths.{
  resolve_once, search_dirs, is_safely_owned, is_root_only, is_runnable, others_write, parent,
  candidate,
}
use network_sandbox_engine.Shell.{
  System, World, ok, Call, ◌>>◌, raise, find, run_unchecked, run, exec_prefix, in_root, in_netns,
}
use network_sandbox_engine.Exceptions.{Exception}
use network_sandbox_engine.Shell.Sample.{files, world}
use network_sandbox_engine.Shell.Runs.{Adds, Runs, Always}
use network_sandbox_engine.Controller.Lifecycle.{create_netns, destroy_netns, disable_dad}
use network_sandbox_engine.Controller.Lifecycle.Destroy.{Destroyed, destroy_netns-Destroyed}
use network_sandbox_engine.Controller.Lifecycle.Cleanup.{Starts}
use network_sandbox_engine.Controller.Sweep.{startup_sweep}
use network_sandbox_engine.Controller.Sweep.Safe.{IsSweep, startup_sweep-safe}
use network_sandbox_engine.Controller.Topology.{
  Gateway, default_plan, create_veth_pair, create_gateway_topology, veth_steps, run_steps, pick,
  pick_from, or_default,
}
use network_sandbox_engine.Controller.Topology.Trusted.{IsTrusted, create_topology-Trusted}
use network_sandbox_engine.Controller.Sandbox.{setup, create_namespace}
use network_sandbox_engine.Controller.Sandbox.Cleans.{create_namespace-cleans}

-- every command succeeds, and prints the names of two namespaces
abbrev healthy : World
healthy = world 0 (codes "nse_ab12cd34\nproduction\n") []

-- every command fails
abbrev busy : World
busy = world 1 [] (codes "Device or resource busy")

abbrev start : System
start = record { ran = []; active_ns = codes "nse_1" ∷ codes "nse_2" ∷ []; temp_files = [] }

-- What a test computes with.
runs : Bool
unfolding resolve_once search_dirs is_safely_owned is_root_only is_runnable others_write parent
    candidate contains text_eq starts_with find run_unchecked run exec_prefix in_root in_netns
    create_netns disable_dad create_veth_pair veth_steps run_steps pick pick_from or_default
runs = true

abbrev ip : Text
ip = codes "/sbin/ip"

ip_found : resolve_once files (codes "ip") ≡ inr ip
unfolding runs
ip_found = refl

healthy-Starts : Starts healthy ip ip_found
healthy-Starts s cmd t e = absurd (cc)

startup_sweep-safe_example :
    ((startup_sweep healthy start).0 ≡ ok tt)
    × Adds (IsSweep healthy) start (startup_sweep healthy start).1
startup_sweep-safe_example = startup_sweep-safe healthy start

destroy_netns-Destroyed_example :
    Destroyed busy
      (codes "nse_1")
      ip
      ip_found
      start
      (destroy_netns busy (codes "nse_1") start).0
      (destroy_netns busy (codes "nse_1") start).1
destroy_netns-Destroyed_example = destroy_netns-Destroyed busy (codes "nse_1") ip ip_found start

abbrev gateway : Gateway
gateway = record {
  router_ns = codes "nsr_1";
  server_ns = codes "nss_1";
  veth_host = codes "vh-1";
  veth_router_host = codes "vr-1";
  veth_router_server = codes "vs-1";
  veth_server = codes "vp-1";
}

create_topology-Trusted_example :
    Runs (IsTrusted healthy) Always (create_gateway_topology healthy gateway default_plan)
    × Runs (IsTrusted healthy) Always (
        create_netns healthy (codes "nse_1")
        >> create_veth_pair healthy (codes "nse_1") (codes "vh-1") (codes "vp-1") [] [])
create_topology-Trusted_example =
    create_topology-Trusted healthy gateway default_plan (codes "nse_1") (codes "vh-1")
      (codes "vp-1") [] []

-- the body of an `async with`, which raises
abbrev body : Call ℕ
body = raise (Exception.os_error (codes "lost"))

abbrev after_setup : System
after_setup = (setup healthy (codes "web") [] [] start).1

set_up : setup healthy (codes "web") [] [] start ≡ (ok tt, after_setup)
unfolding runs
set_up = refl

create_namespace-cleans_example :
    ((create_namespace healthy (codes "web") [] [] body start).0 ≡ (body after_setup).0)
    × (contains (codes "web") (create_namespace healthy (codes "web") [] [] body start).1.active_ns
        ≡ false)
create_namespace-cleans_example =
    create_namespace-cleans healthy ip ip_found healthy-Starts (codes "web") [] [] body start
      after_setup set_up (λ e. absurd (cc))
