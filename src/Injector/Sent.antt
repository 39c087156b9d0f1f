-- ===== src/Injector/Sent.antt =====
-- What it takes for a packet to be sent.
use network_sandbox_engine.Prelude.{
  Text, codes, contains, text_eq, true, false, Option, none, some, [], ◌∷◌, ◌++◌, ◌≡◌, ◌≢◌, sym,
  subst, ◌∙◌, ap, Bool-cases, Option-cases, inl, inr, ◌==◌, ==_iff,
}
use network_sandbox_engine.Models.Request.{PacketSpec}
use network_sandbox_engine.Shell.{
  Argv, System, World, exited, ok, Completed, run_unchecked, exec_prefix,
}
use network_sandbox_engine.Shell.Runs.{Always, IsPrefix, Runs-exec_prefix, ok-injective}
use network_sandbox_engine.Shell.Returned.{bind-Returned, run_unchecked-exited}
use network_sandbox_engine.Injector.Script.{program_of, build_scapy_script-forge}
use network_sandbox_engine.Injector.{
  Host, forge, build_scapy_script, sandbox_ips, get_mac_address, look_up_macs, send_here,
  script_result, send_inside, send_packet, inject,
}
use network_sandbox_engine.Injector.Lookup.{HasMac, get_mac_address-HasMac, look_up_macs-both}

module _ (w : World) where
  module _ (host : Host) where
    -- The packet has left: through scapy in this process, or through a program for the same packet that
    -- ran inside the namespace and exited with 0.
    pub data Departed (spec : PacketSpec) (netns_name veth_host veth_peer host_mac peer_mac : Text)
        : Type 0 where
      incoming :
          contains spec.src_ip sandbox_ips ≡ false
          → (before : System) → host.send before (forge spec host_mac peer_mac) veth_host ≡ none
          → Departed spec netns_name veth_host veth_peer host_mac peer_mac
      outgoing :
          contains spec.src_ip sandbox_ips ≡ true
          → (before : System) (prefix : Argv) (out err : Text) → IsPrefix w netns_name prefix
          → w.process before (
              prefix
              ++ host.executable
                ∷ codes "-c"
                ∷ program_of host.repr (forge spec peer_mac host_mac) veth_peer
                ∷ [])
            ≡ exited 0 out err
          → Departed spec netns_name veth_host veth_peer host_mac peer_mac

    script_result-zero :
        (done : Completed) (s : System)
        → (script_result w host done s).0 ≡ ok tt
        → done.returncode ≡ 0
    unfolding script_result
    script_result-zero done s h = elim (Bool-cases (done.returncode == 0)) [
      | inl e ↦ (==_iff done.returncode 0).0 e
      | inr e ↦ absurd (cc (rw (e, script_result) at h))
    ]

    sandbox_ips-given : (ip : Text) → contains ip sandbox_ips ≡ true → ip ≢ []
    unfolding contains text_eq
    sandbox_ips-given [] e n = absurd (cc)
    sandbox_ips-given (c ∷ t) e n = absurd (cc)

    send_packet-Departed :
        (spec : PacketSpec) (netns_name veth_host veth_peer host_mac peer_mac : Text) (s : System)
        → spec.dst_ip ≢ []
        → (send_packet w host spec netns_name veth_host veth_peer (host_mac, peer_mac) s).0 ≡ ok tt
        → Departed spec netns_name veth_host veth_peer host_mac peer_mac
    unfolding send_packet send_inside send_here
    send_packet-Departed spec netns_name veth_host veth_peer host_mac peer_mac s d h =
        elim (Bool-cases (contains spec.src_ip sandbox_ips)) [
          | inl c ↦ inside c (rw (c, send_packet) at h)
          | inr c ↦ here_ c (rw (c, send_packet) at h)
        ]
      where
        script : Text
        script = build_scapy_script host.repr spec veth_peer peer_mac host_mac

        inside :
            contains spec.src_ip sandbox_ips ≡ true
            → (send_inside w host netns_name script s).0 ≡ ok tt
            → Departed spec netns_name veth_host veth_peer host_mac peer_mac
        inside c h =
            let a = bind-Returned (exec_prefix w netns_name) _ s tt h in
            let s₁ = (exec_prefix w netns_name s).1 in
            let cmd = a.first ++ host.executable ∷ codes "-c" ∷ script ∷ [] in
            let b = bind-Returned (run_unchecked w cmd) (script_result w host) s₁ tt a.rest in
            let e = run_unchecked-exited w cmd s₁ b.first b.returns in
            outgoing c s₁ a.first b.first.stdout b.first.stderr
              ((Runs-exec_prefix {Q = Always} w netns_name).value s a.first a.returns)
              (ap (λ t. w.process s₁ (a.first ++ host.executable ∷ codes "-c" ∷ t ∷ []))
                  (sym (
                    build_scapy_script-forge host.repr spec veth_peer peer_mac host_mac
                      (sandbox_ips-given spec.src_ip c) d))
                ∙ e
                ∙ ap (λ n. exited n b.first.stdout b.first.stderr)
                    (script_result-zero b.first _ b.rest))

        here_ :
            contains spec.src_ip sandbox_ips ≡ false
            → (send_here w host (forge spec host_mac peer_mac) veth_host s).0 ≡ ok tt
            → Departed spec netns_name veth_host veth_peer host_mac peer_mac
        here_ c h = elim (Option-cases (host.send s (forge spec host_mac peer_mac) veth_host)) [
          | inl n ↦ incoming c s n
          | inr (e, n) ↦ absurd (cc (rw (n, send_here) at h))
        ]

    -- An injection that ends without an exception has read the addresses of both interfaces, each in its
    -- namespace, from an `ip` that exited with 0, and the packet has left: from the host's interface,
    -- or, if its source is an address of the sandbox, from the peer's inside the namespace with the two
    -- addresses exchanged; where the destination is not empty.
    pub inject-Departed :
        (spec : PacketSpec) (netns_name veth_host veth_peer : Text) (host_netns : Option Text)
        (s : System)
        → spec.dst_ip ≢ []
        → (inject w host spec netns_name veth_host veth_peer host_netns s).0 ≡ ok tt
        → (host_mac : Text) × (peer_mac : Text) × HasMac w veth_host host_netns host_mac
          × HasMac w veth_peer (some netns_name) peer_mac
          × Departed spec netns_name veth_host veth_peer host_mac peer_mac
    unfolding inject
    inject-Departed spec netns_name veth_host veth_peer host_netns s d h =
        let a =
          bind-Returned (look_up_macs w host veth_host host_netns veth_peer netns_name) _ s tt h in
        let both =
          look_up_macs-both w host veth_host host_netns veth_peer netns_name s a.first a.returns in
        let b = bind-Returned (get_mac_address w host veth_host host_netns) _ s a.first both in
        let s₁ = (get_mac_address w host veth_host host_netns s).1 in
        let c =
          bind-Returned (get_mac_address w host veth_peer (some netns_name)) _ s₁ a.first b.rest in
        let e = ok-injective c.rest in
        (
          b.first,
          c.first,
          get_mac_address-HasMac w host veth_host host_netns s b.first b.returns,
          get_mac_address-HasMac w host veth_peer (some netns_name) s₁ c.first c.returns,
          send_packet-Departed spec netns_name veth_host veth_peer b.first c.first _ d (
              subst
                (λ macs.
                  (send_packet w host spec netns_name veth_host veth_peer macs
                    (look_up_macs w host veth_host host_netns veth_peer netns_name s).1).0
                  ≡ ok tt)
                (sym e) a.rest),
        )
