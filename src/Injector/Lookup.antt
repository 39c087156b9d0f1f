-- ===== src/Injector/Lookup.antt =====
-- Where the addresses of a packet come from.
use network_sandbox_engine.Prelude.{
  Text, codes, given, Option, none, some, [], ◌∷◌, ◌++◌, ◌≡◌, refl, subst, ◌∙◌, ap, Bool-cases,
  Option-cases, inl, inr, ◌==◌, ==_iff,
}
use network_sandbox_engine.Shell.{
  Argv, System, World, exited, Result, ok, failed, expired, raised, Completed, find, run_unchecked,
}
use network_sandbox_engine.Shell.Runs.{
  Always, IsProgram, IsPrefix, Runs-find, Runs-exec_prefix, ok-injective,
}
use network_sandbox_engine.Shell.Returned.{bind-Returned, run_unchecked-exited}
use network_sandbox_engine.Injector.Mac.{search_mac}
use network_sandbox_engine.Injector.{
  Host, netns_prefix, read_mac, get_mac_address, both_macs, look_up_macs,
}

module _ (w : World) where
  -- Where a lookup runs: in the namespace of that name, or here.
  pub data IsEntry (netns : Option Text) : Argv → Type 0 where
    here : given netns ≡ none → IsEntry netns []
    entered :
        {prefix : Argv} (name : Text)
        → given netns ≡ some name
        → IsPrefix w name prefix
        → IsEntry netns prefix

  -- `ip` was asked for the interface, in its namespace, and its output names the address.
  pub record HasMac (interface : Text) (netns : Option Text) (mac : Text) : Type 0 where
    pub before : System
    pub prefix : Argv
    pub ip : Text
    pub out : Text
    pub err : Text
    pub enters : IsEntry netns prefix
    pub resolved : IsProgram w ip
    pub exits :
        w.process before
          (prefix ++ ip ∷ codes "-o" ∷ codes "link" ∷ codes "show" ∷ codes "dev" ∷ interface ∷ [])
        ≡ exited 0 out err
    pub found : search_mac out ≡ some mac

  module _ (host : Host) where
    netns_prefix-IsEntry :
        (netns : Option Text) (s : System) (prefix : Argv)
        → (netns_prefix w host netns s).0 ≡ ok prefix
        → IsEntry netns prefix
    unfolding netns_prefix
    netns_prefix-IsEntry netns s prefix e = elim (Option-cases (given netns)) [
      | inl g ↦ subst (IsEntry netns) (ok-injective (rw (g, netns_prefix) at e)) (here g)
      | inr (name, g) ↦
          entered name g
            ((Runs-exec_prefix {Q = Always} w name).value s prefix (rw (g, netns_prefix) at e))
    ]

    record Parsed (done : Completed) (mac : Text) : Type 0 where
      status : done.returncode ≡ 0
      found : search_mac done.stdout ≡ some mac

    read_mac-Parsed :
        (interface : Text) (cmd : Argv) (done : Completed) (s : System) (mac : Text)
        → (read_mac w host interface cmd done s).0 ≡ ok mac
        → Parsed done mac
    unfolding read_mac
    read_mac-Parsed interface cmd done s mac e = elim (Bool-cases (done.returncode == 0)) [
      | inl z ↦ elim (Option-cases (search_mac done.stdout)) [
        | inl n ↦ absurd (cc (rw (z, n, read_mac) at e))
        | inr (m, n) ↦ record {
          status = (==_iff done.returncode 0).0 z;
          found = n ∙ ap some (ok-injective (rw (z, n, read_mac) at e));
        }
      ]
      | inr z ↦ absurd (cc (rw (z, read_mac) at e))
    ]

    pub get_mac_address-HasMac :
        (interface : Text) (netns : Option Text) (s : System) (mac : Text)
        → (get_mac_address w host interface netns s).0 ≡ ok mac
        → HasMac interface netns mac
    unfolding get_mac_address
    get_mac_address-HasMac interface netns s mac h =
        let a = bind-Returned (netns_prefix w host netns) _ s mac h in
        let s₁ = (netns_prefix w host netns s).1 in
        let b = bind-Returned (find w (codes "ip")) _ s₁ mac a.rest in
        let s₂ = (find w (codes "ip") s₁).1 in
        let cmd =
          a.first
          ++ b.first ∷ codes "-o" ∷ codes "link" ∷ codes "show" ∷ codes "dev" ∷ interface ∷ [] in
        let c = bind-Returned (run_unchecked w cmd) (read_mac w host interface cmd) s₂ mac b.rest in
        let d = run_unchecked-exited w cmd s₂ c.first c.returns in
        let p = read_mac-Parsed interface cmd c.first _ mac c.rest in
        record {
          before = s₂;
          prefix = a.first;
          ip = b.first;
          out = c.first.stdout;
          err = c.first.stderr;
          enters = netns_prefix-IsEntry netns s a.first a.returns;
          resolved = (Runs-find {Q = Always} w (codes "ip")).value s₁ b.first b.returns;
          exits = d ∙ ap (λ n. exited n c.first.stdout c.first.stderr) p.status;
          found = p.found;
        }

    pub look_up_macs-both :
        (veth_host : Text) (host_netns : Option Text) (veth_peer netns_name : Text) (s : System)
        (macs : Text × Text)
        → (look_up_macs w host veth_host host_netns veth_peer netns_name s).0 ≡ ok macs
        → (both_macs w host veth_host host_netns veth_peer netns_name s).0 ≡ ok macs
    unfolding look_up_macs
    look_up_macs-both veth_host host_netns veth_peer netns_name s macs h =
        go (both_macs w host veth_host host_netns veth_peer netns_name s).0 refl
      where
        go :
            (r : Result (Text × Text))
            → (both_macs w host veth_host host_netns veth_peer netns_name s).0 ≡ r
            → (both_macs w host veth_host host_netns veth_peer netns_name s).0 ≡ ok macs
        go (ok x) e = e ∙ (rw (e, look_up_macs) at h)
        go (failed _ _ _) e = absurd (cc (rw (e, look_up_macs) at h))
        go (expired _) e = absurd (cc (rw (e, look_up_macs) at h))
        go (raised _) e = absurd (cc (rw (e, look_up_macs) at h))
