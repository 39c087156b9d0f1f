-- ===== src/Pipeline/Topology/Cleared.antt =====
-- What a run leaves of its topology.
use network_sandbox_engine.Prelude.{
  Text, codes, contains, text_eq, text_eq_iff, false, not, ◌&&◌, List, [], ◌∷◌, All, ◌≡◌, ◌≢◌, refl,
  sym, subst, arith, inr,
}
use network_sandbox_engine.Models.Request.{TopologyType}
use network_sandbox_engine.Naming.{NamespaceNames}
use network_sandbox_engine.Paths.{resolve_once}
use network_sandbox_engine.Shell.{
  Argv, System, Process, exited, killed, not_started, World, Result, ok, Call, ◌>>◌, run_unchecked,
}
use network_sandbox_engine.Shell.Ends.{find-eq}
use network_sandbox_engine.Controller.Lifecycle.{destroy_netns, discard}
use network_sandbox_engine.Controller.Lifecycle.Cleanup.{Starts, destroy_netns-ok}
use network_sandbox_engine.Controller.Sandbox.Cleans.{discard-none}
use network_sandbox_engine.Pipeline.Topology.{
  created, create_topology, destroy_topology, delete_link, teardown, with_topology,
}

contains-discard :
    (n name : Text) (names : List Text)
    → contains n (discard name names) ≡ (contains n names && not (text_eq n name))
unfolding contains discard
contains-discard n name [] = refl
contains-discard n name (m ∷ names) =
    ground (
      arith,
      contains-discard n name names,
      text_eq_iff n m,
      text_eq_iff m name,
      text_eq_iff n name,
    )

module _ (w : World) (ip : Text) (found : resolve_once w.fs (codes "ip") ≡ inr ip)
    (starts : Starts w ip found) where
  abbrev pub Gone : List Text → List Text → Type 0
  Gone names active = All (λ n. contains n active ≡ false) names

  gone-first : (n : Text) (s : System) → contains n (destroy_netns w n s).1.active_ns ≡ false
  gone-first n s = rw (destroy_netns-ok w ip found starts n s).1 (discard-none n s.active_ns)

  gone-second :
      (n m : Text) (s : System)
      → contains n s.active_ns ≡ false
      → contains n (destroy_netns w m s).1.active_ns ≡ false
  gone-second n m s e =
      rw ((destroy_netns-ok w ip found starts m s).1, contains-discard n m s.active_ns, e) refl

  destroy_topology-Gone :
      (t : TopologyType) (n : NamespaceNames) (s : System)
      → ((destroy_topology w t n s).0 ≡ ok tt)
        × Gone (created t n) (destroy_topology w t n s).1.active_ns
  unfolding destroy_topology
  destroy_topology-Gone TopologyType.gateway n s =
      let s₁ = (destroy_netns w n.router_ns s).1 in
      let (r, e) = destroy_netns-ok w ip found starts n.router_ns s in
      let (r', e') = destroy_netns-ok w ip found starts n.server_ns s₁ in
      rw r (
        r',
        (
          gone-second n.router_ns n.server_ns s₁ (gone-first n.router_ns s),
          (gone-first n.server_ns s₁, tt),
        ),
      )
  destroy_topology-Gone TopologyType.simple n s =
      let (r, e) = destroy_netns-ok w ip found starts n.netns s in (r, (gone-first n.netns s, tt))

  module _ (n : NamespaceNames) where
    abbrev link_deletion : Argv
    link_deletion = ip ∷ codes "link" ∷ codes "del" ∷ n.veth_host ∷ []

    -- The deletion of the link has no timeout.
    abbrev pub Waits : Type 0
    Waits = (s : System) → w.process s link_deletion ≢ killed

    module _ (waits : Waits) where
      delete_link-ok :
          (s : System)
          → ((delete_link w n.veth_host s).0 ≡ ok tt)
            × ((delete_link w n.veth_host s).1.active_ns ≡ s.active_ns)
      unfolding delete_link run_unchecked
      delete_link-ok s = go (w.process s link_deletion) refl
        where
          go :
              (p : Process)
              → w.process s link_deletion ≡ p
              → ((delete_link w n.veth_host s).0 ≡ ok tt)
                × ((delete_link w n.veth_host s).1.active_ns ≡ s.active_ns)
          go (exited status out err) e = rw (find-eq w (codes "ip") ip s found, e) (refl, refl)
          go killed e = absurd (waits s e)
          go (not_started t) e = absurd (starts s link_deletion t e)

      pub teardown-Gone :
          (t : TopologyType) (s : System)
          → ((teardown w t n s).0 ≡ ok tt) × Gone (created t n) (teardown w t n s).1.active_ns
      unfolding teardown
      teardown-Gone t s =
          let s₁ = (destroy_topology w t n s).1 in
          let (r, g) = destroy_topology-Gone t n s in
          let (r', e) = delete_link-ok s₁ in rw r (r', subst (Gone (created t n)) (sym e) g)

      -- Wherever the setup of the topology or a later step fails, and whatever the handlers do, the run
      -- ends as its handlers do and no namespace of its topology is left with the controller: where `ip`
      -- is found, every process is started, and the deletion of the link ends.
      pub with_topology-Cleared :
          {X : Type 0} (t : TopologyType) (rest : Call X) (handlers : Result X → Call X)
          (s : System)
          → let (r, s₁) = (create_topology w t n >> rest) s in
            ((with_topology w t n rest handlers s).0 ≡ (handlers r s₁).0)
            × Gone (created t n) (with_topology w t n rest handlers s).1.active_ns
      unfolding with_topology
      with_topology-Cleared t rest handlers s =
          let (r, s₁) = (create_topology w t n >> rest) s in
          let (e, g) = teardown-Gone t (handlers r s₁).1 in rw e (refl, g)
