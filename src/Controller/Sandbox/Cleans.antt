-- ===== src/Controller/Sandbox/Cleans.antt =====
-- What an `async with` over a namespace leaves.
use network_sandbox_engine.Prelude.{
  Text, codes, contains, false, List, [], ◌∷◌, ◌≡◌, ◌≢◌, refl, ◌∙◌, arith, inl, inr, ◌==◌,
  Bool-cases, text_eq_iff,
}
use network_sandbox_engine.Exceptions.{is_os_error}
use network_sandbox_engine.Paths.{resolve_once}
use network_sandbox_engine.Shell.{
  Argv, System, Process, exited, killed, not_started, World, ok, Call, suppressed,
}
use network_sandbox_engine.Shell.Ends.{in_root-eq, run-eq, after_run, verdict}
use network_sandbox_engine.Controller.Lifecycle.{discard}
use network_sandbox_engine.Controller.Lifecycle.Cleanup.{Starts, destroy_netns-ok}
use network_sandbox_engine.Controller.Sandbox.{ext_iface, setup, cleanup, create_namespace}

pub discard-none : (name : Text) (names : List Text) → contains name (discard name names) ≡ false
unfolding contains discard
discard-none name [] = refl
discard-none name (n ∷ names) =
    ground (arith, discard-none name names, text_eq_iff n name, text_eq_iff name n)

module _ (w : World) (ip : Text) (found : resolve_once w.fs (codes "ip") ≡ inr ip)
    (starts : Starts w ip found) where
  abbrev link_deletion : Text → Argv
  link_deletion name = ip ∷ codes "link" ∷ codes "del" ∷ ext_iface name ∷ []

  suppressed-verdict :
      (name : Text) (q : Process)
      → q ≢ killed
      → suppressed (verdict w (link_deletion name) q) ≡ ok tt
  unfolding is_os_error
  suppressed-verdict name (exited status out err) k = elim (Bool-cases (status == 0)) [
    | inl z ↦ rw z refl
    | inr z ↦ rw z refl
  ]
  suppressed-verdict name killed k = absurd (k refl)
  suppressed-verdict name (not_started t) k = refl

  -- The `finally` block ends in silence unless the deletion of the link times out.
  cleanup-ok :
      (name : Text) (s : System)
      → w.process s (link_deletion name) ≢ killed
      → ((cleanup w name s).0 ≡ ok tt) × (contains name (cleanup w name s).1.active_ns ≡ false)
  cleanup-ok name s k =
      let args = codes "link" ∷ codes "del" ∷ ext_iface name ∷ [] in
      let e = in_root-eq w (codes "ip") ip args s found ∙ run-eq w (link_deletion name) s in
      let s₁ = after_run w (link_deletion name) s in
      let (r, n) = destroy_netns-ok w ip found starts name s₁ in
      rw (e, suppressed-verdict name (w.process s (link_deletion name)) k, r)
        (refl, rw n (discard-none name s.active_ns))

  -- An `async with` whose setup succeeded ends as its body does, also if that raises, and the namespace
  -- is no longer one of the controller: where `ip` is found, every process is started, and the deletion
  -- of the link does not time out.
  pub create_namespace-cleans :
      {X : Type 0} (name : Text) (host_ips peer_ips : List Text) (body : Call X) (s s₁ : System)
      → setup w name host_ips peer_ips s ≡ (ok tt, s₁)
      → w.process (body s₁).1 (link_deletion name) ≢ killed
      → ((create_namespace w name host_ips peer_ips body s).0 ≡ (body s₁).0)
        × (contains name (create_namespace w name host_ips peer_ips body s).1.active_ns ≡ false)
  unfolding create_namespace
  create_namespace-cleans name host_ips peer_ips body s s₁ e k =
      let (r, n) = cleanup-ok name (body s₁).1 k in rw (e, r) (refl, n)
