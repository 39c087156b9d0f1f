-- ===== src/Naming/Laws.antt =====
-- What the kernel and the cleanup need of the names.
use network_sandbox_engine.Prelude.{Text, starts_with, true, any, all, ◌≡◌, refl}
use network_sandbox_engine.Naming.{
  derive_names, netns_sweep_prefixes, veth_sweep_prefixes, namespaces, interfaces,
}

-- The sweep for what an earlier process left behind covers every name that is derived.
pub derive_names-swept :
    (test_id : Text)
    → (all
          (λ name. any (λ p. starts_with name p) netns_sweep_prefixes)
          (namespaces (derive_names test_id))
        ≡ true)
      × (all
            (λ name. any (λ p. starts_with name p) veth_sweep_prefixes)
            (interfaces (derive_names test_id))
          ≡ true)
unfolding derive_names starts_with
derive_names-swept test_id = (refl, refl)
