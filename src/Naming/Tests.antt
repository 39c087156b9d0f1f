-- ===== src/Naming/Tests.antt =====
-- The names of a run.
use network_sandbox_engine.Prelude.{codes, starts_with, any, all, true, ◌≡◌}
use network_sandbox_engine.Naming.{
  derive_names, interfaces, namespaces, netns_sweep_prefixes, veth_sweep_prefixes,
}
use network_sandbox_engine.Naming.Laws.{derive_names-swept}

derive_names-swept_example :
    (all
        (λ name. any (λ p. starts_with name p) netns_sweep_prefixes)
        (namespaces (derive_names (codes "0123456789ab")))
      ≡ true)
    × (all
          (λ name. any (λ p. starts_with name p) veth_sweep_prefixes)
          (interfaces (derive_names (codes "0123456789ab")))
        ≡ true)
derive_names-swept_example = derive_names-swept (codes "0123456789ab")
