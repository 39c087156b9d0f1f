-- ===== src/Controller/Sweep/Safe.antt =====
-- What the sweep at the start may delete.
use network_sandbox_engine.Prelude.{
  Text, codes, any, ◌==◌, true, List, [], ◌∷◌, ◌≡◌, refl, split_lines,
}
use network_sandbox_engine.Naming.{netns_sweep_prefixes, veth_sweep_prefixes}
use network_sandbox_engine.Paths.Search.{Trusted}
use network_sandbox_engine.Shell.{Argv, System, World, ok, Call, find, run_unchecked}
use network_sandbox_engine.Shell.Runs.{
  Adds, Runs, Always, Runs-pure, Runs-bind, Runs-then, Runs-if, Runs-when, Runs-find,
  Runs-unchecked, Runs-ignore_errors,
}
use network_sandbox_engine.Controller.Sweep.{
  has_prefix, first_word, iface_of, discarded, sweep_netns_line, sweep_link_line, for_lines, sweep,
  startup_sweep,
}

module _ (w : World) where
  -- A command that lists, or that deletes a namespace or a link with a name of the engine.
  pub data IsSweep : Argv → Type 0 where
    lists_netns : {p : Text} → Trusted w.fs p → IsSweep (p ∷ codes "netns" ∷ codes "list" ∷ [])
    lists_links : {p : Text} → Trusted w.fs p → IsSweep (p ∷ codes "link" ∷ codes "show" ∷ [])
    deletes_netns :
        {p name : Text}
        → Trusted w.fs p
        → has_prefix netns_sweep_prefixes name ≡ true
        → IsSweep (p ∷ codes "netns" ∷ codes "del" ∷ name ∷ [])
    deletes_link :
        {p name : Text}
        → Trusted w.fs p
        → has_prefix veth_sweep_prefixes name ≡ true
        → IsSweep (p ∷ codes "link" ∷ codes "del" ∷ name ∷ [])

  Runs-discarded :
      (args : List Text)
      → ((p : Text) → Trusted w.fs p → IsSweep (p ∷ args))
      → Runs IsSweep Always (discarded w args)
  Runs-discarded args q = Runs-bind (find w (codes "ip")) _ (Runs-find w (codes "ip")) (λ p t.
      Runs-bind {P = Always} (run_unchecked w (p ∷ args)) _ (Runs-unchecked w (p ∷ args) (q p t))
        (λ _ _. Runs-pure tt tt))

  Runs-netns_line : (t : Text) → Runs IsSweep Always (sweep_netns_line w t)
  unfolding sweep_netns_line
  Runs-netns_line t =
      Runs-when (has_prefix netns_sweep_prefixes (first_word t)) _ _
        (λ e. Runs-discarded _ (λ p k. deletes_netns k e)) (Runs-pure tt tt)

  Runs-link_line : (t : Text) → Runs IsSweep Always (sweep_link_line w t)
  unfolding sweep_link_line
  Runs-link_line t =
      Runs-if (any (λ c. c == b':') t) _ _
        (Runs-when (has_prefix veth_sweep_prefixes (iface_of t)) _ _
          (λ e. Runs-discarded _ (λ p k. deletes_link k e)) (Runs-pure tt tt))
        (Runs-pure tt tt)

  Runs-lines :
      (body : Text → Call (Unit {0}))
      → ((t : Text) → Runs IsSweep Always (body t))
      → (ts : List Text) → Runs IsSweep Always (for_lines w body ts)
  unfolding for_lines
  Runs-lines body k [] = Runs-pure tt tt
  Runs-lines body k (t ∷ ts) = Runs-then (body t) _ (k t) (Runs-lines body k ts)

  Runs-sweep :
      (args : List Text) (body : Text → Call (Unit {0}))
      → ((p : Text) → Trusted w.fs p → IsSweep (p ∷ args))
      → ((t : Text) → Runs IsSweep Always (body t))
      → Runs IsSweep Always (sweep w args body)
  unfolding sweep
  Runs-sweep args body q k = Runs-ignore_errors _ (
      Runs-bind (find w (codes "ip")) _ (Runs-find w (codes "ip")) (λ p t.
        Runs-bind {P = Always} (run_unchecked w (p ∷ args)) _ (Runs-unchecked w (p ∷ args) (q p t))
          (λ done _.
            Runs-if (done.returncode == 0) _ _ (Runs-lines body k (split_lines done.stdout))
              (Runs-pure tt tt))))

  -- Whatever the machine holds and whatever the commands print or fail with, the sweep does not raise,
  -- and it runs nothing but the two listings and deletions of namespaces and links whose names start
  -- with a prefix of the engine, each by a program that only root can replace.
  pub startup_sweep-safe :
      (s : System) → ((startup_sweep w s).0 ≡ ok tt) × Adds IsSweep s (startup_sweep w s).1
  unfolding startup_sweep sweep
  startup_sweep-safe s = (
    refl,
    (Runs-then _ _ (Runs-sweep _ (sweep_netns_line w) (λ p t. lists_netns t) Runs-netns_line)
          (Runs-sweep _ (sweep_link_line w) (λ p t. lists_links t) Runs-link_line)).at
        s,
  )
