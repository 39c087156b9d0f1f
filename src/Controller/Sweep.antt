-- ===== src/Controller/Sweep.antt =====
-- `startup_sweep` of nse/core/netns_controller.py.
pub mod Safe
use network_sandbox_engine.Prelude.{
  ℕ, Text, codes, any, starts_with, split_lines, split_words, strip, first_part, second_part, ◌==◌,
  Bool, true, false, List, [], ◌∷◌, if◌then◌else◌,
}
use network_sandbox_engine.Naming.{netns_sweep_prefixes, veth_sweep_prefixes}
use network_sandbox_engine.Shell.{
  World, Call, ◌>>=◌, ◌>>◌, pure, ignore_errors, Completed, find, run_unchecked,
}

-- `line.split()[0] if line.split() else ""`
unfoldable pub first_word : Text → Text
first_word t = elim (split_words t) [ [] ↦ [] | word ∷ more ↦ word ]

-- `parts[1].strip().split("@")[0]`
unfoldable pub iface_of : Text → Text
iface_of t = first_part b'@' (strip (second_part b':' t))

-- `str.startswith` with a tuple
abbrev pub has_prefix : List Text → Text → Bool
has_prefix prefixes name = any (λ p. starts_with name p) prefixes

module _ (w : World) where
  -- a command whose result nobody reads
  abbrev discarded : List Text → Call (Unit {0})
  discarded args = do ip ← find w (codes "ip"); _ ← run_unchecked w (ip ∷ args); pure tt

  unfoldable pub sweep_netns_line : Text → Call (Unit {0})
  sweep_netns_line t =
      if has_prefix netns_sweep_prefixes (first_word t)
      then discarded (codes "netns" ∷ codes "del" ∷ first_word t ∷ [])
      else pure tt

  unfoldable pub sweep_link_line : Text → Call (Unit {0})
  sweep_link_line t =
      if any (λ c. c == b':') t
      then (if has_prefix veth_sweep_prefixes (iface_of t)
          then discarded (codes "link" ∷ codes "del" ∷ iface_of t ∷ [])
          else pure tt)
      else pure tt

  unfoldable pub for_lines : (Text → Call (Unit {0})) → List Text → Call (Unit {0})
  for_lines body [] = pure tt
  for_lines body (t ∷ ts) = do body t; for_lines body ts

  -- one of the two `try` blocks: the lines that a command prints, if it succeeds
  unfoldable pub sweep : List Text → (Text → Call (Unit {0})) → Call (Unit {0})
  sweep args body = ignore_errors (do
    ip ← find w (codes "ip")
    res ← run_unchecked w (ip ∷ args)
    (if res.returncode == 0 then for_lines body (split_lines res.stdout) else pure tt))

  unfoldable pub startup_sweep : Call (Unit {0})
  startup_sweep = do
    sweep (codes "netns" ∷ codes "list" ∷ []) sweep_netns_line
    sweep (codes "link" ∷ codes "show" ∷ []) sweep_link_line
