-- ===== src/Controller/Lifecycle.antt =====
-- `create_netns`, `destroy_netns` and `cleanup_all` of nse/core/netns_controller.py.
pub mod Destroy
pub mod Cleanup
use network_sandbox_engine.Prelude.{
  ℕ, zero, suc, Text, codes, text_eq, add, not, has_substring, ◌||◌, Bool, true, false, List, [],
  ◌∷◌, keep, if◌then◌else◌,
}
use network_sandbox_engine.Shell.{
  System, World, Result, ok, failed, expired, raised, Call, ◌>>=◌, ◌>>◌, pure, tolerate, in_root,
  in_netns,
}

-- `set.discard`
unfoldable pub discard : Text → List Text → List Text
discard name names = keep (λ n. not (text_eq n name)) names

abbrev pub activate : Text → Call (Unit {0})
activate name s = (ok tt, record s { active_ns = add name s.active_ns })

abbrev pub deactivate : Text → Call (Unit {0})
deactivate name s = (ok tt, record s { active_ns = discard name s.active_ns })

-- The messages of `ip` for a namespace that is not there.
unfoldable pub already_gone : Text → Bool
already_gone stderr =
    has_substring stderr (codes "No such file or directory")
    || has_substring stderr (codes "Invalid argument")

module _ (w : World) where
  -- the two sysctls, in one `try`
  unfoldable pub disable_dad : Text → Call (Unit {0})
  disable_dad name = tolerate (do
    in_netns w name (codes "sysctl") (codes "-w" ∷ codes "net.ipv6.conf.all.accept_dad=0" ∷ [])
    in_netns w name (codes "sysctl") (codes "-w" ∷ codes "net.ipv6.conf.default.accept_dad=0" ∷ []))

  unfoldable pub create_netns : Text → Call (Unit {0})
  create_netns name = do
    in_root w (codes "ip") (codes "netns" ∷ codes "add" ∷ name ∷ [])
    activate name
    disable_dad name

  abbrev pub delete_netns : Text → Call (Unit {0})
  delete_netns name = in_root w (codes "ip") (codes "netns" ∷ codes "del" ∷ name ∷ [])

  -- What the loop does with the end of an attempt, where `again` is the rest of the loop.
  abbrev pub after_attempt : Call (Unit {0}) → Result (Unit {0}) → Call (Unit {0})
  after_attempt again (ok x) s = (ok tt, s)
  after_attempt again (failed cmd status stderr) s =
      if already_gone stderr then (ok tt, s) else again s
  after_attempt again (expired cmd) s = (ok tt, s)
  after_attempt again (raised e) s = (raised e, s)

  -- The loop over the delays, with `n` attempts left; behind the last one it gives up.
  unfoldable pub destroy_attempts : ℕ → Text → Call (Unit {0})
  destroy_attempts zero name s = (ok tt, s)
  destroy_attempts (suc n) name s =
      let (r, s) = delete_netns name s in after_attempt (destroy_attempts n name) r s

  unfoldable pub destroy_netns : Text → Call (Unit {0})
  destroy_netns name = do destroy_attempts 3 name; deactivate name

  unfoldable pub destroy_each : List Text → Call (Unit {0})
  destroy_each [] = pure tt
  destroy_each (name ∷ names) = do destroy_netns name; destroy_each names

  -- `cleanup_all`, on the names of the set in the order in which they were added
  unfoldable pub cleanup_all : Call (Unit {0})
  cleanup_all s = destroy_each s.active_ns s
