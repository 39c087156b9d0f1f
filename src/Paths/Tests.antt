-- ===== src/Paths/Tests.antt =====
-- The resolution of `nft` on a small file system.
use network_sandbox_engine.Prelude.{
  Text, codes, contains, text_eq, Bool, true, none, some, [], ◌∷◌, ◌≡◌, refl, inr, map, keep,
  if◌then◌else◌,
}
use network_sandbox_engine.Prelude.Dict.{Dict, lookup, insert}
use network_sandbox_engine.Paths.{
  FileSystem, resolve_once, resolve, search_dirs, is_safely_owned, is_root_only, is_runnable,
  others_write, parent, candidate, trusted_dirs, not_found,
}
use network_sandbox_engine.Paths.Search.{decided, Trusted, resolve_once-eq, resolve_once-Trusted}
use network_sandbox_engine.Paths.Cache.{IsCurrent, resolve-eq, resolve-Trusted}

-- What a test computes with.
runs : Bool
unfolding resolve_once resolve search_dirs is_safely_owned is_root_only is_runnable others_write
    parent candidate lookup insert contains text_eq
runs = true

abbrev sbin_nft : Text
sbin_nft = codes "/sbin/nft"

-- `nft` is in /sbin alone; all is owned by root, with mode 0o755.
abbrev files : FileSystem
files = record {
  stat = λ p.
      if contains p (sbin_nft ∷ codes "/sbin" ∷ [])
      then some (record { st_uid = 0; st_mode = 493 })
      else none;
  is_file = λ p. text_eq p sbin_nft;
  can_execute = λ p. text_eq p sbin_nft;
  repr_text = λ t. t;
}

nft_found : resolve_once files (codes "nft") ≡ inr sbin_nft
unfolding runs
nft_found = refl

resolve_once-eq_example :
    resolve_once files (codes "nft")
    ≡ decided files
        (not_found files (codes "nft") (map (candidate (codes "nft")) trusted_dirs))
        (keep (is_runnable files) (map (candidate (codes "nft")) trusted_dirs))
resolve_once-eq_example = resolve_once-eq files (codes "nft") refl

resolve_once-Trusted_example : Trusted files sbin_nft
resolve_once-Trusted_example = resolve_once-Trusted files (codes "nft") sbin_nft nft_found

abbrev nothing_cached : Dict Text
nothing_cached = []

nothing_cached-IsCurrent : IsCurrent files nothing_cached
unfolding lookup
nothing_cached-IsCurrent k v h = absurd (cc)

first_call : (resolve files nothing_cached (codes "nft")).0 ≡ inr sbin_nft
unfolding runs
first_call = refl

abbrev after_first : Dict Text
after_first = (resolve files nothing_cached (codes "nft")).1

after_first-IsCurrent : IsCurrent files after_first
after_first-IsCurrent = (resolve-eq files nothing_cached (codes "nft") nothing_cached-IsCurrent).1

second_call : (resolve files after_first (codes "nft")).0 ≡ inr sbin_nft
unfolding runs
second_call = refl

resolve-Trusted_example :
    Trusted files sbin_nft × IsCurrent files (resolve files after_first (codes "nft")).1
resolve-Trusted_example =
    resolve-Trusted files after_first (codes "nft") sbin_nft after_first-IsCurrent second_call
