-- ===== src/Paths/Search.antt =====
-- Which binary the search returns, against a description without a loop.
use network_sandbox_engine.Prelude.{
  Text, Bool, true, false, not, List, [], ◌∷◌, ◌++◌, map, keep, inl, inr, ◌≡◌, refl, sym, ◌∙◌,
  subst, arith, append-nil, append_assoc, if◌then◌else◌, Bool-cases,
}
use network_sandbox_engine.Exceptions.{Exception}
use network_sandbox_engine.Paths.{
  FileSystem, Resolved, trusted_dirs, candidate, parent, is_root_only, is_safely_owned, is_runnable,
  unsafe, search_dirs, not_found, is_bare_name, resolve_once,
}

if_not {ℓ} : {A : Type ℓ} (b : Bool) (x y : A) → (if not b then x else y) ≡ (if b then y else x)
if_not true x y = refl
if_not false x y = refl

module _ (fs : FileSystem) where
  -- The first of the runnable paths decides; without one the search fails.
  abbrev pub decided : Exception → List Text → Resolved fs
  decided missing [] = inl missing
  decided missing (path ∷ paths) =
      if is_safely_owned fs path then inr path else inl (unsafe fs path)

  search_dirs-eq :
      (missing : List Text → Exception) (searched ds : List Text) (binary : Text)
      → search_dirs fs missing searched ds binary
        ≡ decided
            (missing (searched ++ map (candidate binary) ds))
            (keep (is_runnable fs) (map (candidate binary) ds))
  unfolding search_dirs
  search_dirs-eq missing searched [] binary = rw (append-nil searched) refl
  search_dirs-eq missing searched (d ∷ ds) binary =
      elim (Bool-cases (is_runnable fs (candidate binary d))) [
        | inl e ↦ rw e (if_not (is_safely_owned fs (candidate binary d)) _ _)
        | inr e ↦ rw e (
            subst
              (λ paths.
                search_dirs fs missing (searched ++ candidate binary d ∷ []) ds binary
                ≡ decided (missing paths) (keep (is_runnable fs) (map (candidate binary) ds)))
              (append_assoc searched (candidate binary d ∷ []) (map (candidate binary) ds))
              (search_dirs-eq missing (searched ++ candidate binary d ∷ []) ds binary))
      ]

  -- For a bare name, the first path of the trusted directories that is a file and can be executed
  -- decides: it is returned if only root can write it and its directory, and it is refused else, even
  -- where a later directory has a safe one. Without such a path the error names every path.
  pub resolve_once-eq :
      (binary : Text)
      → is_bare_name fs binary ≡ true
      → resolve_once fs binary
        ≡ decided
            (not_found fs binary (map (candidate binary) trusted_dirs))
            (keep (is_runnable fs) (map (candidate binary) trusted_dirs))
  unfolding resolve_once
  resolve_once-eq binary bare =
      rw bare (search_dirs-eq (not_found fs binary) [] trusted_dirs binary)

  -- What a path that is returned can be relied on for.
  pub record Trusted (path : Text) : Type 0 where
    pub runnable : is_runnable fs path ≡ true
    pub file_safe : is_root_only fs path ≡ true
    pub directory_safe : is_root_only fs (parent path) ≡ true

  decided-Trusted :
      (missing : Exception) (paths : List Text) (path : Text)
      → decided missing (keep (is_runnable fs) paths) ≡ inr path
      → Trusted path
  unfolding is_safely_owned
  decided-Trusted missing [] path h = absurd (cc)
  decided-Trusted missing (p ∷ ps) path h = elim (Bool-cases (is_runnable fs p)) [
    | inl e ↦ first e (rw e at h)
    | inr e ↦ decided-Trusted missing ps path (rw e at h)
  ]
    where
      first :
          is_runnable fs p ≡ true
          → (if is_safely_owned fs p then inr p else inl (unsafe fs p)) ≡ inr path
          → Trusted path
      first e h = ground arith

  -- Every path that a search returns is a file that can be executed, and neither it nor its directory
  -- can be written by anybody but root.
  pub resolve_once-Trusted : (binary path : Text) → resolve_once fs binary ≡ inr path → Trusted path
  unfolding resolve_once
  resolve_once-Trusted binary path h = elim (Bool-cases (is_bare_name fs binary)) [
    | inl e ↦
        decided-Trusted (not_found fs binary (map (candidate binary) trusted_dirs))
          (map (candidate binary) trusted_dirs) path (sym (resolve_once-eq binary e) ∙ h)
    | inr e ↦ absurd (cc ((rw e at h)))
  ]
