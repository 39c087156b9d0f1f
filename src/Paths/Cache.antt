-- ===== src/Paths/Cache.antt =====
-- What the cache of `resolve` may hold.
use network_sandbox_engine.Prelude.{
  Text, text_eq, text_eq_iff, some, ◌⊎◌, inl, inr, ◌≡◌, refl, sym, ◌∙◌, arith, Bool-cases,
  Option-cases,
}
use network_sandbox_engine.Prelude.Dict.{Dict, lookup, insert, lookup-insert}
use network_sandbox_engine.Exceptions.{Exception}
use network_sandbox_engine.Paths.{FileSystem, Resolved, resolve, resolve_once}
use network_sandbox_engine.Paths.Search.{Trusted, resolve_once-Trusted}

module _ (fs : FileSystem) where
  pub Resolved-cases :
      (r : Resolved fs) → ((exc : Exception) × (r ≡ inl exc)) ⊎ ((path : Text) × (r ≡ inr path))
  Resolved-cases (inl exc) = inl (exc, refl)
  Resolved-cases (inr path) = inr (path, refl)

  -- Every entry is what a search would return on the file system as it is.
  abbrev pub IsCurrent : Dict Text → Type 0
  IsCurrent cached = (k v : Text) → lookup k cached ≡ some v → resolve_once fs k ≡ inr v

  insert-IsCurrent :
      (cached : Dict Text) (binary path : Text)
      → IsCurrent cached
      → resolve_once fs binary ≡ inr path
      → IsCurrent (insert binary path cached)
  insert-IsCurrent cached binary path c e k v h = elim (Bool-cases (text_eq k binary)) [
    | inl q ↦ ground (arith, text_eq_iff k binary, lookup-insert binary k path cached)
    | inr q ↦ c k v (ground (arith, lookup-insert binary k path cached))
  ]

  -- As long as the file system stays as it is, the cache changes no answer: `resolve` returns or raises
  -- what a search does, and what it keeps stays current. The empty cache of the start is current.
  pub resolve-eq :
      (cached : Dict Text) (binary : Text)
      → IsCurrent cached
      → ((resolve fs cached binary).0 ≡ resolve_once fs binary)
        × IsCurrent (resolve fs cached binary).1
  unfolding resolve
  resolve-eq cached binary c = elim (Option-cases (lookup binary cached)) [
    | inr (path, e) ↦ rw (e, resolve) (sym (c binary path e), c)
    | inl e ↦ elim (Resolved-cases (resolve_once fs binary)) [
      | inl (exc, q) ↦ rw (e, resolve, q) (refl, c)
      | inr (path, q) ↦ rw (e, resolve, q) (refl, insert-IsCurrent cached binary path c q)
    ]
  ]

  -- On a cache whose every entry is what a search would return now, each path that `resolve` returns can
  -- be trusted: root owns it and its directory, and nobody else can write to either. What the call keeps
  -- is current again, so that this holds for the next call too.
  pub resolve-Trusted :
      (cached : Dict Text) (binary path : Text)
      → IsCurrent cached
      → (resolve fs cached binary).0 ≡ inr path
      → Trusted fs path × IsCurrent (resolve fs cached binary).1
  resolve-Trusted cached binary path c h =
      let (e, after) = resolve-eq cached binary c in
      (resolve_once-Trusted fs binary path (sym e ∙ h), after)
