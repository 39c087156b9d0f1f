-- ===== src/Prelude/Dict.antt =====
-- A Python dict keyed by strings, in insertion order.
use mathlib.Core.Path.{◌≡◌, refl}
use mathlib.Core.List.{List, [], ◌∷◌}
use mathlib.Core.Option.{Option, none, some}
use native.Mathlib.Omega.{arith}
use network_sandbox_engine.Prelude.Tests.{if◌then◌else◌}
use network_sandbox_engine.Prelude.Strings.{Text, text_eq, text_eq_iff, text_eq_refl}

abbrev pub Dict {ℓ} : Type ℓ → Type ℓ
Dict V = List (Text × V)

module _ {ℓ} {V : Type ℓ} where
  -- `d.get(k)`
  unfoldable pub lookup : Text → Dict V → Option V
  lookup k [] = none
  lookup k ((j, v) ∷ d) = if text_eq k j then some v else lookup k d

  -- `d[k] = v`
  unfoldable pub insert : Text → V → Dict V → Dict V
  insert k v [] = (k, v) ∷ []
  insert k v ((j, w) ∷ d) = if text_eq k j then (j, v) ∷ d else (j, w) ∷ insert k v d

  pub lookup-insert :
      (k j : Text) (v : V) (d : Dict V)
      → lookup j (insert k v d) ≡ (if text_eq j k then some v else lookup j d)
  unfolding lookup insert
  lookup-insert k j v [] = refl
  lookup-insert k j v ((i, w) ∷ d) =
      ground (arith, text_eq_iff j k, text_eq_iff k i, text_eq_iff j i, lookup-insert k j v d)

  -- `del d[k]`
  unfoldable pub delete : Text → Dict V → Dict V
  delete k [] = []
  delete k ((j, v) ∷ d) = let rest = delete k d in if text_eq k j then rest else (j, v) ∷ rest

  pub lookup-insert_same : (k : Text) (v : V) (d : Dict V) → lookup k (insert k v d) ≡ some v
  lookup-insert_same k v d = ground (arith, lookup-insert k k v d, text_eq_refl k)

  delete-absent : (k : Text) (d : Dict V) → lookup k d ≡ none → delete k d ≡ d
  unfolding lookup delete
  delete-absent k [] h = refl
  delete-absent k ((j, v) ∷ d) h = ground (arith, delete-absent k d)

  -- A key that was not there is gone again.
  pub delete-insert :
      (k : Text) (v : V) (d : Dict V) → lookup k d ≡ none → delete k (insert k v d) ≡ d
  unfolding lookup insert delete
  delete-insert k v [] h = rw (text_eq_refl k) refl
  delete-insert k v ((j, w) ∷ d) h = ground (arith, delete-insert k v d)

  pub insert-insert : (k : Text) (v u : V) (d : Dict V) → insert k v (insert k u d) ≡ insert k v d
  unfolding insert
  insert-insert k v u [] = rw (text_eq_refl k) refl
  insert-insert k v u ((j, w) ∷ d) = ground (arith, insert-insert k v u d)
