-- ===== src/Runner/Suite/Value.antt =====
-- The values that a YAML or JSON parser returns.
use network_sandbox_engine.Prelude.{
  ℕ, Text, text_eq, Bool, true, false, Option, none, some, List, [], ◌∷◌, if◌then◌else◌,
}
use network_sandbox_engine.Prelude.Int.{ℤ, is_nonzero}

-- A key of a mapping: a string, a number (which one does not matter), or null.
pub data Key : Type 0 where
  text : Text → Key
  number : ℕ → Key
  null_key : Key

mutual
  -- `other` is any other scalar, a float or a date: a tag, and its truth value.
  pub data Value : Type 0 where
    null : Value
    bool : Bool → Value
    int : ℤ → Value
    other : ℕ → Bool → Value
    str : Text → Value
    sequence : Items → Value
    mapping : Fields → Value

  pub data Fields : Type 0 where
    end : Fields
    field : Key → Value → Fields → Fields

  pub data Items : Type 0 where
    nil : Items
    item : Value → Items → Items

unfoldable pub elements : Items → List Value
elements nil = []
elements (item v vs) = v ∷ elements vs

unfoldable pub keys : Fields → List Key
keys end = []
keys (field k v fs) = k ∷ keys fs

key_is : Text → Key → Bool
key_is k (text t) = text_eq k t
key_is k _ = false

-- `d.get(k)`, for a string `k`
unfoldable pub get : Text → Fields → Option Value
unfolding key_is
get k end = none
get k (field j v fs) = if key_is k j then some v else get k fs

-- `d.get(k, default)`
unfoldable pub get_or : Text → Fields → Value → Value
get_or k fs default = elim (get k fs) [ none ↦ default | some v ↦ v ]

-- Python's truth test
unfoldable pub is_truthy : Value → Bool
is_truthy null = false
is_truthy (bool b) = b
is_truthy (int n) = is_nonzero n
is_truthy (other _ b) = b
is_truthy (str []) = false
is_truthy (str (c ∷ t)) = true
is_truthy (sequence nil) = false
is_truthy (sequence (item v vs)) = true
is_truthy (mapping end) = false
is_truthy (mapping (field k v fs)) = true
