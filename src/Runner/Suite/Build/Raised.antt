-- ===== src/Runner/Suite/Build/Raised.antt =====
-- The exceptions of `build_case` that are no SuiteConfigError.
use network_sandbox_engine.Prelude.{
  ℕ, suc, Text, codes, Bool, true, false, not, Option, none, some, List, [], ◌∷◌, any, keep, map,
  ◌≡◌, ◌⊎◌, refl, arith, inl, inr, sym, subst,
}
use network_sandbox_engine.Prelude.Int.{is_nonzero}
use network_sandbox_engine.Exceptions.{Exception}
use network_sandbox_engine.Models.Request.{TopologyType, make_request}
use network_sandbox_engine.Runner.Suite.Error.{
  SuiteConfigError, unknown_keys, packet_unknown_keys, invalid_request,
}
use network_sandbox_engine.Runner.Suite.Value.{
  Key, text, number, null_key, Value, null, bool, int, other, str, sequence, mapping, Items, Fields,
  elements, keys, get_or, is_truthy,
}
use network_sandbox_engine.Runner.Suite.Build.{
  Built, ok, config_error, raised, ◌>>=◌, or_error, Conversions, case_keys, packet_keys, is_known,
  is_sortable, refuse_keys, check_keys, key_value, entries, packet_entries, expectation,
  build_packet, build_packets, build_case, topology_of, case_name,
}
use network_sandbox_engine.Runner.Suite.Build.Keys.{ok-injective}

-- A number or another scalar that passes Python's truth test, and over which a loop cannot run.
abbrev pub IsTruthyScalar : Value → Type 0
IsTruthyScalar (bool b) = b ≡ true
IsTruthyScalar (int n) = is_nonzero n ≡ true
IsTruthyScalar (other _ b) = b ≡ true
IsTruthyScalar _ = ⊥

-- Whether the unknown keys of a mapping are of several types, so that they cannot be sorted.
abbrev pub has_mixed_keys : List Text → Fields → Bool
has_mixed_keys valid fs = not (is_sortable (keep (λ k. not (is_known valid k)) (keys fs)))

abbrev pub is_mixed_packet : Value → Bool
is_mixed_packet (mapping fs) = has_mixed_keys packet_keys fs
is_mixed_packet _ = false

-- A case with unknown keys of several types, in itself or in a packet of its list, or with a number
-- in place of the list.
abbrev pub IsUnforeseen : Value → Type 0
IsUnforeseen (mapping raw) =
    (has_mixed_keys case_keys raw ≡ true)
    ⊎ (IsTruthyScalar (get_or (codes "packets") raw null)
        ⊎ ((items : Items) × (get_or (codes "packets") raw null ≡ sequence items)
            × (any is_mixed_packet (elements items) ≡ true)))
IsUnforeseen _ = ⊥

-- A bind that raises raised in its first step or in the rest.
>>=-eq-raised :
    {X Y : Type 0} (step : Built X) (rest : X → Built Y) {exc : Exception}
    → (step >>= rest) ≡ raised exc
    → (step ≡ raised exc) ⊎ ((x : X) × (step ≡ ok x) × (rest x ≡ raised exc))
>>=-eq-raised (raised e) rest h = inl cc
>>=-eq-raised (config_error e) rest h = absurd (cc)
>>=-eq-raised (ok x) rest h = inr (x, refl, h)

or_error-handled :
    {X : Type 0} (o : Option X) (e : SuiteConfigError) {exc : Exception}
    → or_error o e ≡ raised exc
    → ⊥
or_error-handled none e h = cc
or_error-handled (some x) e h = cc

refuse_keys-raised :
    (message : List Key → SuiteConfigError) (ks : List Key) {exc : Exception}
    → refuse_keys message ks ≡ raised exc
    → not (is_sortable ks) ≡ true
unfolding refuse_keys
refuse_keys-raised message [] h = absurd (cc)
refuse_keys-raised message (k ∷ ks) h = ground arith

check_keys-raised :
    (valid : List Text) (message : List Key → SuiteConfigError) (fs : Fields) {exc : Exception}
    → check_keys valid message fs ≡ raised exc
    → has_mixed_keys valid fs ≡ true
unfolding check_keys
check_keys-raised valid message fs h =
    refuse_keys-raised message (keep (λ k. not (is_known valid k)) (keys fs)) h

module _ (c : Conversions) (name : Text) where
  build_packet-raised :
      (topology : TopologyType) (idx : ℕ) (v : Value) {exc : Exception}
      → build_packet c name topology idx v ≡ raised exc
      → is_mixed_packet v ≡ true
  unfolding build_packet expectation
  build_packet-raised topology idx (mapping fs) h =
      elim (>>=-eq-raised (check_keys packet_keys (packet_unknown_keys name idx) fs) _ h) [
        | inl e ↦ check_keys-raised packet_keys (packet_unknown_keys name idx) fs e
        | inr (_, _, h₁) ↦ ground arith
      ]
  build_packet-raised topology idx null h = absurd (cc)
  build_packet-raised topology idx _ h = absurd (cc)

  build_packets-raised :
      (topology : TopologyType) (idx : ℕ) (vs : List Value) {exc : Exception}
      → build_packets c name topology idx vs ≡ raised exc
      → any is_mixed_packet vs ≡ true
  unfolding build_packets
  build_packets-raised topology idx [] h = absurd (cc)
  build_packets-raised topology idx (v ∷ vs) h =
      elim (>>=-eq-raised (build_packet c name topology idx v) _ h) [
        | inl e ↦ rw (build_packet-raised topology idx v e) refl
        | inr (_, _, h₁) ↦ elim (>>=-eq-raised (build_packets c name topology (suc idx) vs) _ h₁) [
          | inl e ↦ ground (arith, build_packets-raised topology (suc idx) vs e)
          | inr (_, _, h₂) ↦ absurd (cc)
        ]
      ]

  packet_entries-raised :
      (v : Value) {exc : Exception} → packet_entries c name v ≡ raised exc → IsTruthyScalar v
  unfolding packet_entries entries is_truthy
  packet_entries-raised null h = absurd (cc)
  packet_entries-raised (str t) h = ground arith
  packet_entries-raised (sequence items) h = ground arith
  packet_entries-raised (mapping fs) h = ground arith
  packet_entries-raised (bool b) h = ground arith
  packet_entries-raised (int n) h = ground arith
  packet_entries-raised (other _ b) h = ground arith

topology_of-handled : (name t : Text) {exc : Exception} → topology_of name t ≡ raised exc → ⊥
unfolding topology_of
topology_of-handled name t h = ground arith

request-handled :
    {X : Type 0} {exc : Exception} (rules : Option Text) (make : Text → Option X)
    (e : SuiteConfigError) {Y : Type 0} (y : X → Y)
    → (do t ← or_error rules e; r ← or_error (make t) e; ok (y r)) ≡ raised exc
    → ⊥
request-handled none make e y h = cc
request-handled (some t) make e y h = ground arith

no_mixed_key : (ks : List Key) → any is_mixed_packet (map key_value ks) ≡ false
no_mixed_key [] = refl
no_mixed_key (text t ∷ ks) = no_mixed_key ks
no_mixed_key (number n ∷ ks) = no_mixed_key ks
no_mixed_key (null_key ∷ ks) = no_mixed_key ks

no_mixed_character : (t : Text) → any is_mixed_packet (map (λ c. str (c ∷ [])) t) ≡ false
no_mixed_character [] = refl
no_mixed_character (c ∷ t) = no_mixed_character t

-- Only a list has a mapping among its entries.
entries-mixed :
    (v : Value) (vs : List Value)
    → entries v ≡ ok vs
    → any is_mixed_packet vs ≡ true
    → (items : Items) × (v ≡ sequence items) × (any is_mixed_packet (elements items) ≡ true)
unfolding entries
entries-mixed (sequence items) vs h m =
    (items, refl, subst (λ l. any is_mixed_packet l ≡ true) (sym (ok-injective h)) m)
entries-mixed (mapping fs) vs h m = absurd (cc (no_mixed_key (keys fs), ok-injective h))
entries-mixed (str t) vs h m = absurd (cc (no_mixed_character t, ok-injective h))
entries-mixed v vs h m = ground arith

packet_entries-entries :
    (c : Conversions) (name : Text) (v : Value) {vs : List Value}
    → packet_entries c name v ≡ ok vs
    → entries v ≡ ok vs
unfolding packet_entries
packet_entries-entries c name v h = ground arith

-- `build_case` raises an exception that is no SuiteConfigError only on a mapping in which the unknown keys
-- of the case are of several types, or `packets` is a number or another scalar that passes the truth
-- test, or `packets` is a list with a mapping whose unknown keys are of several types. On any other value
-- it returns a case or raises a SuiteConfigError.
pub build_case-raised :
    (c : Conversions) (v : Value) (index : ℕ) {exc : Exception}
    → build_case c v index ≡ raised exc
    → IsUnforeseen v
unfolding build_case
build_case-raised c (mapping raw) index h =
    elim (>>=-eq-raised (check_keys case_keys (unknown_keys _) raw) _ h) [
      | inl e ↦ inl (check_keys-raised case_keys (unknown_keys _) raw e)
      | inr (_, _, h₁) ↦ elim (>>=-eq-raised (topology_of _ _) _ h₁) [
        | inl e ↦ absurd (topology_of-handled _ _ e)
        | inr (topology, _, h₂) ↦
            elim (>>=-eq-raised (packet_entries c _ (get_or (codes "packets") raw null)) _ h₂) [
              | inl e ↦ inr (inl (packet_entries-raised c _ (get_or (codes "packets") raw null) e))
              | inr (vs, e, h₃) ↦ elim (>>=-eq-raised (build_packets c _ topology 1 vs) _ h₃) [
                | inl e₁ ↦ inr (
                    inr (
                      entries-mixed (get_or (codes "packets") raw null) vs
                        (packet_entries-entries c _ (get_or (codes "packets") raw null) e)
                        (build_packets-raised c _ topology 1 vs e₁)))
                | inr (built, _, h₄) ↦
                    let rules = c.as_str (get_or (codes "rules") raw (str [])) in
                    let e = invalid_request (case_name c raw index) in
                    absurd (
                      request-handled rules (λ t. make_request t built.0 topology) e
                        (λ r. (case_name c raw index, r, built.1)) h₄)
              ]
            ]
      ]
    ]
build_case-raised c null index h = absurd (cc)
build_case-raised c v index h = ground arith
