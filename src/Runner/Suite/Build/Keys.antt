-- ===== src/Runner/Suite/Build/Keys.antt =====
-- `build_case` on unknown keys, and on a packet list that is no list.
use network_sandbox_engine.Prelude.{
  ℕ, suc, Text, codes, Bool, true, not, List, [], ◌∷◌, all, keep, All, ◌≡◌, refl, arith, sym, subst,
}
use network_sandbox_engine.Models.Request.{TopologyType, TestRequest, PacketSpec}
use network_sandbox_engine.Runner.Suite.Error.{SuiteConfigError, unknown_keys, packet_unknown_keys}
use network_sandbox_engine.Runner.Suite.Value.{
  Key, text, number, null_key, Value, null, str, sequence, mapping, Items, Fields, field, elements,
  keys, get_or, is_truthy,
}
use network_sandbox_engine.Runner.Suite.Build.{
  Built, ok, config_error, raised, ◌>>=◌, Conversions, case_keys, packet_keys, is_known,
  refuse_keys, check_keys, key_value, entries, packet_entries, build_packet, build_packets,
  build_case, topology_of,
}

-- A bind that returns a value bound a value.
pub >>=-eq-ok :
    {X Y : Type 0} (step : Built X) (rest : X → Built Y) {built : Y}
    → (step >>= rest) ≡ ok built
    → (x : X) × (step ≡ ok x) × (rest x ≡ ok built)
>>=-eq-ok (raised e) rest h = absurd (cc)
>>=-eq-ok (config_error e) rest h = absurd (cc)
>>=-eq-ok (ok x) rest h = (x, refl, h)

keep-not-nil : (p : Key → Bool) (ks : List Key) → keep (λ k. not (p k)) ks ≡ [] → all p ks ≡ true
keep-not-nil p [] h = refl
keep-not-nil p (k ∷ ks) h = ground (arith, keep-not-nil p ks)

refuse_keys-ok :
    (message : List Key → SuiteConfigError) (ks : List Key)
    → refuse_keys message ks ≡ ok tt
    → ks ≡ []
unfolding refuse_keys
refuse_keys-ok message [] h = refl
refuse_keys-ok message (k ∷ ks) h = ground arith

check_keys-ok :
    (valid : List Text) (message : List Key → SuiteConfigError) (fs : Fields)
    → check_keys valid message fs ≡ ok tt
    → all (is_known valid) (keys fs) ≡ true
unfolding check_keys
check_keys-ok valid message fs h =
    keep-not-nil (is_known valid) (keys fs)
      (refuse_keys-ok message (keep (λ k. not (is_known valid k)) (keys fs)) h)

-- An entry of the packet list that is a mapping with no unknown key.
abbrev pub IsEntry : Value → Type 0
IsEntry (mapping fs) = all (is_known packet_keys) (keys fs) ≡ true
IsEntry _ = ⊥

module _ (c : Conversions) (name : Text) (topology : TopologyType) where
  build_packet-IsEntry :
      (idx : ℕ) (v : Value) {r : PacketSpec × Text}
      → build_packet c name topology idx v ≡ ok r
      → IsEntry v
  unfolding build_packet
  build_packet-IsEntry idx (mapping fs) h =
      let (_, checked, _) =
        >>=-eq-ok (check_keys packet_keys (packet_unknown_keys name idx) fs) _ h in
      check_keys-ok packet_keys (packet_unknown_keys name idx) fs checked
  build_packet-IsEntry idx null h = ground arith
  build_packet-IsEntry idx _ h = ground arith

  build_packets-IsEntry :
      (idx : ℕ) (vs : List Value) {r : List PacketSpec × List Text}
      → build_packets c name topology idx vs ≡ ok r
      → All IsEntry vs
  unfolding build_packets
  build_packets-IsEntry idx [] h = tt
  build_packets-IsEntry idx (v ∷ vs) h =
      let (first, p, q) = >>=-eq-ok (build_packet c name topology idx v) _ h in
      let (rest, p', _) = >>=-eq-ok (build_packets c name topology (suc idx) vs) _ q in
      (build_packet-IsEntry idx v p, build_packets-IsEntry (suc idx) vs p')

not-IsEntry-key_value : (k : Key) → ¬ (IsEntry (key_value k))
not-IsEntry-key_value (text t) h = h
not-IsEntry-key_value (number n) h = h
not-IsEntry-key_value null_key h = h

pub ok-injective {ℓ} : {A : Type ℓ} {a b : A} → ok a ≡ ok b → a ≡ b
ok-injective h = cc

-- A value whose entries are mappings, and that is not empty, is a list.
entries-list :
    (v : Value) (vs : List Value)
    → is_truthy v ≡ true
    → entries v ≡ ok vs
    → All IsEntry vs
    → (items : Items) × (v ≡ sequence items) × All IsEntry (elements items)
unfolding entries is_truthy keys
entries-list (sequence items) vs t h k = (items, refl, subst (All IsEntry) (sym (ok-injective h)) k)
entries-list (str (x ∷ t)) vs _ h k = absurd (subst (All IsEntry) (sym (ok-injective h)) k).0
entries-list (mapping (field key v fs)) vs _ h k =
    absurd (not-IsEntry-key_value key (subst (All IsEntry) (sym (ok-injective h)) k).0)
entries-list v vs t h k = ground arith

packet_entries-ok :
    (c : Conversions) (name : Text) (v : Value) {vs : List Value}
    → packet_entries c name v ≡ ok vs
    → (is_truthy v ≡ true) × (entries v ≡ ok vs)
unfolding packet_entries
packet_entries-ok c name v h = ground arith

-- A case is built only if every key of its mapping is a known one, its packets are a list, and each
-- of them is a mapping whose every key is a known one.
pub build_case-keys_known :
    (c : Conversions) (raw : Fields) (index : ℕ) {r : Text × TestRequest × List Text}
    → build_case c (mapping raw) index ≡ ok r
    → (all (is_known case_keys) (keys raw) ≡ true)
      × (items : Items) × (get_or (codes "packets") raw null ≡ sequence items)
      × All IsEntry (elements items)
unfolding build_case
build_case-keys_known c raw index h =
    let (_, checked, h₁) = >>=-eq-ok (check_keys case_keys (unknown_keys _) raw) _ h in
    let (topology, _, h₂) = >>=-eq-ok (topology_of _ _) _ h₁ in
    let (vs, listed, h₃) =
      >>=-eq-ok (packet_entries c _ (get_or (codes "packets") raw null)) _ h₂ in
    let (built, made, _) = >>=-eq-ok (build_packets c _ topology 1 vs) _ h₃ in
    let (truthy, same) = packet_entries-ok c _ _ listed in
    let (items, e, k) =
      entries-list _ vs truthy same (build_packets-IsEntry c _ topology 1 vs made) in
    (check_keys-ok case_keys (unknown_keys _) raw checked, items, e, k)
