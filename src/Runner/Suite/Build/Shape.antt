-- ===== src/Runner/Suite/Build/Shape.antt =====
-- What a built case holds: a well-formed request, and one expected verdict for each packet.
use network_sandbox_engine.Prelude.{
  ℕ, suc, ◌≤◌, Text, codes, text_eq_iff, contains, upper, Bool, true, Option, none, some, List, [],
  ◌∷◌, map, all, All, length, ◌≡◌, ◌≢◌, ◌⊎◌, refl, arith, Option-cases, inl, inr, ap, sym, subst,
  ◌∙◌,
}
use network_sandbox_engine.Prelude.Int.{ℤ, pos, negsuc}
use network_sandbox_engine.Models.Request.{
  TopologyType, Protocol, TestRequest, PacketSpec, valid_flags, validate_port, validate_tcp_flags,
  make_packet, make_request,
}
use network_sandbox_engine.Runner.Verdicts.{accept, drop, reject}
use network_sandbox_engine.Runner.Suite.Error.{
  SuiteConfigError, unknown_keys, packet_unknown_keys, packet_invalid, invalid_request,
}
use network_sandbox_engine.Runner.Suite.Value.{Value, null, mapping, Fields, get_or}
use network_sandbox_engine.Runner.Suite.Build.{
  ok, or_error, Conversions, case_keys, packet_keys, check_keys, packet_of, packet_spec,
  expectation, packet_entries, build_packet, build_packets, build_case, topology_of,
}
use network_sandbox_engine.Runner.Suite.Build.Keys.{>>=-eq-ok, ok-injective}

abbrev pub IsPort : Option ℕ → Type 0
IsPort none = Unit
IsPort (some n) = (1 ≤ n) × (n ≤ 65535)

-- The constraints that the models put on a packet, given the test of addresses.
pub record IsPacket (is_ip : Text → Bool) (p : PacketSpec) : Type 0 where
  pub src_address : is_ip p.src_ip ≡ true
  pub dst_address : is_ip p.dst_ip ≡ true
  pub src_range : IsPort p.src_port
  pub dst_range : IsPort p.dst_port
  pub flags : all (λ f. contains f valid_flags) p.tcp_flags ≡ true

validate_port-IsPort : (o : Option ℤ) (r : Option ℕ) → validate_port o ≡ some r → IsPort r
unfolding validate_port
validate_port-IsPort none none h = tt
validate_port-IsPort (some (pos n)) none h = ground arith
validate_port-IsPort none (some m) h = ground arith
validate_port-IsPort (some (pos n)) (some m) h = ground arith
validate_port-IsPort (some (negsuc n)) (some m) h = ground arith
validate_port-IsPort (some (negsuc n)) none h = tt

all-map :
    (p : Text → Bool) (f : Text → Text) (xs : List Text) → all p (map f xs) ≡ all (λ x. p (f x)) xs
all-map p f [] = refl
all-map p f (x ∷ xs) = ground (arith, all-map p f xs)

validate_tcp_flags-valid :
    (flags : List Text) (r : List Text)
    → validate_tcp_flags flags ≡ some r
    → all (λ f. contains f valid_flags) r ≡ true
unfolding validate_tcp_flags
validate_tcp_flags-valid flags r h =
    ground (arith, all-map (λ f. contains f valid_flags) upper flags)

module _ (is_ip : Text → Bool) (protocol : Protocol) (src dst : Text) where
  make_packet-IsPacket :
      (sport dport : Option ℤ) (flags : List Text) {p : PacketSpec}
      → make_packet is_ip protocol src dst sport dport flags ≡ some p
      → IsPacket is_ip p
  unfolding make_packet
  make_packet-IsPacket sport dport flags {p} h = elim (Option-cases (validate_port sport)) [
    | inl e ↦ ground arith
    | inr (s, es) ↦ elim (Option-cases (validate_port dport)) [
      | inl e ↦ ground arith
      | inr (d, ed) ↦ elim (Option-cases (validate_tcp_flags flags)) [
        | inl e ↦ ground arith
        | inr (fs, ef) ↦ ground (
          arith,
          validate_port-IsPort sport s es,
          validate_port-IsPort dport d ed,
          validate_tcp_flags-valid flags fs ef,
        )
      ]
    ]
  ]

abbrev IsVerdict : Text → Type 0
IsVerdict t = (t ≡ accept) ⊎ (t ≡ drop)

expectation-IsVerdict :
    (name : Text) (idx : ℕ) (t r : Text) → expectation name idx t ≡ ok r → IsVerdict r
unfolding expectation
expectation-IsVerdict name idx t r h =
    ground (arith, text_eq_iff t accept, text_eq_iff t drop, text_eq_iff t reject)

or_error-ok :
    {A : Type 0} (o : Option A) (e : SuiteConfigError) (a : A) → or_error o e ≡ ok a → o ≡ some a
or_error-ok o e a h = ground arith

packet_of-IsPacket :
    (c : Conversions) (protocol : Option Protocol) (src dst : Option Text)
    (sport dport : Option (Option ℤ)) (flags : Option (List Text)) {p : PacketSpec}
    → packet_of c protocol src dst sport dport flags ≡ some p
    → IsPacket c.is_ip p
packet_of-IsPacket c (some protocol) (some src) (some dst) (some sport) (some dport) (some flags)
      h =
    make_packet-IsPacket c.is_ip protocol src dst sport dport flags h
packet_of-IsPacket c _ _ _ _ _ _ h = ground arith

module _ (c : Conversions) (name : Text) (topology : TopologyType) where
  packet_spec-IsPacket :
      (fs : Fields) (p : PacketSpec) → packet_spec c topology fs ≡ some p → IsPacket c.is_ip p
  unfolding packet_spec
  packet_spec-IsPacket fs p h = packet_of-IsPacket c _ _ _ _ _ _ h

  build_packet-shape :
      (idx : ℕ) (v : Value) {r : PacketSpec × Text}
      → build_packet c name topology idx v ≡ ok r
      → IsPacket c.is_ip r.0 × IsVerdict r.1
  unfolding build_packet
  build_packet-shape idx (mapping fs) {r} h =
      let (_, _, h₁) = >>=-eq-ok (check_keys packet_keys (packet_unknown_keys name idx) fs) _ h in
      let (t, judged, h₂) = >>=-eq-ok (expectation name idx _) _ h₁ in
      let (p, made, h₃) =
        >>=-eq-ok (or_error (packet_spec c topology fs) (packet_invalid name idx)) _ h₂ in
      let packet : IsPacket c.is_ip p =
        packet_spec-IsPacket fs p (or_error-ok _ (packet_invalid name idx) p made) in
      let verdict : IsVerdict t = expectation-IsVerdict name idx _ t judged in
      subst (λ (r : PacketSpec × Text). IsPacket c.is_ip r.0 × IsVerdict r.1) (ok-injective h₃)
        (packet, verdict)
  build_packet-shape idx null h = ground arith
  build_packet-shape idx _ h = ground arith

  build_packets-shape :
      (idx : ℕ) (vs : List Value) {r : List PacketSpec × List Text}
      → build_packets c name topology idx vs ≡ ok r
      → All (IsPacket c.is_ip) r.0
        × All IsVerdict r.1
        × (length r.0 ≡ length vs)
        × (length r.1 ≡ length vs)
  unfolding build_packets
  build_packets-shape idx [] h =
      subst
        (λ (r : List PacketSpec × List Text).
          All (IsPacket c.is_ip) r.0 × All IsVerdict r.1 × (length r.0 ≡ 0) × (length r.1 ≡ 0))
        (ok-injective h) (tt, tt, refl, refl)
  build_packets-shape idx (v ∷ vs) {r} h =
      let (first, p, q) = >>=-eq-ok (build_packet c name topology idx v) _ h in
      let (rest, p', e) = >>=-eq-ok (build_packets c name topology (suc idx) vs) _ q in
      let (packet, verdict) = build_packet-shape idx v p in
      let (packets, verdicts, n, m) = build_packets-shape (suc idx) vs p' in
      subst
        (λ (r : List PacketSpec × List Text).
          All (IsPacket c.is_ip) r.0
          × All IsVerdict r.1
          × (length r.0 ≡ suc (length vs))
          × (length r.1 ≡ suc (length vs)))
        (ok-injective e) ((packet, packets), (verdict, verdicts), ap suc n, ap suc m)

make_request-shape :
    (rules : Text) (packets : List PacketSpec) (topology : TopologyType) (q : TestRequest)
    → make_request rules packets topology ≡ some q
    → (q.rules ≢ []) × (q.packets ≡ packets) × (1 ≤ length packets)
unfolding make_request
make_request-shape [] packets topology q h = ground arith
make_request-shape (x ∷ rules) [] topology q h = ground arith
make_request-shape (x ∷ rules) (p ∷ packets) topology q h = ground arith

-- What `build_case` promises of the request and of the expected verdicts.
pub record IsCase (is_ip : Text → Bool) (request : TestRequest) (expected : List Text)
    : Type 0 where
  pub has_rules : request.rules ≢ []
  pub has_packets : 1 ≤ length request.packets
  pub one_each : length expected ≡ length request.packets
  pub verdicts : All IsVerdict expected
  pub packets : All (IsPacket is_ip) request.packets

-- A case that is built has rules and at least one packet, one expected verdict for each packet, each
-- ACCEPT or DROP, and every packet meets the constraints of the model: addresses that the address
-- test accepts, ports from 1 to 65535 and flags of the eight known letters.
pub build_case-IsCase :
    (c : Conversions) (raw : Fields) (index : ℕ) {r : Text × TestRequest × List Text}
    → build_case c (mapping raw) index ≡ ok r
    → IsCase c.is_ip r.1 r.2
unfolding build_case
build_case-IsCase c raw index {r} h =
    let (_, _, h₁) = >>=-eq-ok (check_keys case_keys (unknown_keys _) raw) _ h in
    let (topology, _, h₂) = >>=-eq-ok (topology_of _ _) _ h₁ in
    let (vs, _, h₃) = >>=-eq-ok (packet_entries c _ (get_or (codes "packets") raw null)) _ h₂ in
    let (built, made, h₄) = >>=-eq-ok (build_packets c _ topology 1 vs) _ h₃ in
    let (rules, _, h₅) = >>=-eq-ok (or_error (c.as_str _) (invalid_request _)) _ h₄ in
    let (q, asked, e) =
      >>=-eq-ok (or_error (make_request rules built.0 topology) (invalid_request _)) _ h₅ in
    let (packets, verdicts, n, m) = build_packets-shape c _ topology 1 vs made in
    let (has_rules, same, some_packets) =
      make_request-shape rules built.0 topology q (or_error-ok _ (invalid_request _) q asked) in
    subst (λ (r : Text × TestRequest × List Text). IsCase c.is_ip r.1 r.2) (ok-injective e)
      (record {
        has_rules = has_rules;
        has_packets = rw same some_packets;
        one_each = rw same (m ∙ sym n);
        verdicts = verdicts;
        packets = rw same packets;
      })
