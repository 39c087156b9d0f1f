-- ===== src/Runner/Suite/Build.antt =====
-- `build_case` of nse/cli/runner.py: one raw entry of the suite becomes a request and the
-- verdicts that are expected of it.
pub mod Keys
pub mod Shape
pub mod Raised
use network_sandbox_engine.Prelude.{
  ℕ, suc, ◌+◌, Text, codes, text_eq, contains, upper, lower, decimal, Bool, true, false, not, ◌||◌,
  Option, none, some, List, [], ◌∷◌, ◌++◌, map, all, keep, length, leb, if◌then◌else◌,
}
use network_sandbox_engine.Prelude.Int.{ℤ, pos}
use network_sandbox_engine.Exceptions.{Exception}
use network_sandbox_engine.Models.Request.{
  TopologyType, Protocol, PacketSpec, TestRequest, make_packet, make_request,
}
use network_sandbox_engine.Runner.Verdicts.{accept, drop, reject}
use network_sandbox_engine.Runner.Suite.Error.{
  SuiteConfigError, not_a_mapping, unknown_keys, unknown_topology, no_packets, packet_not_a_mapping,
  packet_unknown_keys, unknown_verdict, packet_invalid, invalid_request,
}
use network_sandbox_engine.Runner.Suite.Value.{
  Key, text, number, null_key, Value, null, bool, int, other, str, sequence, mapping, nil, item,
  Fields, elements, keys, get, get_or, is_truthy,
}

-- What a call of `build_case` ends in: a value, the error that the caller handles, or another
-- exception.
pub data Built {ℓ} (A : Type ℓ) : Type ℓ where
  ok : A → Built A
  config_error : SuiteConfigError → Built A
  raised : Exception → Built A

infixl 5 ◌>>=◌ ◌>>◌
abbrev pub ◌>>=◌ : {X Y : Type 0} → Built X → (X → Built Y) → Built Y
config_error e >>= rest = config_error e
raised e >>= rest = raised e
ok x >>= rest = rest x

abbrev pub ◌>>◌ : {Y : Type 0} → Built (Unit {0}) → Built Y → Built Y
check >> rest = check >>= λ _. rest

abbrev pub or_error {ℓ} : {A : Type ℓ} → Option A → SuiteConfigError → Built A
or_error none e = config_error e
or_error (some a) e = ok a

-- What the runner takes from Python's library and from pydantic: `str` of a value that is no
-- string, the conversions of a value to the type of a field, and the test of an address.
pub record Conversions : Type 0 where
  pub repr : Value → Text
  pub as_str : Value → Option Text
  pub as_int : Value → Option ℤ
  pub as_str_list : Value → Option (List Text)
  pub is_ip : Text → Bool

abbrev pub case_keys : List Text
case_keys = codes "name" ∷ codes "topology" ∷ codes "rules" ∷ codes "packets" ∷ []

abbrev pub packet_keys : List Text
packet_keys =
    codes "expected_verdict"
    ∷ codes "protocol"
    ∷ codes "src_ip"
    ∷ codes "dst_ip"
    ∷ codes "src_port"
    ∷ codes "dst_port"
    ∷ codes "tcp_flags"
    ∷ []

abbrev pub is_known : List Text → Key → Bool
is_known valid (text t) = contains t valid
is_known valid _ = false

is_text : Key → Bool
is_text (text t) = true
is_text _ = false

is_number : Key → Bool
is_number (number n) = true
is_number _ = false

-- Whether `sorted` can compare the keys: it raises on keys of several types.
unfoldable pub is_sortable : List Key → Bool
unfolding is_text is_number
is_sortable ks = leb (length ks) 1 || all is_text ks || all is_number ks

abbrev unsortable : Exception
unsortable = Exception.type_error (codes "'<' not supported between instances")

unfoldable pub refuse_keys : (List Key → SuiteConfigError) → List Key → Built (Unit {0})
refuse_keys message [] = ok tt
refuse_keys message (k ∷ ks) =
    if is_sortable (k ∷ ks) then config_error (message (k ∷ ks)) else raised unsortable

-- `set(raw) - valid`, with the error whose message sorts what is left
unfoldable pub check_keys : List Text → (List Key → SuiteConfigError) → Fields → Built (Unit {0})
unfolding refuse_keys is_sortable
check_keys valid message fs = refuse_keys message (keep (λ k. not (is_known valid k)) (keys fs))

abbrev pub key_value : Key → Value
key_value (text t) = str t
key_value (number n) = int (pos n)
key_value null_key = null

abbrev pub not_iterable : Exception
not_iterable = Exception.type_error (codes "object is not iterable")

-- what `enumerate(packets_data)` yields
unfoldable pub entries : Value → Built (List Value)
entries (sequence items) = ok (elements items)
entries (mapping fs) = ok (map key_value (keys fs))
entries (str t) = ok (map (λ c. str (c ∷ [])) t)
entries _ = raised not_iterable

unfoldable pub topology_of : Text → Text → Built TopologyType
topology_of name t =
    if text_eq t (codes "gateway")
    then ok TopologyType.gateway
    else if text_eq t (codes "simple")
    then ok TopologyType.simple
    else config_error (unknown_topology name t)

-- `"DROP" if verdict == "REJECT" else verdict`, behind the test for `_VALID_VERDICTS`
unfoldable pub expectation : Text → ℕ → Text → Built Text
expectation name idx verdict =
    if text_eq verdict accept || text_eq verdict drop || text_eq verdict reject
    then ok (if text_eq verdict reject then drop else verdict)
    else config_error (unknown_verdict name idx verdict)

unfoldable pub default_src : TopologyType → Text
default_src TopologyType.gateway = codes "10.0.1.1"
default_src TopologyType.simple = codes "10.0.0.1"

unfoldable pub default_dst : TopologyType → Text
default_dst TopologyType.gateway = codes "10.0.2.2"
default_dst TopologyType.simple = codes "10.0.0.2"

-- a `Literal` accepts its own strings alone
unfoldable pub as_protocol : Value → Option Protocol
as_protocol (str t) =
    if text_eq t (codes "tcp")
    then some Protocol.tcp
    else if text_eq t (codes "udp")
    then some Protocol.udp
    else if text_eq t (codes "icmp")
    then some Protocol.icmp
    else none
as_protocol _ = none

module _ (c : Conversions) where
  open c use {repr, as_str, as_int, as_str_list, is_ip}

  -- `str(value)`
  unfoldable pub to_str : Value → Text
  to_str (str t) = t
  to_str v = repr v

  -- an optional integer field
  as_optional_int : Value → Option (Option ℤ)
  as_optional_int null = some none
  as_optional_int v = elim (as_int v) [ none ↦ none | some n ↦ some (some n) ]

  abbrev packet_of :
      Option Protocol
      → Option Text
      → Option Text
      → Option (Option ℤ)
      → Option (Option ℤ)
      → Option (List Text)
      → Option PacketSpec
  packet_of (some protocol) (some src) (some dst) (some sport) (some dport) (some flags) =
      make_packet is_ip protocol src dst sport dport flags
  packet_of _ _ _ _ _ _ = none

  -- the call of `PacketSpec`
  unfoldable pub packet_spec : TopologyType → Fields → Option PacketSpec
  unfolding as_optional_int
  packet_spec topology entry =
      packet_of (as_protocol (get_or (codes "protocol") entry (str (codes "tcp"))))
        (as_str (get_or (codes "src_ip") entry (str (default_src topology))))
        (as_str (get_or (codes "dst_ip") entry (str (default_dst topology))))
        (as_optional_int (get_or (codes "src_port") entry null))
        (as_optional_int (get_or (codes "dst_port") entry null))
        (as_str_list (get_or (codes "tcp_flags") entry (sequence nil)))

  -- the body of the loop over the packets
  unfoldable pub build_packet : Text → TopologyType → ℕ → Value → Built (PacketSpec × Text)
  unfolding packet_spec expectation to_str
  build_packet name topology idx (mapping entry) = do
    check_keys packet_keys (packet_unknown_keys name idx) entry
    expected ←
        expectation name idx (upper (to_str (get_or (codes "expected_verdict") entry (str accept))))
    packet ← or_error (packet_spec topology entry) (packet_invalid name idx)
    ok (packet, expected)
  build_packet name topology idx _ = config_error (packet_not_a_mapping name idx)

  unfoldable pub build_packets :
      Text → TopologyType → ℕ → List Value → Built (List PacketSpec × List Text)
  build_packets name topology idx [] = ok ([], [])
  build_packets name topology idx (v ∷ vs) = do
    first ← build_packet name topology idx v
    rest ← build_packets name topology (suc idx) vs
    ok (first.0 ∷ rest.0, first.1 ∷ rest.1)

  -- `raw.get("packets") or []`, and the test for an empty list
  unfoldable pub packet_entries : Text → Value → Built (List Value)
  packet_entries name packets =
      if is_truthy packets then entries packets else config_error (no_packets name)

  -- `str(raw.get("name", f"Test case {index + 1}"))`
  abbrev pub case_name : Fields → ℕ → Text
  case_name raw index =
      to_str (get_or (codes "name") raw (str (codes "Test case " ++ decimal (index + 1))))

  unfoldable pub build_case : Value → ℕ → Built (Text × TestRequest × List Text)
  unfolding to_str topology_of packet_entries
  build_case (mapping raw) index =
      let name = case_name raw index in
      do
        check_keys case_keys (unknown_keys name) raw
        topology ←
            topology_of name (lower (to_str (get_or (codes "topology") raw (str (codes "simple")))))
        values ← packet_entries name (get_or (codes "packets") raw null)
        built ← build_packets name topology 1 values
        rules ← or_error (as_str (get_or (codes "rules") raw (str []))) (invalid_request name)
        request ← or_error (make_request rules built.0 topology) (invalid_request name)
        ok (name, request, built.1)
  build_case _ index = config_error (not_a_mapping (index + 1))
