-- ===== src/Models/Request.antt =====
-- nse/models/test_request.py: the packets and the requests, with the constraints of their fields.
-- `is_ip` stands for `ipaddress.ip_address`, which accepts or raises.
use network_sandbox_engine.Prelude.{
  ℕ, Text, codes, contains, upper, Option, none, some, List, [], ◌∷◌, Bool, ◌&&◌, map, all, leb,
  if◌then◌else◌,
}
use network_sandbox_engine.Prelude.Int.{ℤ, pos, negsuc}

pub data TopologyType : Type 0 where
  simple gateway : TopologyType

-- The `Literal` of `PacketSpec.protocol`.
pub data Protocol : Type 0 where
  tcp udp icmp : Protocol

pub record PacketSpec : Type 0 where
  pub protocol : Protocol
  pub src_ip : Text
  pub dst_ip : Text
  pub src_port : Option ℕ
  pub dst_port : Option ℕ
  pub tcp_flags : List Text

pub record TestRequest : Type 0 where
  pub rules : Text
  pub packets : List PacketSpec
  pub topology : TopologyType

abbrev pub valid_flags : List Text
valid_flags =
    codes "F"
    ∷ codes "S"
    ∷ codes "R"
    ∷ codes "P"
    ∷ codes "A"
    ∷ codes "U"
    ∷ codes "E"
    ∷ codes "C"
    ∷ []

unfoldable pub validate_tcp_flags : List Text → Option (List Text)
validate_tcp_flags flags =
    if all (λ f. contains (upper f) valid_flags) flags then some (map upper flags) else none

-- `ge=1, le=65535` on an optional integer
unfoldable pub validate_port : Option ℤ → Option (Option ℕ)
validate_port none = some none
validate_port (some (pos n)) = if leb 1 n && leb n 65535 then some (some n) else none
validate_port (some (negsuc n)) = none

abbrev validated :
    Protocol
    → Text
    → Text
    → Option (Option ℕ)
    → Option (Option ℕ)
    → Option (List Text)
    → Option PacketSpec
validated protocol src dst (some sport) (some dport) (some flags) = some (record {
  protocol = protocol;
  src_ip = src;
  dst_ip = dst;
  src_port = sport;
  dst_port = dport;
  tcp_flags = flags;
})
validated protocol src dst _ _ _ = none

-- The constructor of `PacketSpec`, behind the conversion of each field to its type; `none` is a
-- `ValidationError`.
unfoldable pub make_packet :
    (Text → Bool) → Protocol → Text → Text → Option ℤ → Option ℤ → List Text → Option PacketSpec
unfolding validate_port validate_tcp_flags
make_packet is_ip protocol src dst sport dport flags =
    if is_ip src && is_ip dst
    then validated protocol src dst (validate_port sport) (validate_port dport)
        (validate_tcp_flags flags)
    else none

-- The constructor of `TestRequest`: `min_length=1` on the rules and on the packets.
unfoldable pub make_request : Text → List PacketSpec → TopologyType → Option TestRequest
make_request [] packets topology = none
make_request (c ∷ rules) [] topology = none
make_request (c ∷ rules) (p ∷ packets) topology =
    some (record { rules = c ∷ rules; packets = p ∷ packets; topology = topology })
