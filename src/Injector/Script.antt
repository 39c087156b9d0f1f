-- ===== src/Injector/Script.antt =====
-- The two ways to inject a packet.
use network_sandbox_engine.Prelude.{
  Text, codes, decimal, [], ◌∷◌, ◌++◌, ◌≡◌, ◌≢◌, refl, Bool-cases, inl, inr, if◌then◌else◌,
}
use network_sandbox_engine.Models.Request.{PacketSpec, Protocol, tcp, udp, icmp}
use network_sandbox_engine.Injector.{
  Transport, tcp_layer, udp_layer, echo_v4, echo_v6, Packet, has_colon, transport_of, forge,
  text_or, l4_text, script_tail, build_scapy_script,
}

-- A packet as the Python expression that builds it.
abbrev pub transport_text : (Text → Text) → Transport → Text
transport_text repr (tcp_layer s d flags) =
    codes "TCP("
    ++ (codes "sport="
        ++ (decimal s ++ (codes ", dport=" ++ decimal d))
        ++ (codes ", flags=" ++ (repr flags ++ codes ")")))
transport_text repr (udp_layer s d) =
    codes "UDP(" ++ (codes "sport=" ++ (decimal s ++ (codes ", dport=" ++ decimal d)) ++ codes ")")
transport_text repr echo_v4 = codes "ICMP()"
transport_text repr echo_v6 = codes "ICMPv6EchoRequest()"

abbrev pub packet_text : (Text → Text) → Packet → Text → Text
packet_text repr p end =
    codes "Ether(src="
    ++ (repr p.src_mac
        ++ (codes ", dst="
            ++ (repr p.dst_mac
                ++ (codes ") / "
                    ++ ((if p.is_ipv6 then codes "IPv6" else codes "IP")
                        ++ (codes "(src="
                            ++ (repr p.src_ip
                                ++ (codes ", dst="
                                    ++ (repr p.dst_ip
                                        ++ (codes ") / "
                                            ++ (transport_text repr p.transport ++ end)))))))))))

-- The program that sends a packet on an interface.
abbrev pub program_of : (Text → Text) → Packet → Text → Text
program_of repr p interface =
    codes
      "\nfrom scapy.all import Ether, IP, IPv6, TCP, UDP, ICMP, ICMPv6EchoRequest, sendp, conf\nconf.verb = 0\npkt = "
    ++ packet_text repr p (codes "\nsendp(pkt, iface=" ++ (repr interface ++ script_tail))

l4_text-transport :
    (repr : Text → Text) (spec : PacketSpec)
    → l4_text repr spec (has_colon spec.src_ip) ≡ transport_text repr (transport_of spec)
unfolding l4_text transport_of
l4_text-transport repr spec = go spec.protocol refl
  where
    go :
        (p : Protocol)
        → spec.protocol ≡ p
        → l4_text repr spec (has_colon spec.src_ip) ≡ transport_text repr (transport_of spec)
    go tcp e = rw (e, l4_text, transport_of) refl
    go udp e = rw (e, l4_text, transport_of) refl
    go icmp e = elim (Bool-cases (has_colon spec.src_ip)) [
      | inl c ↦ rw (e, l4_text, transport_of, c) refl
      | inr c ↦ rw (e, l4_text, transport_of, c) refl
    ]

text_or-given : (t default : Text) → t ≢ [] → text_or t default ≡ t
text_or-given [] default n = absurd (n refl)
text_or-given (c ∷ t) default n = refl

-- For a packet whose addresses are given, the script that runs inside the namespace builds and sends
-- the very packet that the injection in this process builds from the same request and MAC addresses:
-- every layer, port, flag and address, with the same defaults.
pub build_scapy_script-forge :
    (repr : Text → Text) (spec : PacketSpec) (interface src_mac dst_mac : Text)
    → spec.src_ip ≢ []
    → spec.dst_ip ≢ []
    → build_scapy_script repr spec interface src_mac dst_mac
      ≡ program_of repr (forge spec src_mac dst_mac) interface
unfolding build_scapy_script forge
build_scapy_script-forge repr spec interface src_mac dst_mac s d =
    rw
      (
        text_or-given spec.src_ip (codes "10.0.0.1") s,
        text_or-given spec.dst_ip (codes "10.0.0.2") d,
        l4_text-transport repr spec,
      )
      refl
