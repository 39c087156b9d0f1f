-- ===== src/Injector.antt =====
-- nse/core/scapy_injector.py. What `repr` and `str` print, the interpreter's path and what scapy's
-- `sendp` raises are arguments.
pub mod Mac
pub mod Script
pub mod Lookup
pub mod Sent
mod Tests
use network_sandbox_engine.Prelude.{
  ℕ, zero, suc, Text, codes, contains, given, decimal, strip, any, ◌==◌, Bool, true, false, Option,
  none, some, List, [], ◌∷◌, ◌++◌, if◌then◌else◌,
}
use network_sandbox_engine.Exceptions.{Exception, message}
use network_sandbox_engine.Models.Request.{PacketSpec, Protocol, tcp, udp, icmp}
use network_sandbox_engine.Shell.{
  Argv, System, World, Result, ok, failed, expired, raised, Call, ◌>>=◌, ◌>>◌, pure, raise,
  Completed, find, run_unchecked, exec_prefix,
}
use network_sandbox_engine.Injector.Mac.{search_mac}

-- The layers that scapy is given.
pub data Transport : Type 0 where
  tcp_layer : ℕ → ℕ → Text → Transport
  udp_layer : ℕ → ℕ → Transport
  echo_v4 echo_v6 : Transport

pub record Packet : Type 0 where
  pub src_mac : Text
  pub dst_mac : Text
  pub is_ipv6 : Bool
  pub src_ip : Text
  pub dst_ip : Text
  pub transport : Transport

pub record Host : Type 0 where
  pub repr : Text → Text
  pub executable : Text
  -- `str` of a CalledProcessError and of a TimeoutExpired
  pub failed_text : Argv → ℕ → Text
  pub expired_text : Argv → Text
  -- what building the layers and `sendp` raise, on an interface
  pub send : System → Packet → Text → Option Exception

-- `port or default`
abbrev pub port_or : Option ℕ → ℕ → ℕ
port_or none default = default
port_or (some zero) default = default
port_or (some (suc n)) default = suc n

-- `"".join(flags)`
unfoldable pub join : List Text → Text
join [] = []
join (t ∷ ts) = t ++ join ts

abbrev pub has_colon : Text → Bool
has_colon t = any (λ c. c == b':') t

-- The layers of the injection in this process.
unfoldable pub transport_of : PacketSpec → Transport
transport_of spec =
    let src_port = port_or spec.src_port 12345 in
    let dst_port = port_or spec.dst_port 80 in
    elim spec.protocol [
      | tcp ↦ tcp_layer src_port dst_port (join spec.tcp_flags)
      | udp ↦ udp_layer src_port dst_port
      | icmp ↦ if has_colon spec.src_ip then echo_v6 else echo_v4
    ]

unfoldable pub forge : PacketSpec → Text → Text → Packet
forge spec src_mac dst_mac = record {
  src_mac = src_mac;
  dst_mac = dst_mac;
  is_ipv6 = has_colon spec.src_ip;
  src_ip = spec.src_ip;
  dst_ip = spec.dst_ip;
  transport = transport_of spec;
}

-- `text or default`
abbrev pub text_or : Text → Text → Text
text_or [] default = default
text_or (c ∷ t) default = c ∷ t

-- The text of the fourth layer in the script.
unfoldable pub l4_text : (Text → Text) → PacketSpec → Bool → Text
l4_text repr spec is_ipv6 =
    let ports =
      codes "sport="
      ++ (decimal (port_or spec.src_port 12345)
          ++ (codes ", dport=" ++ decimal (port_or spec.dst_port 80))) in
    elim spec.protocol [
      | tcp ↦
          codes "TCP(" ++ (ports ++ (codes ", flags=" ++ (repr (join spec.tcp_flags) ++ codes ")")))
      | udp ↦ codes "UDP(" ++ (ports ++ codes ")")
      | icmp ↦ if is_ipv6 then codes "ICMPv6EchoRequest()" else codes "ICMP()"
    ]

abbrev pub script_head : Text
script_head =
    codes
      "\nfrom scapy.all import Ether, IP, IPv6, TCP, UDP, ICMP, ICMPv6EchoRequest, sendp, conf\nconf.verb = 0\npkt = Ether(src="

abbrev pub script_tail : Text
script_tail = codes ")\nprint(\"Packet sent:\", pkt.summary())\n"

-- `_build_scapy_script`
unfoldable pub build_scapy_script : (Text → Text) → PacketSpec → Text → Text → Text → Text
build_scapy_script repr spec interface src_mac dst_mac =
    let src_ip = text_or spec.src_ip (codes "10.0.0.1") in
    let dst_ip = text_or spec.dst_ip (codes "10.0.0.2") in
    let is_ipv6 = has_colon src_ip in
    script_head
    ++ (repr src_mac
        ++ (codes ", dst="
            ++ (repr dst_mac
                ++ (codes ") / "
                    ++ ((if is_ipv6 then codes "IPv6" else codes "IP")
                        ++ (codes "(src="
                            ++ (repr src_ip
                                ++ (codes ", dst="
                                    ++ (repr dst_ip
                                        ++ (codes ") / "
                                            ++ (l4_text repr spec is_ipv6
                                                ++ (codes "\nsendp(pkt, iface="
                                                    ++ (repr interface ++ script_tail)))))))))))))

-- The addresses of the sandbox, from which a packet is outgoing.
abbrev pub sandbox_ips : List Text
sandbox_ips = codes "10.0.0.2" ∷ codes "fd00::2" ∷ codes "10.0.2.2" ∷ codes "fd00:2::2" ∷ []

module _ (w : World) (host : Host) where
  -- the prefix for the namespace of an interface, if it has a name
  unfoldable pub netns_prefix : Option Text → Call Argv
  netns_prefix netns = elim (given netns) [ none ↦ pure [] | some name ↦ exec_prefix w name ]

  -- what the output of `ip` says
  unfoldable pub read_mac : Text → Argv → Completed → Call Text
  read_mac interface cmd done =
      if done.returncode == 0
      then elim (search_mac done.stdout) [
        | some mac ↦ pure mac
        | none ↦ raise (
            Exception.runtime_error (
              codes "Could not parse MAC address for interface "
              ++ (interface ++ (codes " from: " ++ done.stdout))))
      ]
      else λ s. (failed cmd done.returncode done.stderr, s)

  -- `_get_mac_address`
  unfoldable pub get_mac_address : Text → Option Text → Call Text
  get_mac_address interface netns = do
    prefix ← netns_prefix netns
    ip ← find w (codes "ip")
    let cmd = prefix ++ ip ∷ codes "-o" ∷ codes "link" ∷ codes "show" ∷ codes "dev" ∷ interface ∷ []
    done ← run_unchecked w cmd
    read_mac interface cmd done

  abbrev mac_failed : Text → Exception
  mac_failed t = Exception.runtime_error (codes "Failed to retrieve MAC addresses: " ++ t)

  -- `except Exception as exc`, around the two lookups
  abbrev mac_errors : {X : Type 0} → Result X → Result X
  mac_errors (ok x) = ok x
  mac_errors (failed cmd status stderr) = raised (mac_failed (host.failed_text cmd status))
  mac_errors (expired cmd) = raised (mac_failed (host.expired_text cmd))
  mac_errors (raised e) = raised (mac_failed (message e))

  abbrev pub both_macs : Text → Option Text → Text → Text → Call (Text × Text)
  both_macs veth_host host_netns veth_peer netns_name = do
    host_mac ← get_mac_address veth_host host_netns
    peer_mac ← get_mac_address veth_peer (some netns_name)
    pure (host_mac, peer_mac)

  unfoldable pub look_up_macs : Text → Option Text → Text → Text → Call (Text × Text)
  look_up_macs veth_host host_netns veth_peer netns_name s =
      let (r, s) = both_macs veth_host host_netns veth_peer netns_name s in (mac_errors r, s)

  abbrev not_sent : Text → Exception
  not_sent t = Exception.runtime_error (codes "Packet injection failed: " ++ t)

  -- the injection in this process
  unfoldable pub send_here : Packet → Text → Call (Unit {0})
  send_here packet interface s = elim (host.send s packet interface) [
    | none ↦ (ok tt, s)
    | some e ↦ (raised (not_sent (message e)), s)
  ]

  unfoldable pub script_result : Completed → Call (Unit {0})
  script_result done =
      if done.returncode == 0 then pure tt else raise (not_sent (strip done.stderr))

  -- the injection by another interpreter, inside the namespace
  unfoldable pub send_inside : Text → Text → Call (Unit {0})
  send_inside netns_name script = do
    prefix ← exec_prefix w netns_name
    done ← run_unchecked w (prefix ++ host.executable ∷ codes "-c" ∷ script ∷ [])
    script_result done

  unfoldable pub send_packet : PacketSpec → Text → Text → Text → Text × Text → Call (Unit {0})
  send_packet spec netns_name veth_host veth_peer (host_mac, peer_mac) =
      if contains spec.src_ip sandbox_ips
      then send_inside netns_name (build_scapy_script host.repr spec veth_peer peer_mac host_mac)
      else send_here (forge spec host_mac peer_mac) veth_host

  unfoldable pub inject : PacketSpec → Text → Text → Text → Option Text → Call (Unit {0})
  inject spec netns_name veth_host veth_peer host_netns = do
    macs ← look_up_macs veth_host host_netns veth_peer netns_name
    send_packet spec netns_name veth_host veth_peer macs
