-- ===== src/Injector/Tests.antt =====
-- An injection on a small machine.
use network_sandbox_engine.Prelude.{
  Text, codes, contains, text_eq, given, after, run_of, span, Bool, true, none, some, [], ◌∷◌, ◌++◌,
  ◌≡◌, refl,
}
use network_sandbox_engine.Models.Request.{PacketSpec, Protocol}
use network_sandbox_engine.Paths.{
  resolve_once, search_dirs, is_safely_owned, is_root_only, is_runnable, others_write, parent,
  candidate,
}
use network_sandbox_engine.Shell.{System, World, ok, find, run_unchecked, exec_prefix}
use network_sandbox_engine.Shell.Sample.{world}
use network_sandbox_engine.Injector.Mac.{mac_here, search_mac}
use network_sandbox_engine.Injector.Script.{program_of, build_scapy_script-forge}
use network_sandbox_engine.Injector.Lookup.{HasMac}
use network_sandbox_engine.Injector.Sent.{Departed, inject-Departed}
use network_sandbox_engine.Injector.{
  Host, forge, netns_prefix, read_mac, get_mac_address, look_up_macs, send_here, script_result,
  send_inside, send_packet, build_scapy_script, inject,
}

-- every command prints a link
abbrev machine : World
machine = world 0 (codes "2: vhr-1: <UP> link/ether 02:00:00:00:00:a1 brd ff:ff:ff:ff:ff:ff") []

abbrev host : Host
host = record {
  repr = λ t. codes "'" ++ (t ++ codes "'");
  executable = codes "/usr/bin/python3";
  failed_text = λ cmd n. codes "Command failed";
  expired_text = λ cmd. codes "Command timed out";
  send = λ s p interface. none;
}

abbrev start : System
start = record { ran = []; active_ns = []; temp_files = [] }

-- a packet from the sandbox
abbrev reply : PacketSpec
reply = record {
  protocol = Protocol.tcp;
  src_ip = codes "10.0.0.2";
  dst_ip = codes "10.0.0.1";
  src_port = some 80;
  dst_port = none;
  tcp_flags = codes "S" ∷ codes "A" ∷ [];
}

-- What a test computes with.
runs : Bool
unfolding resolve_once search_dirs is_safely_owned is_root_only is_runnable others_write parent
    candidate contains text_eq given after run_of span find run_unchecked exec_prefix mac_here
    search_mac netns_prefix read_mac get_mac_address look_up_macs send_here script_result
    send_inside send_packet inject
runs = true

build_scapy_script-forge_example :
    build_scapy_script host.repr reply
      (codes "vrh-1")
      (codes "02:00:00:00:00:a1")
      (codes "02:00:00:00:00:a2")
    ≡ program_of host.repr
        (forge reply (codes "02:00:00:00:00:a1") (codes "02:00:00:00:00:a2"))
        (codes "vrh-1")
build_scapy_script-forge_example =
    build_scapy_script-forge host.repr reply (codes "vrh-1") (codes "02:00:00:00:00:a1")
      (codes "02:00:00:00:00:a2") (λ e. absurd (cc)) (λ e. absurd (cc))

injected :
    (inject machine host reply (codes "nse_1") (codes "vhr-1") (codes "vrh-1") none start).0 ≡ ok tt
unfolding runs
injected = refl

inject-Departed_example :
    (host_mac : Text) × (peer_mac : Text) × HasMac machine (codes "vhr-1") none host_mac
    × HasMac machine (codes "vrh-1") (some (codes "nse_1")) peer_mac
    × Departed machine host reply (codes "nse_1") (codes "vhr-1") (codes "vrh-1") host_mac peer_mac
inject-Departed_example =
    inject-Departed machine host reply (codes "nse_1") (codes "vhr-1") (codes "vrh-1") none start
      (λ e. absurd (cc)) injected
