-- ===== src/Listener.antt =====
-- nse/core/mock_listener.py: the command that starts a listener, its choice of a server, and the loop
-- of a TCP connection. The sockets and the interpreter's path are arguments.
pub mod Echo
pub mod Servers
use network_sandbox_engine.Prelude.{
  ℕ, Text, codes, decimal, lower, contains, text_eq, Bool, true, false, List, [], ◌∷◌, ◌++◌,
  if◌then◌else◌,
}
use network_sandbox_engine.Exceptions.{Exception}
use network_sandbox_engine.Shell.{
  Argv, System, Process, exited, killed, not_started, World, Result, ok, raised, Call, ◌>>=◌, ◌>>◌,
  pure, exec_prefix, spawn,
}

-- One turn of `handle_client`: what `recv` gives, with whether `sendall` raises; or `recv` raises.
pub data Turn : Type 0 where
  received : Text → Bool → Turn
  recv_raises : Turn

-- The texts that were sent back whole, and whether the connection is closed.
pub record Conversation : Type 0 where
  pub sent : List Text
  pub closed : Bool

abbrev sends : Text → Conversation → Conversation
sends t c = record c { sent = t ∷ c.sent }

abbrev over : Conversation
over = record { sent = []; closed = true }

-- `handle_client`, on the turns until the end; a connection without a turn is still open.
unfoldable pub handle_client : List Turn → Conversation
handle_client [] = record { sent = []; closed = false }
handle_client (recv_raises ∷ ts) = over
handle_client (received [] sendall_raises ∷ ts) = over
handle_client (received (c ∷ t) sendall_raises ∷ ts) =
    let rest = handle_client ts in if sendall_raises then over else sends (c ∷ t) rest

-- `main`, behind the parser of arguments: argparse ends the process for another protocol.
pub data Served : Type 0 where
  tcp_server udp_server : Text → ℕ → Served
  usage_error : Served

unfoldable pub main : Text → ℕ → Text → Served
main proto port host =
    if text_eq proto (codes "tcp")
    then tcp_server host port
    else if text_eq proto (codes "udp")
    then udp_server host port
    else usage_error

module _ (w : World) (executable : Text) where
  abbrev listener_args : Text → ℕ → Text → List Text
  listener_args proto port host =
      executable
      ∷ codes "-u"
      ∷ codes "-m"
      ∷ codes "nse.core.mock_listener"
      ∷ codes "--proto"
      ∷ lower proto
      ∷ codes "--port"
      ∷ decimal port
      ∷ codes "--host"
      ∷ host
      ∷ []

  unfoldable pub start_mock_listener : Text → Text → ℕ → Text → Call (Unit {0})
  start_mock_listener netns_name proto port host = do
    prefix ← exec_prefix w netns_name
    spawn w (prefix ++ listener_args proto port host)
