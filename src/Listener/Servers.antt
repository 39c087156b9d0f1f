-- ===== src/Listener/Servers.antt =====
-- The two servers of nse/core/mock_listener.py: their sockets, and their loops. What the socket calls
-- return or raise is an argument.
use network_sandbox_engine.Prelude.{
  ℕ, Text, any, ◌==◌, Bool, true, false, Option, none, some, List, [], ◌∷◌, collect, ◌≡◌, refl, ap,
  if◌then◌else◌,
}
use network_sandbox_engine.Listener.{Turn, Conversation, handle_client}

-- the family of the socket
pub data Family : Type 0 where
  inet inet6 : Family

unfoldable pub family_of : Text → Family
family_of host = if any (λ c. c == b':') host then inet6 else inet

-- How a server ends: `sys.exit` with a status if it cannot bind, or with what its loop did.
pub data ServerEnd (A : Type 0) : Type 0 where
  exits : ℕ → ServerEnd A
  served : A → ServerEnd A

-- One turn of the loop of `run_tcp_server`: a connection with its turns, an OSError, or Ctrl-C.
pub data Accept : Type 0 where
  connection : List Turn → Accept
  accept_raises accept_interrupted : Accept

pub record TcpServer : Type 0 where
  pub conversations : List Conversation
  pub serving : Bool

unfoldable pub accept_loop : List Accept → TcpServer
accept_loop [] = record { conversations = []; serving = true }
accept_loop (connection ts ∷ turns) =
    let rest = accept_loop turns in
    record rest { conversations = handle_client ts ∷ rest.conversations }
accept_loop (accept_raises ∷ turns) = accept_loop turns
accept_loop (accept_interrupted ∷ turns) = record { conversations = []; serving = false }

unfoldable pub run_tcp_server : Bool → List Accept → ServerEnd TcpServer
run_tcp_server bind_raises turns = if bind_raises then exits 1 else served (accept_loop turns)

-- One turn of the loop of `run_udp_server`: a text from an address, with whether `sendto` raises; an
-- OSError of `recvfrom`, or Ctrl-C.
pub data Datagram : Type 0 where
  datagram : Text → Text → Bool → Datagram
  recvfrom_raises recvfrom_interrupted : Datagram

-- The texts that were sent, with the address of each.
pub record UdpServer : Type 0 where
  pub sent : List (Text × Text)
  pub serving : Bool

abbrev replies : Text × Text → UdpServer → UdpServer
replies r s = record s { sent = r ∷ s.sent }

unfoldable pub echo_loop : List Datagram → UdpServer
echo_loop [] = record { sent = []; serving = true }
echo_loop (datagram data_ address sendto_raises ∷ turns) =
    let rest = echo_loop turns in if sendto_raises then rest else replies (data_, address) rest
echo_loop (recvfrom_raises ∷ turns) = echo_loop turns
echo_loop (recvfrom_interrupted ∷ turns) = record { sent = []; serving = false }

unfoldable pub run_udp_server : Bool → List Datagram → ServerEnd UdpServer
run_udp_server bind_raises turns = if bind_raises then exits 1 else served (echo_loop turns)

-- The turns before Ctrl-C.
abbrev until_interrupt : List Datagram → List Datagram
until_interrupt [] = []
until_interrupt (datagram t address raises ∷ ds) = datagram t address raises ∷ until_interrupt ds
until_interrupt (recvfrom_raises ∷ ds) = recvfrom_raises ∷ until_interrupt ds
until_interrupt (recvfrom_interrupted ∷ ds) = []

abbrev answer : Datagram → Option (Text × Text)
answer (datagram t address raises) = if raises then none else some (t, address)
answer recvfrom_raises = none
answer recvfrom_interrupted = none

-- An OSError ends nothing: each text that can be sent goes back to where it came from, in the order of
-- arrival, until Ctrl-C.
pub echo_loop-sent :
    (ds : List Datagram) → (echo_loop ds).sent ≡ collect answer (until_interrupt ds)
unfolding echo_loop
echo_loop-sent [] = refl
echo_loop-sent (datagram t address true ∷ ds) = echo_loop-sent ds
echo_loop-sent (datagram t address false ∷ ds) = ap (λ l. (t, address) ∷ l) (echo_loop-sent ds)
echo_loop-sent (recvfrom_raises ∷ ds) = echo_loop-sent ds
echo_loop-sent (recvfrom_interrupted ∷ ds) = refl
