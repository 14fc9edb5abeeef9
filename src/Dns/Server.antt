-- ===== src/Dns/Server.antt =====
-- DnsServer::start, stop and run in engine/dns/dns_server.cpp: the socket, the Winsock references and
-- the thread's rounds.
use appytizer_app_server.Base.{
  ℕ, ◌+◌, ◌-◌, Bool, true, false, not, ◌||◌, List, [], ◌∷◌, ◌++◌, Text, length, is_empty, ltb,
  if◌then◌else◌,
}
use appytizer_app_server.Dns.{make_response}
pub mod Answered
pub mod Balanced

-- The calls that take a socket or a reference to Winsock, and those that give one back, are counted.
pub record DnsServer : Type 0 where
  pub running : Bool
  pub created : ℕ
  pub closed : ℕ
  pub startups : ℕ
  pub cleanups : ℕ

abbrev pub new_server : DnsServer
new_server = record { running = false; created = 0; closed = 0; startups = 0; cleanups = 0 }

-- Whether WSAStartup, socket and bind succeed.
pub record SocketAnswers : Type 0 where
  pub started_up : Bool
  pub created : Bool
  pub bound : Bool

abbrev wsa_startup : DnsServer → DnsServer
wsa_startup s = record s { startups = s.startups + 1 }

abbrev wsa_cleanup : DnsServer → DnsServer
wsa_cleanup s = record s { cleanups = s.cleanups + 1 }

abbrev create_socket : DnsServer → DnsServer
create_socket s = record s { created = s.created + 1 }

abbrev close_socket : DnsServer → DnsServer
close_socket s = record s { closed = s.closed + 1 }

unfoldable pub start : SocketAnswers → DnsServer → DnsServer × Bool
start answers s =
    let opened = create_socket (wsa_startup s) in
    if s.running
    then (s, true)
    else if not answers.started_up
    then (s, false)
    else if not answers.created
    then (wsa_cleanup (wsa_startup s), false)
    else if not answers.bound
    then (wsa_cleanup (close_socket opened), false)
    else (record opened { running = true }, true)

-- Whether the socket that wakes the thread can be created. The thread has ended when stop goes on.
unfoldable pub stop : Bool → DnsServer → DnsServer
stop wake s =
    let halted : DnsServer = record s { running = false } in
    let woken = if wake then close_socket (create_socket halted) else halted in
    if not s.running then s else wsa_cleanup (close_socket woken)

pub record Datagram : Type 0 where
  pub peer : Text
  pub bytes : List ℕ

-- recvfrom gives no packet for an empty datagram, and an error for one that the buffer cannot hold.
abbrev pub is_received : List ℕ → Bool
is_received bytes = not (is_empty bytes || ltb 512 (length bytes))

-- One round of the loop: what it sends.
unfoldable pub reply : Datagram → List Datagram
reply d =
    let response = make_response d.bytes in
    if not (is_received d.bytes) || is_empty response
    then []
    else record { peer = d.peer; bytes = response } ∷ []

-- The loop, from a test of `running` on: the datagrams that arrive, each with the value that the next
-- test finds. What is sent, and whether the loop has ended.
unfoldable pub run : Bool → List (Datagram × Bool) → List Datagram × Bool
unfolding reply
run false rounds = ([], true)
run true [] = ([], false)
run true ((d, still) ∷ rounds) =
    let (later, has_ended) = run still rounds in (reply d ++ later, has_ended)
