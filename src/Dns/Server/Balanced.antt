-- ===== src/Dns/Server/Balanced.antt =====
-- DnsServer::start and stop give back what they take of Winsock, on every branch.
use appytizer_app_server.Base.{◌+◌, ◌≡◌, refl, Bool, List, [], ◌∷◌, arith, if◌then◌else◌}
use appytizer_app_server.Dns.Server.{DnsServer, SocketAnswers, new_server, start, stop}

-- A call of the server, with what Windows answers.
pub data Operation : Type 0 where
  starting : SocketAnswers → Operation
  stopping : Bool → Operation

pub operate : Operation → DnsServer → DnsServer
unfolding start stop
operate (starting answers) s = (start answers s).0
operate (stopping wake) s = stop wake s

unfoldable pub operate_all : List Operation → DnsServer → DnsServer
unfolding operate
operate_all [] s = s
operate_all (operation ∷ operations) s = operate_all operations (operate operation s)

-- All that was taken was given back, each once, but for one socket and one reference while the server
-- runs.
abbrev pub IsBalanced : DnsServer → Type 0
IsBalanced s =
    (s.created ≡ s.closed + (if s.running then 1 else 0))
    × (s.startups ≡ s.cleanups + (if s.running then 1 else 0))

start-IsBalanced :
    (answers : SocketAnswers) (s : DnsServer) → IsBalanced s → IsBalanced (start answers s).0
unfolding start
start-IsBalanced answers s h = ground arith

stop-IsBalanced : (wake : Bool) (s : DnsServer) → IsBalanced s → IsBalanced (stop wake s)
unfolding stop
stop-IsBalanced wake s h = ground arith

operate_all-keeps :
    (operations : List Operation) (s : DnsServer)
    → IsBalanced s
    → IsBalanced (operate_all operations s)
unfolding operate_all operate
operate_all-keeps [] s h = h
operate_all-keeps (starting answers ∷ operations) s h =
    operate_all-keeps operations (start answers s).0 (start-IsBalanced answers s h)
operate_all-keeps (stopping wake ∷ operations) s h =
    operate_all-keeps operations (stop wake s) (stop-IsBalanced wake s h)

-- After any sequence of starts and stops of a new server, whatever fails in them, as many sockets were
-- closed as created, and as many references to Winsock given back as taken, but for one of each while
-- the server runs.
pub operate_all-IsBalanced :
    (operations : List Operation) → IsBalanced (operate_all operations new_server)
operate_all-IsBalanced operations = operate_all-keeps operations new_server (refl, refl)
