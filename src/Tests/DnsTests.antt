-- ===== src/Tests/DnsTests.antt =====
-- engine/dns/dns_server.cpp at packets of tests/tests.cpp's kind.
use appytizer_app_server.Base.{ℕ, ◌≡◌, true, false, ◌⊎◌, List, [], ◌∷◌, ◌++◌, codes, arith}
use appytizer_app_server.Dns.{make_response, decode_question_name, answer_record, ends_with_ci}
use appytizer_app_server.Dns.Names.{decode_question_name-encode}
use appytizer_app_server.Dns.Replies.{Query, make_response-query}
use appytizer_app_server.Dns.Server.{Datagram, run, new_server}
use appytizer_app_server.Dns.Server.Answered.{answers, wake_datagram, run-answers}
use appytizer_app_server.Dns.Server.Balanced.{
  Operation, starting, stopping, IsBalanced, operate_all, operate_all-IsBalanced,
}
use appytizer_app_server.Dns.Bounds.{IsBounded, make_response-IsBounded}

abbrev address_query : Query
address_query = record {
  id_high = 7;
  id_low = 9;
  flags_high = 1;
  flags_low = 0;
  an_high = 0;
  an_low = 0;
  ns_high = 0;
  ns_low = 0;
  ar_high = 0;
  ar_low = 0;
  type_high = 0;
  type_low = 1;
  class_high = 0;
  class_low = 1;
  rest = [];
}

abbrev query_packet : List ℕ
query_packet =
    7 ∷ 9 ∷ 1 ∷ 0 ∷ 0 ∷ 1 ∷ 0 ∷ 0 ∷ 0 ∷ 0 ∷ 0 ∷ 0 ∷ 1 ∷ b'a' ∷ 4 ∷ b't' ∷ b'E' ∷ b's' ∷ b't' ∷ 0 ∷ 0
    ∷ 1 ∷ 0 ∷ 1 ∷ []

decode_question_name-encode_example : decode_question_name query_packet 12 ≡ (codes "a.tEst", 20)
decode_question_name-encode_example =
    decode_question_name-encode (codes "a" ∷ codes "tEst" ∷ [])
      (7 ∷ 9 ∷ 1 ∷ 0 ∷ 0 ∷ 1 ∷ 0 ∷ 0 ∷ 0 ∷ 0 ∷ 0 ∷ 0 ∷ []) (0 ∷ 1 ∷ 0 ∷ 1 ∷ []) (omega arith)

make_response-query_example :
    make_response query_packet
    ≡ (7 ∷ 9 ∷ 0x81 ∷ 0x80 ∷ 0 ∷ 1 ∷ 0 ∷ 1 ∷ 0 ∷ 0 ∷ 0 ∷ 0 ∷ 1 ∷ b'a' ∷ 4 ∷ b't' ∷ b'E' ∷ b's'
        ∷ b't' ∷ 0 ∷ 0 ∷ 1 ∷ 0 ∷ 1 ∷ [])
      ++ answer_record
unfolding ends_with_ci
make_response-query_example =
    make_response-query address_query (codes "a") (codes "tEst" ∷ []) (omega arith) (omega arith)
      (omega arith)

make_response-IsBounded_example :
    (make_response query_packet ≡ []) ⊎ IsBounded query_packet (make_response query_packet)
make_response-IsBounded_example = make_response-IsBounded query_packet

abbrev query_datagram : Datagram
query_datagram = record { peer = codes "127.0.0.1:5000"; bytes = query_packet }

run-answers_example :
    (run true (
        (query_datagram, true)
        ∷ (wake_datagram (codes "127.0.0.1:6000"), false)
        ∷ (query_datagram, false)
        ∷ [])
      ≡ (answers (query_datagram ∷ wake_datagram (codes "127.0.0.1:6000") ∷ []), true))
    × (answers (wake_datagram (codes "127.0.0.1:6000") ∷ []) ≡ [])
run-answers_example =
    run-answers (query_datagram ∷ []) (wake_datagram (codes "127.0.0.1:6000"))
      ((query_datagram, false) ∷ []) (codes "127.0.0.1:6000")

-- The port is taken at first.
abbrev attempts : List Operation
attempts =
    starting (record { started_up = true; created = true; bound = false })
    ∷ starting (record { started_up = true; created = true; bound = true })
    ∷ stopping false
    ∷ []

operate_all-IsBalanced_example : IsBalanced (operate_all attempts new_server)
operate_all-IsBalanced_example = operate_all-IsBalanced attempts
