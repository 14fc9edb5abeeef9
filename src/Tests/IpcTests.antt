-- ===== src/Tests/IpcTests.antt =====
-- The pipe's two ends at concrete inputs.
use appytizer_app_server.Base.{ℕ, ◌+◌, ◌≡◌, true, List, [], ◌∷◌, codes}
use appytizer_app_server.Ipc.Server.{
  testing, waiting, Subscriber, new_subscriber, push, writer_move, pushed, moved, born, lived,
}
use appytizer_app_server.Base.{map, some, Text, ◌++◌}
use appytizer_app_server.Ipc.Request.{request_line}
use appytizer_app_server.Ipc.Serving.{serve_client}
use appytizer_app_server.Ipc.Serving.Subscribed.{broadcast_all, queued, line, serve_client-queued}
use appytizer_app_server.Tests.CodedJson.{coded_json, coded_json-IsLawful}
use appytizer_app_server.Ipc.Server.Order.{InOrder, Life-InOrder}
use appytizer_app_server.Ipc.Client.{Round, no_pipe, session}

abbrev one_message : Subscriber
one_message = push (codes "a") new_subscriber

abbrev waiting_writer : Subscriber
waiting_writer = (writer_move true testing one_message).0

-- One message, which the writer takes and writes.
Life-InOrder_example :
    InOrder (codes "a" ∷ []) (codes "a" ∷ []) (writer_move true waiting waiting_writer).0
unfolding push writer_move
Life-InOrder_example = Life-InOrder (
    lived (lived (lived born (pushed (codes "a") new_subscriber)) (moved true one_message))
      (moved true waiting_writer))

abbrev rounds : List Round
rounds = no_pipe ∷ no_pipe ∷ session (codes "hello" ∷ []) ∷ no_pipe ∷ []

abbrev counting : Text → ℕ → ℕ × Text
counting request n = (n + 1, codes "ok")

serve_client-queued_example :
    let request =
      request_line coded_json
        (codes "1")
        (codes "events.subscribe")
        (coded_json.dump (coded_json.object [])) in
    let served = serve_client coded_json counting (some request) true (one_message ∷ []) 4 in
    (broadcast_all (codes "a" ∷ codes "b" ∷ []) served.subscribers
      ≡ broadcast_all (codes "a" ∷ codes "b" ∷ []) (one_message ∷ [])
        ++ (queued (map line (codes "a" ∷ codes "b" ∷ [])) ∷ []))
    × (served.answer ≡ some (codes "ok"))
    × (served.engine ≡ 5)
serve_client-queued_example =
    serve_client-queued coded_json coded_json-IsLawful counting (codes "1") (coded_json.object [])
      (one_message ∷ []) 4 (codes "a" ∷ codes "b" ∷ [])
